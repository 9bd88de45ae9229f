-- ===== src/Tests/Registers.antt =====
-- The addresses of the control registers, as the privileged architecture numbers them.
use zircon_sim.Spike.{Encoding}

abbrev pub encoding : Encoding
encoding = record {
  mhpmevent3 = 0x323;
  mhpmevent31 = 0x33f;
  mhpmcounter3 = 0xb03;
  mhpmcounter31 = 0xb1f;
  mhpmcounter3h = 0xb83;
  mhpmcounter31h = 0xb9f;
  hpmcounter3 = 0xc03;
  hpmcounter31 = 0xc1f;
  hpmcounter3h = 0xc83;
  hpmcounter31h = 0xc9f;
  fflags = 0x1;
  frm = 0x2;
  fcsr = 0x3;
  sstatus = 0x100;
  sie = 0x104;
  stvec = 0x105;
  scounteren = 0x106;
  sscratch = 0x140;
  sepc = 0x141;
  scause = 0x142;
  stval = 0x143;
  sip = 0x144;
  satp = 0x180;
  mstatus = 0x300;
  misa = 0x301;
  medeleg = 0x302;
  mideleg = 0x303;
  mie = 0x304;
  mtvec = 0x305;
  mcounteren = 0x306;
  mstatush = 0x310;
  mcountinhibit = 0x320;
  mscratch = 0x340;
  mepc = 0x341;
  mcause = 0x342;
  mtval = 0x343;
  mip = 0x344;
  mcycle = 0xb00;
  minstret = 0xb02;
  mcycleh = 0xb80;
  minstreth = 0xb82;
  cycle = 0xc00;
  time = 0xc01;
  instret = 0xc02;
  cycleh = 0xc80;
  timeh = 0xc81;
  instreth = 0xc82;
  mvendorid = 0xf11;
  marchid = 0xf12;
  mimpid = 0xf13;
  mhartid = 0xf14;
  mconfigptr = 0xf15;
}
