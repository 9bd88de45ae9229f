-- ===== src/ElfImage.antt =====
-- `ElfImage::load` (include/ElfImage.h, src/ElfImage.cc). The file is its bytes; a structure of the
-- file is the bytes that `objectAt` copies, and its members are read out of them.
pub mod Format
pub mod Load
pub mod Laws
