-- ===== src/Result/Laws.antt =====
-- A property of a result that may be an exception, through the sequence of two calls.
use zircon_sim.Prelude.{Bool, true, false, if◌then◌else◌}
use zircon_sim.Result.{Error, Result, ok, err, ◌>>=◌}

-- A property of the value, if one is returned.
unfoldable pub Returns : {A : Type 0} → (A → Type 0) → Result A → Type 0
Returns P (ok a) = P a
Returns P (err e) = Unit

pub bind-Returns :
    {A B : Type 0} (P : A → Type 0) (Q : B → Type 0) (m : Result A) (f : A → Result B)
    → Returns P m
    → ((a : A) → P a → Returns Q (f a))
    → Returns Q (m >>= f)
unfolding Returns
bind-Returns P Q (ok a) f h k = k a h
bind-Returns P Q (err e) f h k = tt

-- A weaker property of the value.
pub map_Returns :
    {A : Type 0} (P Q : A → Type 0) (m : Result A)
    → ((a : A) → P a → Q a)
    → Returns P m
    → Returns Q m
unfolding Returns
map_Returns P Q (ok a) k h = k a h
map_Returns P Q (err e) k h = tt

-- The same with a property of the exception.
module _ (T : Error → Type 0) where
  unfoldable pub Gives : {A : Type 0} → (A → Type 0) → Result A → Type 0
  Gives P (ok a) = P a
  Gives P (err thrown) = T thrown

  pub bind-Gives :
      {A B : Type 0} (P : A → Type 0) (Q : B → Type 0) (m : Result A) (f : A → Result B)
      → Gives P m
      → ((a : A) → P a → Gives Q (f a))
      → Gives Q (m >>= f)
  unfolding Gives
  bind-Gives P Q (ok a) f h k = k a h
  bind-Gives P Q (err thrown) f h k = h

  pub map_Gives :
      {A : Type 0} (P Q : A → Type 0) (m : Result A) → ((a : A) → P a → Q a) → Gives P m → Gives Q m
  unfolding Gives
  map_Gives P Q (ok a) k h = k a h
  map_Gives P Q (err thrown) k h = h

  pub if_Gives :
      {A : Type 0} (P : A → Type 0) (test : Bool) (m n : Result A)
      → Gives P m
      → Gives P n
      → Gives P (if test then m else n)
  if_Gives P true m n h k = h
  if_Gives P false m n h k = k
