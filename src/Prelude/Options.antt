-- ===== src/Prelude/Options.antt =====
-- The methods of Rust's `Option` that the code uses.
use mathlib.Core.Bool.{Bool, true, false}
use mathlib.Core.Option.{Option, none, some}
use obsctl_rs.Prelude.Results.{Result, ok, err}

module _ {ℓ} {A : Type ℓ} where
  -- `Option::map` and `Option::and_then`.
  abbrev pub map_some {κ} : {B : Type κ} → (A → B) → Option A → Option B
  map_some f none = none
  map_some f (some a) = some (f a)

  abbrev pub and_then {κ} : {B : Type κ} → Option A → (A → Option B) → Option B
  and_then none f = none
  and_then (some a) f = f a

  -- `Option::ok_or_else`.
  abbrev pub ok_or {κ} : {E : Type κ} → Option A → E → Result E A
  ok_or none e = err e
  ok_or (some a) e = ok a

  abbrev pub unwrap_or : Option A → A → A
  unwrap_or none other = other
  unwrap_or (some a) other = a

  abbrev pub is_some : Option A → Bool
  is_some none = false
  is_some (some a) = true

  -- `Option::is_some_and`.
  abbrev pub is_some_and : Option A → (A → Bool) → Bool
  is_some_and none p = false
  is_some_and (some a) p = p a
