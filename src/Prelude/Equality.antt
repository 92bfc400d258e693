-- ===== src/Prelude/Equality.antt =====
-- `==` of Rust's `PartialEq`, as an interface with instances for the types that the code compares.
use Prim.Native.Nat.{ℕ, compare, Ordering}
use mathlib.Core.Path.{◌≡◌, refl}
use mathlib.Core.Logic.{◌↔◌}
use mathlib.Core.Bool.{Bool, true, false, ◌&&◌}
use mathlib.Core.Option.{Option, none, some}
use mathlib.Core.List.{List, [], ◌∷◌}
use native.Mathlib.Omega.{arith}

-- Decided equality of two numbers.
abbrev pub same_nat : ℕ → ℕ → Bool
same_nat m n = elim (compare m n) [ Ordering.eq ↦ true | _ ↦ false ]

pub same_nat_iff : (m n : ℕ) → (same_nat m n ≡ true) ↔ (m ≡ n)
same_nat_iff m n = ground arith

-- A type whose equality is a test.
pub record PartialEq {ℓ} (T : Type ℓ) : Type ℓ where
  pub same : T → T → Bool
  pub sound : (x y : T) → (same x y ≡ true) ↔ (x ≡ y)

instance abbrev pub nat_eq : PartialEq ℕ
nat_eq = record { same = same_nat; sound = same_nat_iff }

module _ {ℓ} {T : Type ℓ} ⦃d : PartialEq T⦄ where
  infix 50 ◌==◌
  abbrev pub ◌==◌ : T → T → Bool
  x == y = d.same x y

  pub ==_iff : (x y : T) → ((x == y) ≡ true) ↔ (x ≡ y)
  ==_iff x y = d.sound x y

  pub ==_refl : (x : T) → (x == x) ≡ true
  ==_refl x = (d.sound x x).1 refl

abbrev pub same_bool : Bool → Bool → Bool
same_bool true b = b
same_bool false true = false
same_bool false false = true

pub same_bool_iff : (a b : Bool) → (same_bool a b ≡ true) ↔ (a ≡ b)
same_bool_iff a b = ground arith

instance abbrev pub bool_eq : PartialEq Bool
bool_eq = record { same = same_bool; sound = same_bool_iff }

module _ {ℓ} {A : Type ℓ} ⦃d : PartialEq A⦄ where
  abbrev pub same_option : Option A → Option A → Bool
  same_option none none = true
  same_option none (some b) = false
  same_option (some a) none = false
  same_option (some a) (some b) = a == b

  pub same_option_iff : (a b : Option A) → (same_option a b ≡ true) ↔ (a ≡ b)
  same_option_iff none none = ground arith
  same_option_iff none (some b) = ground arith
  same_option_iff (some a) none = ground arith
  same_option_iff (some a) (some b) = ground (arith, ==_iff a b)

  instance abbrev pub option_eq : PartialEq (Option A)
  option_eq = record { same = same_option; sound = same_option_iff }

  abbrev pub same_list : List A → List A → Bool
  same_list [] [] = true
  same_list [] (y ∷ ys) = false
  same_list (x ∷ xs) [] = false
  same_list (x ∷ xs) (y ∷ ys) = x == y && same_list xs ys

  pub same_list_iff : (a b : List A) → (same_list a b ≡ true) ↔ (a ≡ b)
  same_list_iff [] [] = ground arith
  same_list_iff [] (y ∷ ys) = ground arith
  same_list_iff (x ∷ xs) [] = ground arith
  same_list_iff (x ∷ xs) (y ∷ ys) = ground (arith, ==_iff x y, same_list_iff xs ys)

  instance abbrev pub list_eq : PartialEq (List A)
  list_eq = record { same = same_list; sound = same_list_iff }
