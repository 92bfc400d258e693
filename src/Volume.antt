-- ===== src/Volume.antt =====
-- src/domain/volume.rs, over the floating-point numbers that the machine provides.
use obsctl_rs.Prelude.{ℕ, Bool, ◌&&◌, if◌then◌else◌}

-- The operations of `f64` that the code uses. They are a parameter: nothing is assumed of them.
pub record Floats (F : Type 0) : Type 0 where
  pub from_integer : ℕ → F
  pub plus : F → F → F
  pub times : F → F → F
  pub min : F → F → F
  pub max : F → F → F
  -- the saturating cast `as u64`
  pub to_u64 : F → ℕ
  pub divided_by : F → F → F
  -- the exponent is an `i32`, given by its 32 bits
  pub powi : F → ℕ → F
  pub sqrt : F → F
  pub log10 : F → F
  pub round : F → F
  pub clamp : F → F → F → F
  -- the saturating cast `as u8`
  pub to_u8 : F → ℕ
  pub le : F → F → Bool
  pub lt : F → F → Bool
  pub is_finite : F → Bool
  pub neg_infinity : F

module _ {F : Type 0} (f : Floats F) where
  open f use {
    from_integer, times, divided_by, powi, sqrt, log10, round, clamp, to_u8, le, is_finite,
    neg_infinity,
  }

  unfoldable pub percent_to_mul : ℕ → F
  percent_to_mul percent = powi (divided_by (from_integer percent) (from_integer 100)) 2

  unfoldable pub mul_to_percent : F → ℕ
  mul_to_percent mul =
      to_u8
        (clamp (round (times (sqrt mul) (from_integer 100))) (from_integer 0) (from_integer 100))

  unfoldable pub mul_to_db : F → F
  mul_to_db mul =
      if le mul (from_integer 0) then neg_infinity else times (from_integer 20) (log10 mul)

  unfoldable pub is_valid_multiplier : F → Bool
  is_valid_multiplier value = is_finite value && le (from_integer 0) value
