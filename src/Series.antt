-- ===== src/Series.antt =====
-- src/tui/series.rs: a rolling window of samples.
pub mod Window
pub mod Tests
use obsctl_rs.Prelude.{ℕ, zero, suc, ◌-◌, Bool, List, [], ◌∷◌, ◌++◌, length, ltb, if◌then◌else◌}
use obsctl_rs.Volume.{Floats}

abbrev pub capacity : ℕ
capacity = 32

pub record RollingSeries (F : Type 0) : Type 0 where
  pub samples : List F

-- What `drain(0..n)` leaves.
unfoldable pub drop {ℓ} : {A : Type ℓ} → ℕ → List A → List A
drop zero xs = xs
drop (suc n) [] = []
drop (suc n) (x ∷ xs) = drop n xs

unfoldable pub empty_series : {F : Type 0} → RollingSeries F
empty_series = record { samples = [] }

unfoldable pub push : {F : Type 0} → F → RollingSeries F → RollingSeries F
push value series =
    let samples = series.samples ++ value ∷ [] in
    record {
      samples =
          if ltb capacity (length samples)
          then drop (length samples - capacity) samples
          else samples;
    }

unfoldable pub push_all : {F : Type 0} → List F → RollingSeries F → RollingSeries F
push_all [] series = series
push_all (value ∷ values) series = push_all values (push value series)

-- `FromIterator::from_iter`.
unfoldable pub from_iter : {F : Type 0} → List F → RollingSeries F
from_iter values = push_all values empty_series

-- The fold of `peak`, from the left.
unfoldable pub highest : {F : Type 0} → Floats F → F → List F → F
highest f best [] = best
highest f best (x ∷ xs) = highest f (f.max best x) xs

unfoldable pub peak : {F : Type 0} → Floats F → RollingSeries F → F → F
peak f series current = highest f current series.samples
