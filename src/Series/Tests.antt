-- ===== src/Series/Tests.antt =====
-- A window of few samples.
use obsctl_rs.Prelude.{ℕ, zero, suc, ◌≡◌, List, [], ◌∷◌}
use obsctl_rs.Series.{capacity, from_iter}
use obsctl_rs.Series.Window.{newest, from_iter-newest}

-- The numbers from the given one down to 1.
unfoldable down_from : ℕ → List ℕ
down_from zero = []
down_from (suc n) = suc n ∷ down_from n

abbrev samples : List ℕ
samples = down_from 40

from_iter-newest_example : (from_iter samples).samples ≡ newest capacity samples
from_iter-newest_example = from_iter-newest samples
