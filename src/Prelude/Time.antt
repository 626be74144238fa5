-- ===== src/Prelude/Time.antt =====
-- `std::time::Duration`, as a number of nanoseconds.
use Prim.Native.Nat.{ℕ, ◌*◌, ◌/◌}

abbrev pub Duration : Type 0
Duration = ℕ

abbrev pub from_secs : ℕ → Duration
from_secs s = s * 1_000_000_000

abbrev pub from_millis : ℕ → Duration
from_millis ms = ms * 1_000_000

abbrev pub as_secs : Duration → ℕ
as_secs d = d / 1_000_000_000

abbrev pub as_millis : Duration → ℕ
as_millis d = d / 1_000_000
