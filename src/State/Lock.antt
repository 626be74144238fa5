-- ===== src/State/Lock.antt =====
-- src/state/store.rs: acquiring the file lock within a time limit. The answers of the n-th try and
-- the time that has passed when it fails are parameters.
pub mod Returns
use palingenesis.Prelude.{
  ℕ, zero, suc, ◌+◌, ◌/◌, Bool, Option, none, some, Result, ok, err, leb, get_or, if◌then◌else◌,
}
use palingenesis.Prelude.Time.{Duration, from_secs, from_millis}
use palingenesis.Prelude.Text.{Text}
use palingenesis.Monitor.Frontmatter.{IoError}

pub data StateError : Type 0 where
  io : IoError → StateError
  serialization : Text → StateError
  corrupted : Text → StateError
  lock_timeout : StateError
  path : Text → StateError

abbrev pub default_lock_timeout : Duration
default_lock_timeout = from_secs 2

pub data Attempt : Type 0 where
  acquired would_block : Attempt
  failed : IoError → Attempt

-- The tries of one call, and what `start.elapsed()` gives behind each.
pub record Tries : Type 0 where
  pub attempt : ℕ → Attempt
  pub elapsed : ℕ → Duration

abbrev pub Locked : Type 0
Locked = Result (Unit {0}) StateError

-- The time between two tries.
abbrev pub pause : Duration
pause = from_millis 50

-- The loop from the n-th try on; `none` is a lack of fuel.
unfoldable pub lock_from : Tries → Duration → ℕ → ℕ → Option Locked
lock_from tries timeout zero n = none
lock_from tries timeout (suc fuel) n =
    let again = lock_from tries timeout fuel (suc n) in
    elim (tries.attempt n) [
      | acquired ↦ some (ok tt)
      | failed e ↦ some (err (io e))
      | would_block ↦ if leb timeout (tries.elapsed n) then some (err lock_timeout) else again
    ]

-- As many tries as fit into the time limit, and two more.
abbrev pub enough : Duration → ℕ
enough timeout = suc (timeout / pause + 1)

unfoldable pub lock_with_timeout : Tries → Duration → Locked
unfolding lock_from
lock_with_timeout tries timeout =
    get_or (lock_from tries timeout (enough timeout) 0) (err lock_timeout)
