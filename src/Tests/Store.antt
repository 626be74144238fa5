-- ===== src/Tests/Store.antt =====
-- src/state/store.rs at a small store.
use palingenesis.Prelude.{◌*◌, ◌++◌, ◌≡◌, refl, none, some, ok, err, arith, ltb, if◌then◌else◌}
use palingenesis.Prelude.Int.{ℤ}
use palingenesis.Prelude.Time.{from_millis}
use palingenesis.Prelude.Text.{Text, codes}
use palingenesis.Prelude.Number.{decimal}
use palingenesis.Monitor.Frontmatter.{other}
use palingenesis.State.Schema.{StateFile, default_state, default_session}
use palingenesis.State.Lock.{
  Tries, acquired, would_block, lock_timeout, pause, lock_with_timeout, lock_from, enough,
}
use palingenesis.State.Lock.Returns.{LockEnd, lock_with_timeout-LockEnd}
use palingenesis.State.Store.{Disk, Faults, Json, StateStore, save, load, open_lock_file}
use palingenesis.State.Store.Atomic.{SaveEnd, save-SaveEnd}
use palingenesis.State.Store.Loading.{load-save, update, update-forgets}
use palingenesis.Resume.Effects.{resumed_state}
use palingenesis.Tests.Floats.{floats}
use palingenesis.Tests.NewSession.{env}

-- The lock is free from the third try on.
abbrev patient : Tries
patient = record {
  attempt = λ n. if ltb n 2 then would_block else acquired;
  elapsed = λ n. n * pause;
}

-- The lock is never free.
abbrev blocked : Tries
blocked = record { attempt = λ n. would_block; elapsed = λ n. n * pause }

abbrev store : StateStore
store = record { lock_timeout = from_millis 120 }

got : lock_with_timeout patient store.lock_timeout ≡ ok tt
unfolding lock_with_timeout lock_from
got = refl

too_late : lock_with_timeout blocked store.lock_timeout ≡ err lock_timeout
unfolding lock_with_timeout lock_from
too_late = refl

lock_with_timeout-LockEnd_example :
    (lock_from patient store.lock_timeout (enough store.lock_timeout) 0
      ≡ some (lock_with_timeout patient store.lock_timeout))
    × LockEnd patient store.lock_timeout
        (enough store.lock_timeout)
        (lock_with_timeout patient store.lock_timeout)
lock_with_timeout-LockEnd_example =
    lock_with_timeout-LockEnd patient store.lock_timeout (λ n. omega arith)

abbrev working : Faults
working = record {
  create_dir = none;
  open_lock = none;
  lock_permissions = none;
  tries = patient;
  open_temp = none;
  write = none;
  sync = none;
  temp_permissions = none;
  rename = none;
  permissions = none;
  read = none;
  copy = none;
}

-- The disk is full after three characters.
abbrev full : Faults
full = record working { write = some (other (codes "no space"), 3) }

abbrev locked_out : Faults
locked_out = record working { tries = blocked }

abbrev state : StateFile ℤ
state = record (default_state floats) { version = 7 }

-- A form of the state that keeps only its version.
abbrev json : Json ℤ
json = record {
  to_string_pretty = λ s. ok (codes "v" ++ decimal s.version);
  from_str = λ text. ok state;
}

abbrev disk : Disk
disk = record { state = some (codes "v7"); temp = none; backup = none }

no_room : (save floats json store full state disk).1.state ≡ some (codes "v7")
unfolding save open_lock_file lock_with_timeout lock_from codes decimal
no_room = refl

save-SaveEnd_example :
    SaveEnd
      (json.to_string_pretty state)
      full.permissions
      disk
      (save floats json store full state disk)
save-SaveEnd_example = save-SaveEnd floats json store full state disk

saved : (save floats json store working state disk).0 ≡ ok tt
unfolding save open_lock_file lock_with_timeout lock_from
saved = refl

load-save_example :
    load floats json store working (save floats json store working state disk).1
    ≡ (state, (save floats json store working state disk).1)
load-save_example =
    load-save floats json store working working disk state (λ contents t. refl) saved
      (record { open_lock = refl; lock_permissions = refl; locked = got; read = refl })

updated : (update floats json store env locked_out working default_session 0 disk).0 ≡ ok tt
unfolding save load open_lock_file lock_with_timeout lock_from
updated = refl

update-forgets_example :
    (new : Text) × (json.to_string_pretty
        (resumed_state floats env default_session 0 (default_state floats))
      ≡ ok new)
    × ((update floats json store env locked_out working default_session 0 disk).1.state ≡ some new)
update-forgets_example =
    update-forgets floats json store env locked_out working default_session 0 disk (codes "v7")
      lock_timeout refl too_late updated
