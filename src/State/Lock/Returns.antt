-- ===== src/State/Lock/Returns.antt =====
-- The lock loop of src/state/store.rs ends, and how.
use palingenesis.Prelude.{
  ℕ, zero, suc, ◌+◌, ◌*◌, ◌/◌, ◌≤◌, ◌<◌, ◌≡◌, refl, some, ok, err, leb, arith, inl, inr, ◌⊎◌,
  Bool-cases,
}
use palingenesis.Prelude.Time.{Duration}
use palingenesis.Monitor.Frontmatter.{IoError}
use palingenesis.State.Lock.{
  io, lock_timeout, Attempt, acquired, would_block, failed, Tries, Locked, pause, lock_from,
  lock_with_timeout, enough,
}

Attempt-cases :
    (a : Attempt) → (a ≡ acquired) ⊎ ((a ≡ would_block) ⊎ ((e : IoError) × (a ≡ failed e)))
Attempt-cases acquired = inl refl
Attempt-cases would_block = inr (inl refl)
Attempt-cases (failed e) = inr (inr (e, refl))

module _ (tries : Tries) (timeout : Duration) where
  -- A try fails no earlier than the pauses before it take.
  abbrev pub Sleeps : Type 0
  Sleeps = (n : ℕ) → n * pause ≤ tries.elapsed n

  -- The first `n` tries find the lock taken.
  abbrev pub Blocked : ℕ → Type 0
  Blocked zero = Unit
  Blocked (suc n) = (tries.attempt n ≡ would_block) × Blocked n

  -- How the loop can end within so many tries: at the first try that is not blocked, or at a blocked
  -- one for which the time is over.
  pub data LockEnd (most : ℕ) (r : Locked) : Type 0 where
    locked :
        (n : ℕ) → n < most → Blocked n → tries.attempt n ≡ acquired → r ≡ ok tt → LockEnd most r
    broken :
        (n : ℕ) (e : IoError)
        → n < most
        → Blocked n
        → tries.attempt n ≡ failed e
        → r ≡ err (io e)
        → LockEnd most r
    late :
        (n : ℕ)
        → n < most
        → Blocked (suc n)
        → timeout ≤ tries.elapsed n
        → r ≡ err lock_timeout
        → LockEnd most r

  lock_from_end :
      (fuel n most : ℕ)
      → Sleeps
      → timeout ≤ (fuel + n) * pause
      → fuel + n < most
      → Blocked n
      → (r : Locked) × (lock_from tries timeout (suc fuel) n ≡ some r) × LockEnd most r
  unfolding lock_from
  lock_from_end zero n most sleeps h m b =
      let small : n < most = omega arith in
      elim (Attempt-cases (tries.attempt n)) [
        | inl free ↦ (ok tt, ground arith, locked n small b free refl)
        | inr (inr (e, bad)) ↦ (err (io e), ground arith, broken n e small b bad refl)
        | inr (inl taken) ↦
            let over : timeout ≤ tries.elapsed n = omega (arith, sleeps n) in
            (err lock_timeout, ground arith, late n small (taken, b) over refl)
      ]
  lock_from_end (suc fuel) n most sleeps h m b =
      let small : n < most = omega arith in
      elim (Attempt-cases (tries.attempt n)) [
        | inl free ↦ (ok tt, ground arith, locked n small b free refl)
        | inr (inr (e, bad)) ↦ (err (io e), ground arith, broken n e small b bad refl)
        | inr (inl taken) ↦ elim (Bool-cases (leb timeout (tries.elapsed n))) [
          | inl over ↦ (err lock_timeout, ground arith, late n small (taken, b) (ground arith) refl)
          | inr time_left ↦
              let (r, later, ends) =
                lock_from_end fuel (suc n) most sleeps (omega arith) (omega arith) (taken, b) in
              (r, ground (arith, later), ends)
        ]
      ]

  -- Where every pause of 50 ms between two tries takes at least its time, the loop ends by itself
  -- within as many tries as fit into the time limit and two more, which is the fuel it has, and its
  -- result is that of `lock_with_timeout`: the lock at the first try that finds it free, the error
  -- of the first try that fails otherwise, or a timeout at a blocked try that is not before the
  -- limit.
  pub lock_with_timeout-LockEnd :
      Sleeps
      → (lock_from tries timeout (enough timeout) 0 ≡ some (lock_with_timeout tries timeout))
        × LockEnd (enough timeout) (lock_with_timeout tries timeout)
  unfolding lock_with_timeout
  lock_with_timeout-LockEnd sleeps =
      let (r, e, ends) =
        lock_from_end (timeout / pause + 1) 0 (enough timeout) sleeps (omega arith) (omega arith)
          tt in
      rw e (refl, ends)
