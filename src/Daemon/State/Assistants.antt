-- ===== src/Daemon/State/Assistants.antt =====
-- The assistants that src/daemon/state.rs monitors.
use mathlib.Core.List.{append-nil, append_assoc}
use palingenesis.Prelude.{
  ◌≡◌, ◌∙◌, sym, refl, true, false, ◌||◌, List, [], ◌∷◌, ◌++◌, All, arith, inl, inr, Bool-cases,
  if◌then◌else◌,
}
use palingenesis.Prelude.Text.{Text, text_eq_refl, text_eq-false, is_empty}
use palingenesis.Prelude.Float.{FloatOps}
use palingenesis.Daemon.State.{
  DaemonState, Outside, has_name, add_names, refresh_auto_detected_assistants,
}

has_name-append :
    (xs ys : List Text) (n : Text) → has_name (xs ++ ys) n ≡ (has_name xs n || has_name ys n)
has_name-append [] ys n = refl
has_name-append (x ∷ xs) ys n = ground (arith, has_name-append xs ys n)

keeps_name :
    (ds xs : List Text) (n : Text) → has_name xs n ≡ true → has_name (add_names xs ds) n ≡ true
unfolding add_names
keeps_name [] xs n h = h
keeps_name (d ∷ ds) xs n h = elim (Bool-cases (has_name xs d)) [
  | inl old ↦ rw old (keeps_name ds xs n h)
  | inr new ↦ rw new (keeps_name ds (xs ++ d ∷ []) n (rw (has_name-append xs (d ∷ []) n, h)))
]

gains_name : (d : Text) (ds xs : List Text) → has_name (add_names xs (d ∷ ds)) d ≡ true
unfolding add_names
gains_name d ds xs = elim (Bool-cases (has_name xs d)) [
  | inl old ↦ rw old (keeps_name ds xs d old)
  | inr new ↦
      rw new
        (keeps_name ds (xs ++ d ∷ []) d (rw (has_name-append xs (d ∷ []) d, new, text_eq_refl d)))
]

gains_names : (ds xs : List Text) → All (λ d. has_name (add_names xs ds) d ≡ true) ds
unfolding add_names
gains_names [] xs = tt
gains_names (d ∷ ds) xs =
    (gains_name d ds xs, gains_names ds (if has_name xs d then xs else xs ++ d ∷ []))

-- No name stands twice.
abbrev pub Distinct : List Text → Type 0
Distinct [] = Unit
Distinct (x ∷ xs) = (has_name xs x ≡ false) × Distinct xs

Distinct-append_one :
    (xs : List Text) (n : Text) → Distinct xs → has_name xs n ≡ false → Distinct (xs ++ n ∷ [])
Distinct-append_one [] n _ _ = (refl, tt)
Distinct-append_one (x ∷ xs) n (h, hs) k = (
  rw (has_name-append xs (n ∷ []) x, h, text_eq-false n x (ground arith)),
  Distinct-append_one xs n hs (ground arith),
)

Distinct-add_names : (ds xs : List Text) → Distinct xs → Distinct (add_names xs ds)
unfolding add_names
Distinct-add_names [] xs h = h
Distinct-add_names (d ∷ ds) xs h = elim (Bool-cases (has_name xs d)) [
  | inl old ↦ rw old (Distinct-add_names ds xs h)
  | inr new ↦ rw new (Distinct-add_names ds (xs ++ d ∷ []) (Distinct-append_one xs d h new))
]

extends : (ds xs : List Text) → (extra : List Text) × (add_names xs ds ≡ xs ++ extra)
unfolding add_names
extends [] xs = ([], sym (append-nil xs))
extends (d ∷ ds) xs = elim (Bool-cases (has_name xs d)) [
  | inl old ↦ rw old (extends ds xs)
  | inr new ↦
      let (extra, e) = extends ds (xs ++ d ∷ []) in
      rw new (d ∷ extra, e ∙ append_assoc xs (d ∷ []) extra)
]

empty_nil : (xs : List Text) → is_empty xs ≡ true → xs ≡ []
empty_nil [] h = refl
empty_nil (x ∷ xs) h = cc

module _ {F : Type 0} (fl : FloatOps F) (out : Outside F) (s : DaemonState F) where
  abbrev names : List Text
  names = s.config.monitoring.assistants

  abbrev refreshed : List Text
  refreshed = (refresh_auto_detected_assistants fl out s).config.monitoring.assistants

  refreshed-add_names :
      s.auto_detect_active ≡ true → s.poisoned ≡ false → refreshed ≡ add_names names out.detected
  unfolding refresh_auto_detected_assistants add_names
  refreshed-add_names on free = elim (Bool-cases (is_empty out.detected)) [
    | inl nothing ↦ ground (arith, empty_nil out.detected nothing)
    | inr something ↦ ground arith
  ]

  -- While automatic detection is on and the lock is not poisoned, a refresh monitors every assistant
  -- that is detected, behind those that it monitors already, which stay in their places; and no name
  -- stands twice afterwards if none did before.
  refresh_lem :
      s.auto_detect_active ≡ true
      → s.poisoned ≡ false
      → Distinct names
      → All (λ d. has_name refreshed d ≡ true) out.detected
        × ((extra : List Text) × (refreshed ≡ names ++ extra))
        × Distinct refreshed
  refresh_lem on free once = rw (refreshed-add_names on free) (
    gains_names out.detected names,
    extends out.detected names,
    Distinct-add_names out.detected names once,
  )
