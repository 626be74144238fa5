-- ===== src/Monitor/Detection/Search.antt =====
-- The search of src/monitor/detection.rs against the recursive description.
use palingenesis.Prelude.{
  ℕ, zero, suc, ◌+◌, ◌≤◌, ◌≡◌, ◌∙◌, refl, sym, ap, arith, Bool, true, false, ◌||◌, Option, none,
  some, List, [], ◌∷◌, Bool-cases, Option-cases, inl, inr,
}
use palingenesis.Monitor.Detection.{
  file, dir, Dir, unreadable, readable, Entries, no_more, entry, is_session_artifact, scan,
  search_from, count_dirs, count_entries, has_session_files,
}

-- Whether there is an artifact in the tree below a directory that can be read.
unfoldable mutual
  pub holds : Dir → Bool
  holds unreadable = false
  holds (readable entries) = hold entries

  pub hold : Entries → Bool
  hold no_more = false
  hold (entry (file ext) rest) = is_session_artifact ext || hold rest
  hold (entry (dir d) rest) = holds d || hold rest

abbrev pub any_holds : List Dir → Bool
any_holds [] = false
any_holds (d ∷ stack) = holds d || any_holds stack

abbrev count_all : List Dir → ℕ
count_all [] = 0
count_all (d ∷ stack) = count_dirs d + count_all stack

-- What is left to find behind a scan.
abbrev left_holds : Option (List Dir) → Bool
left_holds none = true
left_holds (some stack) = any_holds stack

abbrev left_count : Option (List Dir) → ℕ
left_count none = 0
left_count (some stack) = count_all stack

or_swap : (a b c : Bool) → b || (a || c) ≡ (a || b) || c
or_swap true true c = refl
or_swap true false c = refl
or_swap false b c = refl

scan-holds :
    (entries : Entries) (stack : List Dir)
    → left_holds (scan entries stack) ≡ hold entries || any_holds stack
unfolding scan hold
scan-holds no_more stack = refl
scan-holds (entry (dir d) rest) stack =
    scan-holds rest (d ∷ stack) ∙ or_swap (holds d) (hold rest) (any_holds stack)
scan-holds (entry (file ext) rest) stack = elim (Bool-cases (is_session_artifact ext)) [
  | inl artifact ↦ rw artifact refl
  | inr other ↦ rw other (scan-holds rest stack)
]

scan-count :
    (entries : Entries) (stack : List Dir)
    → left_count (scan entries stack) ≤ count_entries entries + count_all stack
unfolding scan count_entries
scan-count no_more stack = omega arith
scan-count (entry (dir d) rest) stack = omega (arith, scan-count rest (d ∷ stack))
scan-count (entry (file ext) rest) stack = elim (Bool-cases (is_session_artifact ext)) [
  | inl artifact ↦ rw artifact (omega arith)
  | inr other ↦ rw other (scan-count rest stack)
]

search_from-any_holds :
    (fuel : ℕ) (stack : List Dir)
    → count_all stack ≤ fuel
    → search_from fuel stack ≡ some (any_holds stack)
unfolding search_from count_dirs holds
search_from-any_holds zero [] h = refl
search_from-any_holds (suc fuel) [] h = refl
search_from-any_holds zero (unreadable ∷ stack) h = absurd (omega (arith, h))
search_from-any_holds zero (readable entries ∷ stack) h = absurd (omega (arith, h))
search_from-any_holds (suc fuel) (unreadable ∷ stack) h =
    search_from-any_holds fuel stack (omega (arith, h))
search_from-any_holds (suc fuel) (readable entries ∷ stack) h =
    let bound = scan-count entries stack in
    let same = scan-holds entries stack in
    elim (Option-cases (scan entries stack)) [
      | inl found ↦ rw (search_from, found) (ap some (ap left_holds (sym found) ∙ same))
      | inr (stack', more) ↦
          let fewer : count_all stack' ≤ count_entries entries + count_all stack =
            ground (arith, bound, more) in
          rw (search_from, more)
            (search_from-any_holds fuel stack' (omega (arith, fewer, h))
              ∙ ap some (ap left_holds (sym more) ∙ same))
    ]

-- In a tree without links the search over its stack of directories ends, within as many rounds as
-- there are directories, and finds an artifact of a session exactly if there is one somewhere below
-- the directory, in directories that can be read.
pub has_session_files-holds :
    (d : Dir)
    → (search_from (count_dirs d) (d ∷ []) ≡ some (holds d)) × (has_session_files d ≡ holds d)
unfolding has_session_files
has_session_files-holds d =
    let ends : search_from (count_dirs d) (d ∷ []) ≡ some (holds d) =
      search_from-any_holds (count_dirs d) (d ∷ []) (omega arith) ∙ ap some (or_false (holds d)) in
    (ends, rw ends refl)
  where
    or_false : (b : Bool) → b || false ≡ b
    or_false true = refl
    or_false false = refl
