-- ===== src/Resume/Backup/Pruning.antt =====
-- `prune_old_backups` of src/resume/backup.rs removes the oldest backups.
use mathlib.Core.Path.{subst}
use mathlib.Core.List.Perm
use mathlib.Core.List.{Perm}
use palingenesis.Prelude.{
  ℕ, suc, ◌+◌, ◌-◌, ◌≤◌, ◌≡◌, ◌∙◌, refl, sym, ap, arith, Option, List, [], ◌∷◌, ◌++◌, Result, ok,
  err, leb, length, All, ◌⊎◌, inl, inr, Bool-cases, Option-cases,
}
use palingenesis.Prelude.Text.{Text}
use palingenesis.Monitor.Frontmatter.{IoError}
use palingenesis.Resume.Backup.Recognised.{Recognised, Status, backups-Recognised, files-Status}
use palingenesis.Resume.Backup.{
  BackupConfig, BackupError, io, Dir, Found, Faults, Outside, remove, insert_sorted, sort,
  prune_from, backups, prune_old_backups,
}

insert_sorted-Perm : (b : Found) (l : List Found) → Perm (insert_sorted b l) (b ∷ l)
unfolding insert_sorted
insert_sorted-Perm b [] = Perm.rfl
insert_sorted-Perm b (c ∷ rest) = elim (Bool-cases (leb b.1 c.1)) [
  | inl h ↦ rw h Perm.rfl
  | inr h ↦ rw h (Perm.trans (Perm.cons c (insert_sorted-Perm b rest)) (Perm.swap b c rest))
]

sort-Perm : (l : List Found) → Perm (sort l) l
unfolding sort
sort-Perm [] = Perm.rfl
sort-Perm (b ∷ rest) = Perm.trans (insert_sorted-Perm b (sort rest)) (Perm.cons b (sort-Perm rest))

-- No older than a time.
abbrev pub Since : ℕ → List Found → Type 0
Since t = All (λ b. t ≤ b.1)

abbrev pub IsSorted : List Found → Type 0
IsSorted [] = Unit
IsSorted (b ∷ rest) = Since b.1 rest × IsSorted rest

Since-le : (s t : ℕ) (l : List Found) → s ≤ t → Since t l → Since s l
Since-le s t [] le h = tt
Since-le s t (b ∷ rest) le (h, k) = (omega arith, Since-le s t rest le k)

module _ (P : Found → Type 0) where
  insert_sorted-All : (b : Found) (l : List Found) → P b → All P l → All P (insert_sorted b l)
  unfolding insert_sorted
  insert_sorted-All b [] p h = (p, tt)
  insert_sorted-All b (c ∷ rest) p (h, k) = elim (Bool-cases (leb b.1 c.1)) [
    | inl first ↦ rw first (p, (h, k))
    | inr later ↦ rw later (h, insert_sorted-All b rest p k)
  ]

  pub sort-All : (l : List Found) → All P l → All P (sort l)
  unfolding sort
  sort-All [] h = tt
  sort-All (b ∷ rest) (h, k) = insert_sorted-All b (sort rest) h (sort-All rest k)

insert_sorted-IsSorted : (b : Found) (l : List Found) → IsSorted l → IsSorted (insert_sorted b l)
unfolding insert_sorted
insert_sorted-IsSorted b [] h = (tt, tt)
insert_sorted-IsSorted b (c ∷ rest) (h, k) = elim (Bool-cases (leb b.1 c.1)) [
  | inl first ↦
      let le : b.1 ≤ c.1 = ground arith in rw first ((le, Since-le b.1 c.1 rest le h), (h, k))
  | inr later ↦
      let le : c.1 ≤ b.1 = ground arith in
      rw later (insert_sorted-All (λ d. c.1 ≤ d.1) b rest le h, insert_sorted-IsSorted b rest k)
]

sort-IsSorted : (l : List Found) → IsSorted (sort l)
unfolding sort
sort-IsSorted [] = tt
sort-IsSorted (b ∷ rest) = insert_sorted-IsSorted b (sort rest) (sort-IsSorted rest)

abbrev pub remove_all : List Found → Dir → Dir
remove_all [] dir = dir
remove_all ((name, time) ∷ rest) dir = remove_all rest (remove name dir)

-- How the loop ends: some backups are removed from the front of the list; all that are too many,
-- unless a removal failed.
record Pruned (max : ℕ) (l : List Found) (before : ℕ) (dir : Dir) (p : Result ℕ BackupError × Dir)
    : Type 0 where
  removed : List Found
  kept : List Found
  split : removed ++ kept ≡ l
  files : p.1 ≡ remove_all removed dir
  result :
      ((p.0 ≡ ok (before + length removed)) × (length removed ≡ length l - max))
      ⊎ (e : BackupError) × (p.0 ≡ err e)

-- One more removal is counted.
one_more :
    {p : Result ℕ BackupError} (max before left removed : ℕ)
    → max ≤ left
    → ((p ≡ ok (suc before + removed)) × (removed ≡ left - max)) ⊎ (e : BackupError) × (p ≡ err e)
    → ((p ≡ ok (before + suc removed)) × (suc removed ≡ suc left - max))
      ⊎ (e : BackupError) × (p ≡ err e)
one_more max before left removed le (inr failed) = inr failed
one_more max before left removed le (inl (done, n)) =
    let count : suc before + removed ≡ before + suc removed = omega arith in
    inl (done ∙ ap ok count, omega arith)

prune_from-Pruned :
    (fault : Text → Option IoError) (max : ℕ) (l : List Found) (before : ℕ) (dir : Dir)
    → Pruned max l before dir (prune_from fault max l before dir)
unfolding prune_from
prune_from-Pruned fault max [] before dir = record {
  removed = [];
  kept = [];
  split = refl;
  files = refl;
  result = inl (ap ok (omega arith), omega arith);
}
prune_from-Pruned fault max ((name, time) ∷ rest) before dir =
    elim (Bool-cases (leb (suc (length rest)) max)) [
      | inl few ↦ rw few (record {
        removed = [];
        kept = (name, time) ∷ rest;
        split = refl;
        files = refl;
        result = inl (ap ok (omega arith), ground arith);
      })
      | inr many ↦ elim (Option-cases (fault name)) [
        | inr (e, bad) ↦
            rw (many, bad)
              (record {
                removed = [];
                kept = (name, time) ∷ rest;
                split = refl;
                files = refl;
                result = inr (io e, refl);
              })
        | inl works ↦
            let next = prune_from-Pruned fault max rest (suc before) (remove name dir) in
            rw (many, works)
              (record {
                removed = (name, time) ∷ next.removed;
                kept = next.kept;
                split = ap (◌∷◌ (name, time)) next.split;
                files = next.files;
                result =
                    one_more max before (length rest) (length next.removed) (ground arith)
                      next.result;
              })
      ]
    ]

-- The front of a sorted list is no newer than the rest.
abbrev pub Before : List Found → List Found → Type 0
Before kept = All (λ b. Since b.1 kept)

Since-front : (t : ℕ) (l rest : List Found) → Since t (l ++ rest) → Since t rest
Since-front t [] rest h = h
Since-front t (b ∷ l) rest (h, k) = Since-front t l rest k

IsSorted-Before : (removed kept : List Found) → IsSorted (removed ++ kept) → Before kept removed
IsSorted-Before [] kept h = tt
IsSorted-Before (b ∷ removed) kept (h, k) =
    (Since-front b.1 removed kept h, IsSorted-Before removed kept k)

-- How pruning ends: the backups of the directory are split into those that are removed and those
-- that are kept, and no removed one is newer than a kept one.
pub record PruneEnd (config : BackupConfig) (out : Outside) (session : Text) (dir : Dir)
    (p : Result ℕ BackupError × Dir) : Type 0 where
  pub removed : List Found
  pub kept : List Found
  pub split : Perm (removed ++ kept) (backups config out session dir)
  -- All of them are backups by their names, and every other file of the directory is none.
  pub recognised : All (Recognised config out session) (removed ++ kept)
  pub others : All (λ file. Status config out session (removed ++ kept) file.0) dir
  pub oldest : Before kept removed
  -- Nothing else is removed.
  pub files : p.1 ≡ remove_all removed dir
  -- All that are too many are removed, and counted; or there was an error.
  pub result :
      ((p.0 ≡ ok (length removed))
        × (length removed ≡ length (removed ++ kept) - config.max_backups))
      ⊎ (e : BackupError) × (p.0 ≡ err e)

counted :
    {p : Result ℕ BackupError} (n m max k : ℕ)
    → n ≡ m
    → ((p ≡ ok (0 + k)) × (k ≡ n - max)) ⊎ (e : BackupError) × (p ≡ err e)
    → ((p ≡ ok k) × (k ≡ m - max)) ⊎ (e : BackupError) × (p ≡ err e)
counted n m max k h (inl (done, count)) =
    let zero_left : 0 + k ≡ k = omega arith in inl (done ∙ ap ok zero_left, omega (arith, h, count))
counted n m max k h (inr failed) = inr failed

-- Pruning removes, whatever fails, the oldest of the files whose names are backups of the session's
-- stem, and no other file; when it succeeds, it has removed as many as there are beyond the limit,
-- and gives their number. A file is such a backup if its name starts with the stem and `-backup-`,
-- holds `-backup-` once, and has behind it, up to the next dot, a time; a session of the same stem
-- and another extension has the same backups.
pub prune_old_backups-PruneEnd :
    (config : BackupConfig) (out : Outside) (faults : Faults) (session : Text) (dir : Dir)
    → PruneEnd config out session dir (prune_old_backups config out faults session dir)
unfolding prune_old_backups
prune_old_backups-PruneEnd config out faults session dir = elim (Option-cases faults.read_dir) [
  | inr (e, bad) ↦ rw bad (record {
    removed = [];
    kept = found;
    split = Perm.rfl;
    recognised = backups-Recognised config out session dir;
    others = files-Status config out session dir found (λ b m. m);
    oldest = tt;
    files = refl;
    result = inr (io e, refl);
  })
  | inl works ↦
      let end = prune_from-Pruned faults.remove_file config.max_backups (sort found) 0 dir in
      let same : Perm (end.removed ++ end.kept) found =
        subst (λ l. Perm l found) (sym end.split) (sort-Perm found) in
      let all_backups =
        sort-All (Recognised config out session) found
          (backups-Recognised config out session dir) in
      rw works (record {
        removed = end.removed;
        kept = end.kept;
        split = same;
        recognised = subst (All (Recognised config out session)) (sym end.split) all_backups;
        others =
            files-Status config out session dir (end.removed ++ end.kept)
              (λ b m. (Perm.mem_iff same).1 m);
        oldest =
            IsSorted-Before end.removed end.kept
              (subst IsSorted (sym end.split) (sort-IsSorted found));
        files = end.files;
        result =
            counted (length (sort found)) (length (end.removed ++ end.kept)) config.max_backups
              (length end.removed) (ap length (sym end.split)) end.result;
      })
]
  where
    found : List Found
    found = backups config out session dir
