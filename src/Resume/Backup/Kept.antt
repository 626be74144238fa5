-- ===== src/Resume/Backup/Kept.antt =====
-- `create_backup` of src/resume/backup.rs never touches the session file.
use mathlib.Core.List.{append_assoc}
use palingenesis.Prelude.{
  ℕ, suc, ◌≡◌, ◌∙◌, refl, ap, arith, Option, none, some, List, [], ◌∷◌, ◌++◌, map, filter_map,
  Result, ok, err, Bool, true, false, leb, ◌==◌, length, All, inl, inr, Result-cases, Bool-cases,
  Option-cases, if◌then◌else◌,
}
use palingenesis.Prelude.Io.{◌>>◌, then_run, give, call_step}
use palingenesis.Prelude.Text.{Text, codes, text_eq, text_eq_sound, starts_with}
use palingenesis.Monitor.Frontmatter.{IoError}
use palingenesis.Resume.Backup.{
  BackupConfig, BackupError, io, Bytes, Dir, Found, Faults, Outside, Step, lookup, remove, write,
  size, same_size, verification_failed, source_not_found, copy_file, stem, pattern_of, prune_from,
  as_backup, extract_timestamp, pruned, backup_to, call, generate_backup_path, prune_old_backups,
  verify_backup, create_backup,
}
use palingenesis.Resume.Backup.Pruning.{sort-All}

starts_with-nil : (t : Text) → starts_with t [] ≡ true
unfolding starts_with
starts_with-nil [] = refl
starts_with-nil (c ∷ t) = refl

starts_with-append : (s t : Text) → starts_with (s ++ t) s ≡ true
unfolding starts_with
starts_with-append [] t = starts_with-nil t
starts_with-append (c ∷ s) t = ground (arith, starts_with-append s t)

starts_with-cancel : (s t u : Text) → starts_with (s ++ t) (s ++ u) ≡ starts_with t u
unfolding starts_with
starts_with-cancel [] t u = refl
starts_with-cancel (c ∷ s) t u = ground (arith, starts_with-cancel s t u)

-- The names that differ from another.
lookup-remove :
    (name session : Text) (dir : Dir)
    → text_eq name session ≡ false
    → lookup session (remove name dir) ≡ lookup session dir
lookup-remove name session [] h = refl
lookup-remove name session ((other, bytes) ∷ dir) h = elim (Bool-cases (text_eq other name)) [
  | inl same ↦
      let here : text_eq other session ≡ false =
        ap (λ n. text_eq n session) (text_eq_sound other name same) ∙ h in
      rw (same, here) (lookup-remove name session dir h)
  | inr differs ↦
      rw differs (
        ap (λ r. if text_eq other session then some bytes else r)
          (lookup-remove name session dir h))
]

lookup-write :
    (name session : Text) (bytes : Option Bytes) (dir : Dir)
    → text_eq name session ≡ false
    → lookup session (write name bytes dir) ≡ lookup session dir
lookup-write name session none dir h = lookup-remove name session dir h
lookup-write name session (some bytes) dir h = rw h (lookup-remove name session dir h)

-- The parts of the session's path: its name is the stem, with nothing or a dot behind it.
pub data Named (out : Outside) (session : Text) : Type 0 where
  plain : session ≡ stem out session → Named out session
  dotted : (extension : Text) → session ≡ stem out session ++ 46 ∷ extension → Named out session

stem_alone : (s : Text) → starts_with s (pattern_of s) ≡ false
unfolding starts_with codes
stem_alone [] = refl
stem_alone (c ∷ s) = ground (arith, stem_alone s)

stem_dot : (s ext : Text) → starts_with (s ++ 46 ∷ ext) (pattern_of s) ≡ false
unfolding starts_with codes
stem_dot s ext = starts_with-cancel s (46 ∷ ext) (codes "-backup-")

module _ (out : Outside) (session : Text) where
  not_pattern : Named out session → starts_with session (pattern_of (stem out session)) ≡ false
  not_pattern (plain e) =
      ap (λ s. starts_with s (pattern_of (stem out session))) e ∙ stem_alone (stem out session)
  not_pattern (dotted ext e) =
      ap (λ s. starts_with s (pattern_of (stem out session))) e ∙ stem_dot (stem out session) ext

  -- No backup has the name of the session.
  differs :
      (name : Text)
      → Named out session
      → starts_with name (pattern_of (stem out session)) ≡ true
      → text_eq name session ≡ false
  differs name named h = elim (Bool-cases (text_eq name session)) [
    | inr other ↦ other
    | inl same ↦ absurd (cc (text_eq_sound name session same, not_pattern named))
  ]

  generated :
      (config : BackupConfig)
      → starts_with (generate_backup_path config out session) (pattern_of (stem out session)) ≡ true
  unfolding generate_backup_path
  generated config = elim (Option-cases (out.extension session)) [
    | inl without ↦ rw without (starts_with-append (pattern_of (stem out session)) _)
    | inr (ext, here) ↦
        let pattern = pattern_of (stem out session) in
        let now = out.now config.timestamp_format in
        rw (here, append_assoc pattern now (codes "." ++ ext))
          (starts_with-append pattern (now ++ (codes "." ++ ext)))
  ]

  -- What holds of a backup that is found: its name is not the session's.
  abbrev Other : Found → Type 0
  Other b = text_eq b.0 session ≡ false

  found_differ :
      (config : BackupConfig)
      → Named out session
      → (names : List Text) → All Other (filter_map (as_backup config out session) names)
  unfolding as_backup
  found_differ config named [] = tt
  found_differ config named (name ∷ names) =
      let others = found_differ config named names in
      elim (Bool-cases (starts_with name (pattern_of (stem out session)))) [
        | inr no_backup ↦ rw no_backup others
        | inl backup ↦ elim (Result-cases (extract_timestamp config out name)) [
          | inr (e, bad) ↦ rw (backup, bad) others
          | inl (time, good) ↦ rw (backup, good) (differs name named backup, others)
        ]
      ]

  prune_from-lookup :
      (fault : Text → Option IoError) (max : ℕ) (l : List Found) (removed : ℕ) (dir : Dir)
      → All Other l
      → lookup session (prune_from fault max l removed dir).1 ≡ lookup session dir
  unfolding prune_from
  prune_from-lookup fault max [] removed dir h = refl
  prune_from-lookup fault max ((name, time) ∷ rest) removed dir (h, k) =
      elim (Bool-cases (leb (suc (length rest)) max)) [
        | inl few ↦ rw few refl
        | inr many ↦ elim (Option-cases (fault name)) [
          | inr (e, bad) ↦ rw (many, bad) refl
          | inl works ↦
              rw (many, works)
                (prune_from-lookup fault max rest (suc removed) (remove name dir) k
                  ∙ lookup-remove name session dir h)
        ]
      ]

  -- A state of the directory in which the session is what it was.
  abbrev Same : {A : Type 0} → Dir → Result A BackupError × Dir → Type 0
  Same before p = lookup session p.1 ≡ lookup session before

  prune-Same :
      (config : BackupConfig) (faults : Faults) (before dir : Dir)
      → Named out session
      → lookup session dir ≡ lookup session before
      → Same before (prune_old_backups config out faults session dir)
  unfolding prune_old_backups
  prune-Same config faults before dir named same =
      call_step (Same before) io faults.read_dir _ dir (λ e. same)
        (prune_from-lookup faults.remove_file config.max_backups _ 0 dir
            (sort-All Other _ (found_differ config named (map (λ file. file.0) dir)))
          ∙ same)

  -- A check of the backup changes nothing.
  verify_backup-dir :
      (config : BackupConfig) (faults : Faults) (backup : Text) (dir : Dir)
      → (verify_backup config out faults session backup dir).1 ≡ dir
  unfolding verify_backup
  verify_backup-dir config faults backup dir =
      let Still : Result (Unit {0}) BackupError × Dir → Type 0 = λ p. p.1 ≡ dir in
      call_step Still io faults.source_metadata _ dir (λ e. refl)
        (call_step Still io faults.backup_metadata _ dir (λ e. refl)
          (sizes Still (size (lookup session dir)) (size (lookup backup dir)) _ (λ e. refl)
            (call_step Still io faults.open_backup _ dir (λ e. refl)
              (last_call faults.read_backup))))
    where
      last_call : {dir : Dir} (fault : Option IoError) → (call fault dir).1 ≡ dir
      last_call none = refl
      last_call (some e) = refl

      sizes :
          {dir : Dir} (P : Result (Unit {0}) BackupError × Dir → Type 0) (a b : ℕ)
          (k : Step (Unit {0}))
          → ((e : BackupError) → P (err e, dir))
          → P (k dir)
          → P ((same_size config out a b >> k) dir)
      sizes P a b k h g = elim (Bool-cases (a == b)) [
        | inl equal ↦ rw equal g
        | inr unequal ↦ rw unequal (h (verification_failed a b))
      ]

  -- `verify_backup` where it is wanted.
  checked_dir :
      (config : BackupConfig) (wanted : Bool) (faults : Faults) (backup : Text) (dir : Dir)
      → ((if wanted then verify_backup config out faults session backup else give (ok tt)) dir).1
        ≡ dir
  checked_dir config true faults backup dir = verify_backup-dir config faults backup dir
  checked_dir config false faults backup dir = refl

  then_Same :
      {B : Type 0} (before : Dir) (p : Result (Unit {0}) BackupError × Dir) (k : Step B)
      → Same before p
      → ((dir : Dir) → lookup session dir ≡ lookup session before → Same before (k dir))
      → Same before (then_run p (λ _. k))
  then_Same before (ok a, dir) k same next = next dir same
  then_Same before (err e, dir) k same next = same

  copy_Same :
      (fault : Option (IoError × Option Bytes)) (to : Text) (bytes : Option Bytes) (dir : Dir)
      → text_eq to session ≡ false
      → Same dir (copy_file fault to bytes dir)
  copy_Same none to bytes dir h = lookup-write to session bytes dir h
  copy_Same (some (e, left)) to bytes dir h = lookup-write to session left dir h

  -- Whatever fails, making a backup and pruning the old ones leaves the session file as it is.
  pub create_backup-lookup :
      (config : BackupConfig) (faults : Faults) (dir : Dir)
      → Named out session
      → lookup session (create_backup config out faults session dir).1 ≡ lookup session dir
  unfolding create_backup
  create_backup-lookup config faults dir named = elim (Option-cases (lookup session dir)) [
    | inl absent ↦
        let refused : create_backup config out faults session dir
            ≡ (err (source_not_found session), dir) =
          rw (create_backup, absent) refl in
        ap (λ p. lookup session p.1) refused
    | inr (bytes, here) ↦
        let backup = generate_backup_path config out session in
        let other = differs backup named (generated config) in
        let check : Step (Unit {0}) =
          if config.verify_backup
          then verify_backup config out faults session backup
          else give (ok tt) in
        let prune : Step Text = pruned config out faults session >> give (ok backup) in
        let run : Same dir (backup_to config out faults session backup bytes dir) =
          then_Same dir (copy_file faults.copy backup (some bytes) dir) (check >> prune)
            (copy_Same faults.copy backup (some bytes) dir other)
            (λ copied same.
              then_Same dir (check copied) prune
                (ap (lookup session) (checked_dir config config.verify_backup faults backup copied)
                  ∙ same)
                (λ now still. prune-Same config faults dir now named still)) in
        let made : create_backup config out faults session dir
            ≡ backup_to config out faults session backup bytes dir =
          rw (create_backup, here) refl in
        ap (λ p. lookup session p.1) made ∙ run
  ]
