-- ===== src/Resume/Backup/Recognised.antt =====
-- Which files `prune_old_backups` of src/resume/backup.rs takes for backups of a session, by their
-- names.
use mathlib.Core.Path.{subst}
use mathlib.Core.List.{Mem, mem-cons_self, mem-cons_of_mem}
use palingenesis.Prelude.{
  ℕ, ◌≡◌, ◌∙◌, refl, sym, ap, arith, true, some, List, [], ◌∷◌, ◌++◌, map, filter_map, ok, All, ◌⊎◌,
  inl, inr, Bool-cases, Option-cases, Result-cases,
}
use palingenesis.Prelude.Text.{Text, codes, starts_with, split}
use palingenesis.Resume.Backup.{
  BackupConfig, Dir, Found, Outside, stem, parts_time, part_time, extract_timestamp, as_backup,
  backups,
}

-- A name of a backup, and its time: it starts with the stem of the session and `-backup-`, which is
-- in it once, and what stands between that and the next dot reads as the time. The name of the
-- session behind it, with its extension, is not looked at.
pub record IsBackup (config : BackupConfig) (out : Outside) (session name : Text) (time : ℕ)
    : Type 0 where
  pub begins : starts_with name (stem out session ++ codes "-backup-") ≡ true
  pub before : Text
  pub after : Text
  pub once : split name (codes "-backup-") ≡ before ∷ after ∷ []
  pub stamp : Text
  pub ending : List Text
  pub dots : split after (codes ".") ≡ stamp ∷ ending
  pub reads : out.parse_timestamp config.timestamp_format stamp ≡ some time

module _ (config : BackupConfig) (out : Outside) (session : Text) where
  -- What parts must be for a time.
  record Parts (parts : List Text) (time : ℕ) : Type 0 where
    before : Text
    after : Text
    two : parts ≡ before ∷ after ∷ []
    stamp : Text
    ending : List Text
    dots : split after (codes ".") ≡ stamp ∷ ending
    reads : out.parse_timestamp config.timestamp_format stamp ≡ some time

  part_time-Parts :
      (name a b : Text) (pieces : List Text) (time : ℕ)
      → split b (codes ".") ≡ pieces
      → part_time config out name pieces ≡ ok time
      → Parts (a ∷ b ∷ []) time
  part_time-Parts name a b [] time e h = cc
  part_time-Parts name a b (stamp ∷ ending) time e h =
      elim (Option-cases (out.parse_timestamp config.timestamp_format stamp)) [
        | inl unread ↦ absurd (ground arith)
        | inr (t, read) ↦ record {
          before = a;
          after = b;
          two = refl;
          stamp = stamp;
          ending = ending;
          dots = e;
          reads = ground arith;
        }
      ]

  parts_time-Parts :
      (name : Text) (parts : List Text) (time : ℕ)
      → parts_time config out name parts ≡ ok time
      → Parts parts time
  parts_time-Parts name [] time h = cc
  parts_time-Parts name (a ∷ []) time h = cc
  parts_time-Parts name (a ∷ b ∷ []) time h =
      part_time-Parts name a b (split b (codes ".")) time refl h
  parts_time-Parts name (a ∷ b ∷ c ∷ rest) time h = cc

  -- What is taken for a backup is one.
  as_backup_sound :
      (name : Text) (b : Found)
      → as_backup config out session name ≡ some b
      → (b ≡ (name, b.1)) × IsBackup config out session name b.1
  unfolding as_backup extract_timestamp
  as_backup_sound name b h =
      elim (Bool-cases (starts_with name (stem out session ++ codes "-backup-"))) [
        | inr other ↦ absurd (ground arith)
        | inl begins ↦ elim (Result-cases (extract_timestamp config out name)) [
          | inr (e, bad) ↦ absurd (ground arith)
          | inl (time, good) ↦
              let parts = parts_time-Parts name (split name (codes "-backup-")) time good in
              let same : b ≡ (name, time) = ground arith in
              let now : time ≡ b.1 = ap (λ f. f.1) (sym same) in
              (
                same ∙ ap (λ t. (name, t)) now,
                record {
                  begins = begins;
                  before = parts.before;
                  after = parts.after;
                  once = parts.two;
                  stamp = parts.stamp;
                  ending = parts.ending;
                  dots = parts.dots;
                  reads = parts.reads ∙ ap some now;
                },
              )
        ]
      ]

  -- A backup is taken for one.
  as_backup_complete :
      (name : Text) (time : ℕ)
      → IsBackup config out session name time
      → as_backup config out session name ≡ some (name, time)
  unfolding as_backup extract_timestamp
  as_backup_complete name time h =
      let first : part_time config out name (h.stamp ∷ h.ending) ≡ ok time =
        ground (arith, h.reads) in
      let time_read : extract_timestamp config out name ≡ ok time =
        ap (parts_time config out name) h.once ∙ ap (part_time config out name) h.dots ∙ first in
      rw (as_backup, h.begins, time_read) refl

  -- A file is found with its time, or is no backup.
  abbrev pub Status : List Found → Text → Type 0
  Status found name =
      ((time : ℕ) × Mem (name, time) found) ⊎ ((time : ℕ) → ¬ IsBackup config out session name time)

  pub files-Status :
      (dir : Dir) (found : List Found)
      → ((b : Found) → Mem b (backups config out session dir) → Mem b found)
      → All (λ file. Status found file.0) dir
  files-Status [] found embed = tt
  files-Status ((name, bytes) ∷ dir) found embed =
      elim (Option-cases (as_backup config out session name)) [
        | inl nothing ↦ (
          inr (λ time is. cc (as_backup_complete name time is)),
          files-Status dir found (λ b m. embed b (rw nothing m)),
        )
        | inr (b, is_one) ↦
            let (same, is) = as_backup_sound name b is_one in
            (
              inl (b.1, embed (name, b.1) (rw (is_one, same) mem-cons_self)),
              files-Status dir found (λ c m. embed c (rw is_one (mem-cons_of_mem b m))),
            )
      ]

  -- What holds of a backup that is found.
  abbrev pub Recognised : Found → Type 0
  Recognised b = IsBackup config out session b.0 b.1

  names-Recognised :
      (names : List Text) → All Recognised (filter_map (as_backup config out session) names)
  names-Recognised [] = tt
  names-Recognised (name ∷ names) = elim (Option-cases (as_backup config out session name)) [
    | inl nothing ↦ rw nothing (names-Recognised names)
    | inr (b, is_one) ↦
        let (same, is) = as_backup_sound name b is_one in
        let here : Recognised b =
          subst (λ n. IsBackup config out session n b.1) (sym (ap (λ f. f.0) same)) is in
        rw is_one (here, names-Recognised names)
  ]

  pub backups-Recognised : (dir : Dir) → All Recognised (backups config out session dir)
  backups-Recognised dir = names-Recognised (map (λ file. file.0) dir)
