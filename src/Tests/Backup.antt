-- ===== src/Tests/Backup.antt =====
-- src/resume/backup.rs at a directory with two backups.
use palingenesis.Prelude.{ℕ, ◌≡◌, refl, none, some, ok, [], ◌∷◌, Option}
use palingenesis.Prelude.Text.{Text, codes, text_eq, starts_with, split}
use palingenesis.Monitor.Frontmatter.{other}
use palingenesis.Resume.Backup.{
  BackupConfig, default_backup_config, Outside, Faults, Dir, lookup, as_backup, extract_timestamp,
  create_backup, prune_old_backups, prune_from, sort, insert_sorted, verify_backup,
  generate_backup_path,
}
use palingenesis.Resume.Backup.Pruning.{PruneEnd, prune_old_backups-PruneEnd}
use palingenesis.Resume.Backup.Kept.{dotted, create_backup-lookup}

abbrev session : Text
session = codes "s.md"

abbrev time_of : Text → Option ℕ
time_of [] = none
time_of (c ∷ []) = some c
time_of (c ∷ d ∷ rest) = none

-- A time stamp of one character.
abbrev out : Outside
out = record {
  file_stem = λ name. some (codes "s");
  extension = λ name. some (codes "md");
  now = λ format. codes "3";
  parse_timestamp = λ format. time_of;
}

abbrev config : BackupConfig
config = record default_backup_config { max_backups = 2 }

abbrev working : Faults
working = record {
  copy = none;
  source_metadata = none;
  backup_metadata = none;
  open_backup = none;
  read_backup = none;
  read_dir = none;
  remove_file = λ name. none;
}

abbrev dir : Dir
dir =
    (codes "s-backup-2.md", 2 ∷ [])
    ∷ (codes "s-backup-xy.md", 9 ∷ [])
    ∷ (codes "s-backup-1.md", 1 ∷ [])
    ∷ (session, 7 ∷ 7 ∷ [])
    ∷ []

-- The oldest backup goes, and what is no backup stays.
backed_up : create_backup config out working session dir ≡ (
  ok (codes "s-backup-3.md"),
  (codes "s-backup-3.md", 7 ∷ 7 ∷ [])
      ∷ (codes "s-backup-2.md", 2 ∷ [])
      ∷ (codes "s-backup-xy.md", 9 ∷ [])
      ∷ (session, 7 ∷ 7 ∷ [])
      ∷ [],
)
unfolding create_backup generate_backup_path verify_backup prune_old_backups as_backup
    extract_timestamp sort insert_sorted prune_from codes text_eq starts_with split
backed_up = refl

-- Where no backup may be kept, the one that is given back is gone.
not_kept :
    lookup
      (codes "s-backup-3.md")
      (create_backup (record config { max_backups = 0 }) out working session dir).1
    ≡ none
unfolding create_backup generate_backup_path verify_backup prune_old_backups as_backup
    extract_timestamp sort insert_sorted prune_from codes text_eq starts_with split
not_kept = refl

prune_old_backups-PruneEnd_example :
    PruneEnd config out session dir (prune_old_backups config out working session dir)
prune_old_backups-PruneEnd_example = prune_old_backups-PruneEnd config out working session dir

create_backup-lookup_example :
    lookup session
      (create_backup config out
        (record working { copy = some (other (codes "full"), none) })
        session
        dir).1
    ≡ lookup session dir
unfolding codes
create_backup-lookup_example =
    create_backup-lookup out session config
      (record working { copy = some (other (codes "full"), none) }) dir (dotted (codes "md") refl)
