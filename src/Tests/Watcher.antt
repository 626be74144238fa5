-- ===== src/Tests/Watcher.antt =====
-- src/monitor/watcher.rs at a few changes.
use palingenesis.Prelude.{
  ℕ, ◌≡◌, refl, Bool, true, false, none, some, List, [], ◌∷◌, Result, ok, err, ltb,
}
use palingenesis.Prelude.Text.{Text, codes, text_eq}
use palingenesis.Monitor.Events.{directory_created, file_deleted}
use palingenesis.Monitor.Watcher.{
  create, folder, other_create, modify, remove_kind, noise, Input, debounced, tick, already_running,
  flush_entries, flush_buffer, watch_loop, start_watching, empty,
}
use palingenesis.Monitor.Watcher.Retry.{watch_from, watch_with_retry}
use palingenesis.Monitor.Watcher.Latest.{change, latest, last_about, start_watching-latest}
use palingenesis.Monitor.Watcher.Start.{
  World, with_path, wait_loop, wait_for_directory_creation, run_watcher_task, run, drop_guard,
}

abbrev always : ℕ → Bool
always n = true

abbrev works : ℕ → Result (Unit {0}) Text
works n = ok tt

abbrev second_try : ℕ → Result (Unit {0}) Text
second_try n = if_first (ltb n 1)
  where
    if_first : Bool → Result (Unit {0}) Text
    if_first true = err (codes "busy")
    if_first false = ok tt

abbrev changes : List Input
changes =
    debounced (
      ok (
        record { kind = create other_create; paths = codes "a" ∷ codes "b" ∷ [] }
        ∷ record { kind = modify; paths = codes "a" ∷ [] }
        ∷ record { kind = noise; paths = codes "b" ∷ [] }
        ∷ []))
    ∷ tick
    ∷ debounced (err (codes "overflow" ∷ []))
    ∷ debounced (ok (record { kind = remove_kind; paths = codes "a" ∷ [] } ∷ []))
    ∷ []

start_watching-latest_example :
    last_about (codes "a") none (start_watching always none second_try changes empty).1.sent
    ≡ latest (codes "a") none changes
unfolding watch_with_retry watch_from
start_watching-latest_example =
    start_watching-latest always (λ n. refl) second_try changes (codes "a") refl

latest_deleted : latest (codes "a") none changes ≡ some (file_deleted (codes "a"))
unfolding latest change codes text_eq
latest_deleted = refl

abbrev appearing : World
appearing = record {
  parent = some (codes "home");
  exists_first = false;
  exists_second = false;
  new_watcher = none;
  watch_parent = works;
  new_debouncer = none;
  watch_dir = works;
  turns =
      record {
        exists = false;
        result = ok (record { kind = create folder; paths = codes "home/dir" ∷ [] });
      }
      ∷ [];
  exists_last = false;
  inputs = [];
}

created :
    (run_watcher_task always (codes "home/dir") appearing empty).1.sent
    ≡ directory_created (codes "home/dir") ∷ []
unfolding run_watcher_task wait_for_directory_creation wait_loop watch_with_retry watch_from
    start_watching watch_loop flush_buffer flush_entries codes text_eq
created = refl

run_twice : (run (run (with_path (codes "dir"))).0).1 ≡ err already_running
unfolding run
run_twice = refl

run_again : (run (drop_guard (run (with_path (codes "dir"))).0)).1 ≡ ok tt
unfolding run
run_again = refl
