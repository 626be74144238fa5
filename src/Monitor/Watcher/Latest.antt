-- ===== src/Monitor/Watcher/Latest.antt =====
-- No change is lost by the buffer of src/monitor/watcher.rs: what is sent last about a path is its
-- latest change.
use palingenesis.Prelude.{
  ℕ, ◌≡◌, ◌∙◌, refl, sym, ap, arith, Bool, true, false, Option, none, some, List, [], ◌∷◌, ◌++◌,
  Result, ok, err, Bool-cases, inl, inr, if◌then◌else◌,
}
use palingenesis.Prelude.Text.{Text, text_eq, text_eq_sound, text_eq_refl, text_eq_iff}
use palingenesis.Monitor.Events.{
  WatchEvent, file_created, file_modified, file_deleted, directory_created, watch_error,
}
use palingenesis.Monitor.Watcher.{
  EventKind, create, folder, other_create, modify, remove_kind, noise, DebouncedEvent, Buffer,
  Channel, Watch, Input, debounced, tick, is_core_event, map_event, lookup, remove, insert,
  insert_all, buffer_event, buffer_events, delivered, refused, send, send_errors, flush_entries,
  flush_buffer, handle_debounce_result, watch_loop, start_watching, empty,
}
use palingenesis.Monitor.Watcher.Retry.{watch_with_retry}

-- The path that an event is about; an error is about none.
abbrev pub about : Text → WatchEvent → Bool
about path (file_created p) = text_eq p path
about path (file_modified p) = text_eq p path
about path (file_deleted p) = text_eq p path
about path (directory_created p) = text_eq p path
about path (watch_error message) = false

-- The last event about a path, behind an earlier one.
unfoldable pub last_about : Text → Option WatchEvent → List WatchEvent → Option WatchEvent
last_about path earlier [] = earlier
last_about path earlier (e ∷ events) =
    last_about path (if about path e then some e else earlier) events

-- The same for the changes that come in: a change of a path, if it is of a core kind.
unfoldable pub change : Text → EventKind → List Text → Option WatchEvent → Option WatchEvent
change path kind [] earlier = earlier
change path kind (p ∷ paths) earlier =
    change path kind paths (if text_eq p path then map_event kind path else earlier)

abbrev pub latest_of : Text → Option WatchEvent → List DebouncedEvent → Option WatchEvent
latest_of path earlier [] = earlier
latest_of path earlier (event ∷ events) =
    latest_of path
      (if is_core_event event.kind then change path event.kind event.paths earlier else earlier)
      events

unfoldable pub latest : Text → Option WatchEvent → List Input → Option WatchEvent
unfolding change
latest path earlier [] = earlier
latest path earlier (tick ∷ inputs) = latest path earlier inputs
latest path earlier (debounced (err errors) ∷ inputs) = latest path earlier inputs
latest path earlier (debounced (ok events) ∷ inputs) =
    latest path (latest_of path earlier events) inputs

last_about-append :
    (path : Text) (earlier : Option WatchEvent) (events : List WatchEvent) (e : WatchEvent)
    → last_about path earlier (events ++ e ∷ [])
      ≡ (if about path e then some e else last_about path earlier events)
unfolding last_about
last_about-append path earlier [] e = refl
last_about-append path earlier (x ∷ events) e =
    last_about-append path (if about path x then some x else earlier) events e

-- A buffer has one entry for a path, and only core kinds.
abbrev IsBuffer : Buffer → Type 0
IsBuffer [] = Unit
IsBuffer ((path, kind) ∷ rest) =
    (is_core_event kind ≡ true) × (lookup path rest ≡ none) × IsBuffer rest

lookup-remove :
    (path p : Text) (buffer : Buffer)
    → lookup p (remove path buffer) ≡ (if text_eq path p then none else lookup p buffer)
unfolding remove
lookup-remove path p [] = ground arith
lookup-remove path p ((q, kind) ∷ rest) =
    ground
      (arith, text_eq_iff q path, text_eq_iff path p, text_eq_iff q p, lookup-remove path p rest)

remove-IsBuffer : (path : Text) (buffer : Buffer) → IsBuffer buffer → IsBuffer (remove path buffer)
unfolding remove
remove-IsBuffer path [] h = tt
remove-IsBuffer path ((q, kind) ∷ rest) (core, fresh, h) = elim (Bool-cases (text_eq q path)) [
  | inl same ↦ rw same (remove-IsBuffer path rest h)
  | inr other ↦
      rw other (core, ground (arith, lookup-remove path q rest), remove-IsBuffer path rest h)
]

-- The event about a path that is to come last: the buffered one, or what was sent last.
abbrev pending : Text → Option EventKind → Option WatchEvent → Option WatchEvent
pending path none sent = sent
pending path (some kind) sent = map_event kind path

map_event-about :
    (kind : EventKind) (p : Text)
    → is_core_event kind ≡ true
    → (e : WatchEvent) × (map_event kind p ≡ some e)
      × ((path : Text) → about path e ≡ text_eq p path)
map_event-about (create folder) p h = (directory_created p, refl, λ path. refl)
map_event-about (create other_create) p h = (file_created p, refl, λ path. refl)
map_event-about modify p h = (file_modified p, refl, λ path. refl)
map_event-about remove_kind p h = (file_deleted p, refl, λ path. refl)
map_event-about noise p h = cc

module _ (accepts : ℕ → Bool) (open_ : (n : ℕ) → accepts n ≡ true) where
  send-sent : (e : WatchEvent) (c : Channel) → (send accepts e c).sent ≡ c.sent ++ e ∷ []
  send-sent e c = ap (λ b. (if b then delivered e c else refused c).sent) (open_ c.attempts)

  -- A flush sends what is pending about each path.
  flush_entries-last :
      (path : Text) (buffer : Buffer) (c : Channel)
      → IsBuffer buffer
      → last_about path none (flush_entries accepts buffer c).sent
        ≡ pending path (lookup path buffer) (last_about path none c.sent)
  unfolding flush_entries
  flush_entries-last path [] c h = refl
  flush_entries-last path ((p, kind) ∷ rest) c (core, fresh, h) =
      let (e, mapped, about_e) = map_event-about kind p core in
      let sent = last_about-append path none c.sent e in
      let ih = flush_entries-last path rest (delivered e c) h in
      let step : flush_entries accepts ((p, kind) ∷ rest) c
          ≡ flush_entries accepts rest (delivered e c) =
        rw (flush_entries, mapped, open_ c.attempts) refl in
      ap (λ d. last_about path none d.sent) step ∙ ih ∙ elim (Bool-cases (text_eq p path)) [
        | inr other ↦
            let far : about path e ≡ false = about_e path ∙ other in
            rw other (ap (pending path (lookup path rest)) (sent ∙ rw far refl))
        | inl same ↦
            let here : about path e ≡ true = about_e path ∙ same in
            let equal = text_eq_sound p path same in
            let gone : lookup path rest ≡ none = ap (λ q. lookup q rest) (sym equal) ∙ fresh in
            let mapped' : map_event kind path ≡ some e = ap (map_event kind) (sym equal) ∙ mapped in
            rw same (
              ap (λ o. pending path o (last_about path none (delivered e c).sent)) gone
              ∙ sent
              ∙ rw here (sym mapped'))
      ]

  -- The event about a path that a watcher has still to send, or has sent last.
  abbrev last_event : Text → Watch → Option WatchEvent
  last_event path w = pending path (lookup path w.buffer) (last_about path none w.channel.sent)

  send_errors-last :
      (path : Text) (errors : List Text) (c : Channel)
      → last_about path none (send_errors accepts errors c).sent ≡ last_about path none c.sent
  send_errors-last path [] c = refl
  send_errors-last path (e ∷ errors) c =
      send_errors-last path errors (send accepts (watch_error e) c)
      ∙ ap (last_about path none) (send-sent (watch_error e) c)
      ∙ last_about-append path none c.sent (watch_error e)

-- What an event puts into the buffer.
insert-pending :
    (path : Text) (kind : EventKind) (p : Text) (buffer : Buffer) (sent : Option WatchEvent)
    → pending path (lookup path (insert p kind buffer)) sent
      ≡ (if text_eq p path then map_event kind path else pending path (lookup path buffer) sent)
insert-pending path kind p buffer sent = elim (Bool-cases (text_eq p path)) [
  | inl same ↦ rw same refl
  | inr other ↦
      let kept : lookup path (remove p buffer) ≡ lookup path buffer =
        lookup-remove p path buffer ∙ rw other refl in
      rw other (ap (λ o. pending path o sent) kept)
]

insert_all-pending :
    (path : Text) (kind : EventKind) (paths : List Text) (buffer : Buffer)
    (sent : Option WatchEvent)
    → is_core_event kind ≡ true
    → IsBuffer buffer
    → IsBuffer (insert_all paths kind buffer)
      × (pending path (lookup path (insert_all paths kind buffer)) sent
          ≡ change path kind paths (pending path (lookup path buffer) sent))
unfolding insert_all change
insert_all-pending path kind [] buffer sent core h = (h, refl)
insert_all-pending path kind (p ∷ paths) buffer sent core h =
    let added : IsBuffer (insert p kind buffer) = (
      core,
      ground (arith, lookup-remove p p buffer, text_eq_refl p),
      remove-IsBuffer p buffer h,
    ) in
    let (good, same) = insert_all-pending path kind paths (insert p kind buffer) sent core added in
    (good, same ∙ ap (change path kind paths) (insert-pending path kind p buffer sent))

buffer_event-pending :
    (path : Text) (event : DebouncedEvent) (buffer : Buffer) (sent : Option WatchEvent)
    → IsBuffer buffer
    → IsBuffer (buffer_event event buffer)
      × (pending path (lookup path (buffer_event event buffer)) sent
          ≡ latest_of path (pending path (lookup path buffer) sent) (event ∷ []))
unfolding buffer_event
buffer_event-pending path event buffer sent h = elim (Bool-cases (is_core_event event.kind)) [
  | inl core ↦ rw core (insert_all-pending path event.kind event.paths buffer sent core h)
  | inr noise_only ↦ rw noise_only (h, refl)
]

buffer_events-pending :
    (path : Text) (events : List DebouncedEvent) (buffer : Buffer) (sent : Option WatchEvent)
    → IsBuffer buffer
    → IsBuffer (buffer_events events buffer)
      × (pending path (lookup path (buffer_events events buffer)) sent
          ≡ latest_of path (pending path (lookup path buffer) sent) events)
buffer_events-pending path [] buffer sent h = (h, refl)
buffer_events-pending path (event ∷ events) buffer sent h =
    let (good, first) = buffer_event-pending path event buffer sent h in
    let (all_good, rest) =
      buffer_events-pending path events (buffer_event event buffer) sent good in
    (all_good, rest ∙ ap (λ e. latest_of path e events) first)

module _ (accepts : ℕ → Bool) (open_ : (n : ℕ) → accepts n ≡ true) where
  watch_loop-last :
      (path : Text) (inputs : List Input) (w : Watch)
      → IsBuffer w.buffer
      → last_about path none (watch_loop accepts inputs w).channel.sent
        ≡ latest path (last_event accepts open_ path w) inputs
  unfolding watch_loop latest flush_buffer handle_debounce_result
  watch_loop-last path [] w h = flush_entries-last accepts open_ path w.buffer w.channel h
  watch_loop-last path (tick ∷ inputs) w h =
      watch_loop-last path inputs (flush_buffer accepts w) tt
      ∙ ap (λ e. latest path e inputs) (flush_entries-last accepts open_ path w.buffer w.channel h)
  watch_loop-last path (debounced (err errors) ∷ inputs) w h =
      watch_loop-last path inputs (handle_debounce_result accepts (err errors) w) h
      ∙ ap (λ e. latest path (pending path (lookup path w.buffer) e) inputs)
          (send_errors-last accepts open_ path errors w.channel)
  watch_loop-last path (debounced (ok events) ∷ inputs) w h =
      let (good, same) =
        buffer_events-pending path events w.buffer (last_about path none w.channel.sent) h in
      watch_loop-last path inputs (handle_debounce_result accepts (ok events) w) good
      ∙ ap (λ e. latest path e inputs) same

  -- If the debouncer is made, the watch starts within the retries, and the receiver is there all the
  -- time, then, when the watcher is cancelled, the last event that it has sent about a path is that
  -- of the path's latest change, whichever changes were collapsed and whichever errors came between;
  -- there is none if the path did not change.
  pub start_watching-latest :
      (try : ℕ → Result (Unit {0}) Text) (inputs : List Input) (path : Text)
      → (watch_with_retry try).0 ≡ ok tt
      → last_about path none (start_watching accepts none try inputs empty).1.sent
        ≡ latest path none inputs
  unfolding start_watching last_about
  start_watching-latest try inputs path started =
      rw (start_watching, started)
        (watch_loop-last path inputs (record { buffer = []; channel = empty }) tt)
