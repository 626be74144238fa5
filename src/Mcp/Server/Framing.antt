-- ===== src/Mcp/Server/Framing.antt =====
-- What the loop of src/mcp/server.rs writes, line by line.
use palingenesis.Prelude.{
  ℕ, ◌≡◌, ◌∙◌, refl, sym, ap, true, false, ◌&&◌, ◌||◌, Option, none, some, List, [], ◌∷◌, ◌++◌, map,
  filter_map, cons?, all, All, is_some, Bool, ok, ◌==◌, Bool-cases, inl, inr, if◌then◌else◌,
}
use palingenesis.Prelude.Text.{Text, is_empty, lines}
use palingenesis.Prelude.Text.Lines.{ends_line, stays, lines-append, lines-line}
use palingenesis.Monitor.Frontmatter.{IoError}
use palingenesis.Mcp.Protocol.{Json}
use palingenesis.Mcp.Protocol.Answers.{process_input-OneLine}
use palingenesis.Mcp.Protocol.Due.{answer_due, process_input-answer_due}
use palingenesis.Mcp.Server.{
  trim_newlines, Incoming, received, Output, quiet, handle, process_json_rpc, write_raw, respond,
  run_json_rpc,
}

trim_newlines-newline : (line : Text) → trim_newlines (line ++ 10 ∷ []) ≡ trim_newlines line
unfolding trim_newlines
trim_newlines-newline [] = refl
trim_newlines-newline (c ∷ line) =
    ap (λ rest. if is_empty rest && (c == 10 || c == 13) then [] else c ∷ rest)
      (trim_newlines-newline line)

is_empty-line : (line : Text) → is_empty (line ++ 10 ∷ []) ≡ false
is_empty-line [] = refl
is_empty-line (c ∷ line) = refl

ends_line-append : (s t : Text) → ends_line (s ++ (t ++ 10 ∷ [])) ≡ true
ends_line-append [] [] = refl
ends_line-append [] (c ∷ []) = refl
ends_line-append [] (c ∷ d ∷ t) = ends_line-append [] (d ∷ t)
ends_line-append (c ∷ []) [] = refl
ends_line-append (c ∷ []) (d ∷ t) = ends_line-append [] (d ∷ t)
ends_line-append (c ∷ d ∷ s) t = ends_line-append (d ∷ s) t

append_nil : (l : List Text) → l ++ [] ≡ l
append_nil [] = refl
append_nil (x ∷ l) = ap (λ r. x ∷ r) (append_nil l)

cons?-append : (o : Option Text) (l m : List Text) → (l ++ cons? o []) ++ m ≡ l ++ cons? o m
cons?-append none [] m = refl
cons?-append (some s) [] m = refl
cons?-append o (x ∷ l) m = ap (λ r. x ∷ r) (cons?-append o l m)

module _ {V : Type 0} (json : Json V) (version : Text) where
  -- The reply to a line, if one is due.
  unfoldable pub reply : Text → Option Text
  unfolding trim_newlines process_json_rpc
  reply line =
      let text = trim_newlines line in
      elim (is_empty text) [ true ↦ none | false ↦ process_json_rpc json version text ]

  -- Whether a line is to be answered: one that is not blank, and that is no JSON, an empty batch, a
  -- batch with an item to which an answer is due, or a single value to which one is.
  unfoldable pub is_due : Text → Bool
  unfolding trim_newlines answer_due
  is_due line =
      let text = trim_newlines line in
      elim (is_empty text) [ true ↦ false | false ↦ answer_due json text ]

  module _ (compact : (v : V) (s : Text) → json.to_string v ≡ some s → all stays s ≡ true)
      (serializes : (v : V) → is_some (json.to_string v) ≡ true) (write_fails : ℕ → Option IoError)
      (writes_work : (n : ℕ) → write_fails n ≡ none) where
    reply-OneLine : (line s : Text) → reply line ≡ some s → all stays s ≡ true
    unfolding reply process_json_rpc
    reply-OneLine line = elim (Bool-cases (is_empty (trim_newlines line))) [
      | inl blank ↦ rw (reply, blank) (λ s h. cc)
      | inr text ↦
          rw (reply, text)
            (process_input-OneLine json (handle json version) compact (trim_newlines line))
    ]

    respond-lines :
        (o : Option Text) (out : Output)
        → ((s : Text) → o ≡ some s → all stays s ≡ true)
        → ends_line out.written ≡ true
        → ((respond json version write_fails o out).0 ≡ ok tt)
          × (ends_line (respond json version write_fails o out).1.written ≡ true)
          × (lines (respond json version write_fails o out).1.written
              ≡ lines out.written ++ cons? o [])
    unfolding respond write_raw
    respond-lines none out one whole = (refl, whole, sym (append_nil (lines out.written)))
    respond-lines (some s) out one whole =
        rw (respond, write_raw, writes_work out.writes)
          (
            refl,
            ends_line-append out.written s,
            lines-append out.written (s ++ 10 ∷ []) whole
                ∙ ap (λ l. lines out.written ++ l) (lines-line s (one s refl)),
          )

    -- The line is read, answered, and its newline is not part of the request.
    run_json_rpc-line :
        (line : Text) (inputs : List Incoming) (out : Output)
        → (respond json version write_fails (reply line) out).0 ≡ ok tt
        → run_json_rpc json version write_fails (received (line ++ 10 ∷ []) ∷ inputs) out
          ≡ run_json_rpc json version write_fails inputs
              (respond json version write_fails (reply line) out).1
    unfolding run_json_rpc reply respond
    run_json_rpc-line line inputs out works = elim (Bool-cases (is_empty (trim_newlines line))) [
      | inl blank ↦
          rw (run_json_rpc, is_empty-line line, trim_newlines-newline line, blank, reply, respond)
            refl
      | inr text ↦
          let trimmed = trim_newlines-newline line in
          let asked : process_json_rpc json version (trim_newlines (line ++ 10 ∷ [])) ≡ reply line =
            ap (process_json_rpc json version) trimmed ∙ rw (reply, text) refl in
          rw
            (
              run_json_rpc,
              is_empty-line line,
              ap is_empty trimmed ∙ text,
              ap (λ a. (respond json version write_fails a out).0) asked ∙ works,
            )
            (ap
              (λ a.
                run_json_rpc json version write_fails inputs
                  (respond json version write_fails a out).1)
              asked)
    ]

    run_json_rpc-from :
        (requests : List Text) (out : Output)
        → ends_line out.written ≡ true
        → let (outcome, o) =
            run_json_rpc json version write_fails
              (map (λ l. received (l ++ 10 ∷ [])) requests)
              out in
          (outcome ≡ ok tt) × (lines o.written ≡ lines out.written ++ filter_map reply requests)
    unfolding run_json_rpc
    run_json_rpc-from [] out whole = (refl, sym (append_nil (lines out.written)))
    run_json_rpc-from (line ∷ requests) out whole =
        let (works, whole', now) = respond-lines (reply line) out (reply-OneLine line) whole in
        let next = (respond json version write_fails (reply line) out).1 in
        let (outcome, later) = run_json_rpc-from requests next whole' in
        rw (run_json_rpc-line line (map (λ l. received (l ++ 10 ∷ [])) requests) out works) (
          outcome,
          later
              ∙ ap (λ l. l ++ filter_map reply requests) now
              ∙ cons?-append (reply line) (lines out.written) (filter_map reply requests),
        )

    reply-is_due : (line : Text) → is_some (reply line) ≡ is_due line
    unfolding reply is_due process_json_rpc
    reply-is_due line = elim (Bool-cases (is_empty (trim_newlines line))) [
      | inl blank ↦ rw (reply, is_due, blank) refl
      | inr text ↦
          rw (reply, is_due, text)
            (process_input-answer_due json (handle json version) serializes (trim_newlines line))
    ]

    replies-is_due : (requests : List Text) → All (λ l. is_some (reply l) ≡ is_due l) requests
    replies-is_due [] = tt
    replies-is_due (line ∷ requests) = (reply-is_due line, replies-is_due requests)

    -- If serde_json writes every value, and no newlines, and every writing works, the loop ends
    -- without an error at the end of its input, and the lines of its output are the replies to the
    -- lines of the input, in their order. A line is replied to if it is no JSON, an empty batch, a
    -- batch with an item that is no notification, or a single value that is none; a blank line, a
    -- notification and a batch of notifications have no reply.
    pub run_json_rpc-lines :
        (requests : List Text)
        → let (outcome, o) =
            run_json_rpc json version write_fails
              (map (λ l. received (l ++ 10 ∷ [])) requests)
              quiet in
          (outcome ≡ ok tt)
          × (lines o.written ≡ filter_map reply requests)
          × All (λ l. is_some (reply l) ≡ is_due l) requests
    unfolding lines
    run_json_rpc-lines requests =
        let (outcome, written) = run_json_rpc-from requests quiet refl in
        (outcome, written, replies-is_due requests)
