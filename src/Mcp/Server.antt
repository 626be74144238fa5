-- ===== src/Mcp/Server.antt =====
-- src/mcp/server.rs: the handler of the server, and its loop over the lines of the standard input.
-- What is received, and whether each answer can be written, are given. `read_next_line` and the loop
-- are one recursion, since an empty line only reads on.
pub mod Framing
use palingenesis.Prelude.{
  ℕ, suc, Bool, true, false, ◌&&◌, ◌||◌, Option, none, some, List, [], ◌∷◌, ◌++◌, Result, ok, err,
  ◌==◌, if◌then◌else◌,
}
use palingenesis.Prelude.Text.{Text, codes, text_eq, is_empty}
use palingenesis.Monitor.Frontmatter.{IoError}
use palingenesis.Mcp.Protocol.{
  Json, JsonRpcHandler, JsonRpcError, no_such_method, new_error, default_initialize_response,
  process_input,
}

pub data McpServerError : Type 0 where
  initialize : Text → McpServerError
  service : Text → McpServerError
  io : IoError → McpServerError
  task : Text → McpServerError

-- `line.trim_end_matches(['\n', '\r'])`
unfoldable pub trim_newlines : Text → Text
trim_newlines [] = []
trim_newlines (c ∷ line) =
    let rest = trim_newlines line in if is_empty rest && (c == 10 || c == 13) then [] else c ∷ rest

-- A reading of a line, or the cancellation; the end of the list is the end of the input.
pub data Incoming : Type 0 where
  received : Text → Incoming
  read_failed : IoError → Incoming
  cancelled : Incoming

-- What was written to the standard output, and how often the loop wrote.
pub record Output : Type 0 where
  pub written : Text
  pub writes : ℕ

abbrev pub quiet : Output
quiet = record { written = []; writes = 0 }

module _ {V : Type 0} (json : Json V) (version : Text) where
  unfoldable pub handle : JsonRpcHandler V
  unfolding text_eq codes default_initialize_response new_error
  handle method params =
      if text_eq method (codes "initialize")
      then ok (default_initialize_response json version)
      else if text_eq method (codes "tools/list")
      then ok (json.object ((codes "tools", json.array []) ∷ []))
      else if text_eq method (codes "tools/call")
      then ok (json.object ((codes "content", json.array []) ∷ []))
      else err (new_error no_such_method none)

  unfoldable pub process_json_rpc : Text → Option Text
  unfolding handle process_input
  process_json_rpc input = process_input json handle input

  -- The failure of the n-th writing, if it fails.
  module _ (write_fails : ℕ → Option IoError) where
    unfoldable pub write_raw : Text → Output → Result (Unit {0}) McpServerError × Output
    write_raw payload o = elim (write_fails o.writes) [
      | some e ↦ (err (io e), record o { writes = suc o.writes })
      | none ↦
          (ok tt, record { written = o.written ++ (payload ++ 10 ∷ []); writes = suc o.writes })
    ]

    -- The answer is written, if there is one.
    unfoldable pub respond : Option Text → Output → Result (Unit {0}) McpServerError × Output
    unfolding write_raw
    respond none o = (ok tt, o)
    respond (some response) o = write_raw response o

    unfoldable pub run_json_rpc : List Incoming → Output → Result (Unit {0}) McpServerError × Output
    unfolding respond process_json_rpc trim_newlines
    run_json_rpc [] o = (ok tt, o)
    run_json_rpc (cancelled ∷ inputs) o = (ok tt, o)
    run_json_rpc (read_failed e ∷ inputs) o = (err (io e), o)
    run_json_rpc (received text ∷ inputs) o = elim (is_empty text) [
      | true ↦ (ok tt, o)
      | false ↦ elim (is_empty (trim_newlines text)) [
        | true ↦ run_json_rpc inputs o
        | false ↦
            let (outcome, o') = respond (process_json_rpc (trim_newlines text)) o in
            elim outcome [ err e ↦ (err e, o') | ok _ ↦ run_json_rpc inputs o' ]
      ]
    ]
