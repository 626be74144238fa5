-- ===== src/Tests/Mcp.antt =====
-- src/mcp at a small kind of values, and a few requests.
use mathlib.Core.Path.{subst}
use palingenesis.Prelude.{
  ◌≡◌, refl, Bool, true, Option, none, some, List, [], ◌∷◌, ◌++◌, map, filter_map, all, All, ok,
  is_some,
}
use palingenesis.Prelude.Text.{Text, codes, text_eq, trim, lines}
use palingenesis.Prelude.Text.Lines.{stays}
use palingenesis.Mcp.Protocol.{
  Json, JsonRpcRequest, JsonRpcResponse, process_batch, serialize_batch,
}
use palingenesis.Mcp.Protocol.Answers.{due, IsAnswer, process_batch-due}
use palingenesis.Mcp.Server.{received, run_json_rpc, handle, quiet}
use palingenesis.Mcp.Server.Framing.{reply, is_due, run_json_rpc-lines}

-- Values that keep what the tests look at.
data Value : Type 0 where
  nothing : Value
  word : Text → Value
  request : JsonRpcRequest Text → Value

abbrev value_id : Option Text → Option Value
value_id none = none
value_id (some t) = some (word t)

abbrev request_of : Value → Option (JsonRpcRequest Value)
request_of nothing = none
request_of (word t) = none
request_of (request r) =
    some (record { jsonrpc = r.jsonrpc; method = r.method; params = none; id = value_id r.id })

abbrev asks : Text → Option Text → Value
asks method id = request (record { jsonrpc = codes "2.0"; method = method; params = none; id = id })

abbrev json : Json Value
json = record {
  from_str = λ t. some (asks t (some t));
  as_array = λ v. none;
  request_from_value = request_of;
  null = nothing;
  number = λ n. nothing;
  string = word;
  array = λ l. nothing;
  object = λ l. nothing;
  to_string = λ v. some (codes "{}");
}

abbrev batch : List Value
batch = asks (codes "tools/list") none ∷ nothing ∷ asks (codes "other") (some (codes "2")) ∷ []

process_batch-due_example :
    (responses : List (JsonRpcResponse Value)) × (process_batch json
        (handle json (codes "1.0"))
        (asks (codes "initialize") (some (codes "1")) ∷ batch)
      ≡ serialize_batch json responses)
    × (map (λ r. r.id) responses
        ≡ filter_map (due json) (asks (codes "initialize") (some (codes "1")) ∷ batch))
    × All IsAnswer responses
process_batch-due_example =
    process_batch-due json (handle json (codes "1.0"))
      (asks (codes "initialize") (some (codes "1"))) batch

batch-due : filter_map (due json) batch ≡ nothing ∷ word (codes "2") ∷ []
unfolding due codes text_eq trim
batch-due = refl

serializes : (v : Value) → is_some (json.to_string v) ≡ true
serializes v = refl

compact : (v : Value) (s : Text) → json.to_string v ≡ some s → all stays s ≡ true
unfolding codes
compact v s h = subst (λ o. one_line o ≡ true) h refl
  where
    one_line : Option Text → Bool
    one_line none = true
    one_line (some t) = all stays t

run_json_rpc-lines_example :
    let (outcome, o) =
      run_json_rpc json
        (codes "1.0")
        (λ n. none)
        (map (λ l. received (l ++ 10 ∷ [])) (codes "initialize" ∷ [] ∷ codes "x" ∷ []))
        quiet in
    (outcome ≡ ok tt)
    × (lines o.written
        ≡ filter_map (reply json (codes "1.0")) (codes "initialize" ∷ [] ∷ codes "x" ∷ []))
    × All
        (λ l. is_some (reply json (codes "1.0") l) ≡ is_due json (codes "1.0") l)
        (codes "initialize" ∷ [] ∷ codes "x" ∷ [])
run_json_rpc-lines_example =
    run_json_rpc-lines json (codes "1.0") compact serializes (λ n. none) (λ n. refl)
      (codes "initialize" ∷ [] ∷ codes "x" ∷ [])
