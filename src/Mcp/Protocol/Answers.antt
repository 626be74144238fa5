-- ===== src/Mcp/Protocol/Answers.antt =====
-- The answers that src/mcp/protocol.rs gives to a batch, and the texts that it writes.
use palingenesis.Prelude.{
  ◌≡◌, ◌∙◌, refl, sym, if◌then◌else◌, Bool, true, false, not, ◌&&◌, Option, none, some, List, [],
  ◌∷◌, map, filter_map, cons?, all, All, Result, ok, err, is_some, or_else, Option-cases,
  Result-cases, Bool-cases, inl, inr,
}
use palingenesis.Prelude.Text.{Text, codes, text_eq, trim, is_empty}
use palingenesis.Prelude.Text.Lines.{stays}
use palingenesis.Mcp.Protocol.{
  JsonRpcRequest, JsonRpcResponse, JsonRpcError, JsonRpcHandler, Json, jsonrpc_version, success,
  error_response, new_error, bad_request, internal, parse_failed, parse_request, answer,
  answer_request, process_value, serialize_response, serialize_batch, process_batch, process_single,
  process_input,
}

module _ {V : Type 0} where
  -- A request of this version, with a method.
  abbrev pub is_valid : JsonRpcRequest V → Bool
  is_valid request = text_eq request.jsonrpc jsonrpc_version && not (is_empty (trim request.method))

  -- An answer has this version, and either a result or an error.
  abbrev pub IsAnswer : JsonRpcResponse V → Type 0
  IsAnswer r = (r.jsonrpc ≡ jsonrpc_version) × (is_some r.result ≡ not (is_some r.error))

  abbrev due_to : V → JsonRpcRequest V → Option V
  due_to null request = elim (is_valid request) [ true ↦ request.id | false ↦ some null ]

  due_to-is_valid :
      (b : Bool) (null : V) (request : JsonRpcRequest V)
      → is_valid request ≡ b
      → due_to null request ≡ (if b then request.id else some null)
  due_to-is_valid true null request h = rw (due_to, h) refl
  due_to-is_valid false null request h = rw (due_to, h) refl

  -- The ID under which an answer to an item is due: none for a notification, null if the item is
  -- no valid request.
  unfoldable pub due : Json V → V → Option V
  unfolding text_eq codes trim
  due json value = elim (json.request_from_value value) [
    | none ↦ some json.null
    | some request ↦ due_to json.null request
  ]

  abbrev id_of : JsonRpcResponse V → V
  id_of r = r.id

  unfoldable pub map_id : Option (JsonRpcResponse V) → Option V
  map_id none = none
  map_id (some r) = some r.id

  abbrev MaybeIsAnswer : Option (JsonRpcResponse V) → Type 0
  MaybeIsAnswer none = Unit {0}
  MaybeIsAnswer (some r) = IsAnswer r

  cons?-due :
      (o : Option (JsonRpcResponse V)) (d : Option V) (responses : List (JsonRpcResponse V))
      (ids : List V)
      → map_id o ≡ d
      → MaybeIsAnswer o
      → map id_of responses ≡ ids
      → All IsAnswer responses
      → (map id_of (cons? o responses) ≡ cons? d ids) × All IsAnswer (cons? o responses)
  unfolding map_id
  cons?-due none none responses ids same good rest all_good = (rest, all_good)
  cons?-due (some r) (some i) responses ids same good rest all_good = (cc, (good, all_good))
  cons?-due none (some i) responses ids same good rest all_good = cc
  cons?-due (some r) none responses ids same good rest all_good = cc

module _ {V : Type 0} (json : Json V) (handle : JsonRpcHandler V) where
  answer-IsAnswer : (id : V) (r : Result V (JsonRpcError V)) → IsAnswer (answer json id r)
  unfolding success error_response
  answer-IsAnswer id (ok result) = (refl, refl)
  answer-IsAnswer id (err e) = (refl, refl)

  answer_request-due :
      (request : JsonRpcRequest V)
      → (map_id (answer_request json handle request) ≡ request.id)
        × MaybeIsAnswer (answer_request json handle request)
  unfolding map_id success error_response
  answer_request-due request = elim (Option-cases request.id) [
    | inl quiet ↦ rw quiet (refl, tt)
    | inr (id, asked) ↦ elim (Result-cases (handle request.method request.params)) [
      | inl (result, h) ↦ rw (asked, h) (refl, (refl, refl))
      | inr (e, h) ↦ rw (asked, h) (refl, (refl, refl))
    ]
  ]

  -- One value is answered as it is due.
  pub process_value-due :
      (value : V)
      → (map_id (process_value json handle value) ≡ due json value)
        × MaybeIsAnswer (process_value json handle value)
  unfolding process_value parse_request due map_id success error_response
  process_value-due value = elim (Option-cases (json.request_from_value value)) [
    | inl malformed ↦ rw (process_value, parse_request, due, malformed) (refl, (refl, refl))
    | inr (request, formed) ↦ elim (Bool-cases (text_eq request.jsonrpc jsonrpc_version)) [
      | inr other ↦
          rw (process_value, parse_request, due, formed, other)
            (sym (due_to-is_valid false json.null request (rw other refl)), (refl, refl))
      | inl same ↦ elim (Bool-cases (is_empty (trim request.method))) [
        | inl blank ↦
            rw (process_value, parse_request, due, formed, same, blank)
              (sym (due_to-is_valid false json.null request (rw (same, blank) refl)), (refl, refl))
        | inr named ↦
            let (asked, good) = answer_request-due request in
            rw (process_value, parse_request, due, formed, same, named)
              (asked ∙ sym (due_to-is_valid true json.null request (rw (same, named) refl)), good)
      ]
    ]
  ]

  filter_map-due :
      (items : List V)
      → (map id_of (filter_map (process_value json handle) items) ≡ filter_map (due json) items)
        × All IsAnswer (filter_map (process_value json handle) items)
  filter_map-due [] = (refl, tt)
  filter_map-due (item ∷ items) =
      let (same, good) = process_value-due item in
      let (rest, all_good) = filter_map-due items in
      cons?-due (process_value json handle item) (due json item) _ _ same good rest all_good

  -- A batch that is not empty is answered by an array (or by nothing, if no answer is due) whose
  -- answers are, in the order of the items, one under the ID of every request and one under null
  -- for every item that is no valid request, and none for a notification; each has the version of
  -- the protocol and either a result or an error.
  pub process_batch-due :
      (item : V) (items : List V)
      → (responses : List (JsonRpcResponse V)) × (process_batch json handle (item ∷ items)
          ≡ serialize_batch json responses)
        × (map id_of responses ≡ filter_map (due json) (item ∷ items))
        × All IsAnswer responses
  unfolding process_batch
  process_batch-due item items = (
    filter_map (process_value json handle) (item ∷ items),
    refl,
    (filter_map-due (item ∷ items)).0,
    (filter_map-due (item ∷ items)).1,
  )

  module _ (compact : (v : V) (s : Text) → json.to_string v ≡ some s → all stays s ≡ true) where
    -- A text that is written, if there is one, is one line.
    abbrev pub OneLine : Option Text → Type 0
    OneLine o = (s : Text) → o ≡ some s → all stays s ≡ true

    or_else-OneLine : (o p : Option Text) → OneLine o → OneLine p → OneLine (or_else o p)
    or_else-OneLine none p h k = k
    or_else-OneLine (some s) p h k = h

    none-OneLine : OneLine none
    none-OneLine s h = cc

    serialize_response-OneLine : (r : JsonRpcResponse V) → OneLine (serialize_response json r)
    unfolding serialize_response
    serialize_response-OneLine r = or_else-OneLine _ _ (compact _) (compact _)

    serialize_batch-OneLine :
        (responses : List (JsonRpcResponse V)) → OneLine (serialize_batch json responses)
    unfolding serialize_batch
    serialize_batch-OneLine [] = none-OneLine
    serialize_batch-OneLine (r ∷ responses) =
        or_else-OneLine _ _ (compact _)
          (serialize_response-OneLine (error_response json.null (new_error internal none)))

    process_batch-OneLine : (items : List V) → OneLine (process_batch json handle items)
    unfolding process_batch
    process_batch-OneLine [] =
        serialize_response-OneLine (error_response json.null (new_error bad_request none))
    process_batch-OneLine (item ∷ items) = serialize_batch-OneLine _

    process_single-OneLine : (value : V) → OneLine (process_single json handle value)
    unfolding process_single
    process_single-OneLine value = elim (Option-cases (process_value json handle value)) [
      | inl quiet ↦ rw quiet none-OneLine
      | inr (r, h) ↦ rw h (serialize_response-OneLine r)
    ]

    pub process_input-OneLine : (input : Text) → OneLine (process_input json handle input)
    unfolding process_input
    process_input-OneLine input = elim (Option-cases (json.from_str input)) [
      | inl malformed ↦
          rw (process_input, malformed)
            (serialize_response-OneLine (error_response json.null (new_error parse_failed none)))
      | inr (value, h) ↦ elim (Option-cases (json.as_array value)) [
        | inl one ↦ rw (process_input, h, one) (process_single-OneLine value)
        | inr (items, many) ↦ rw (process_input, h, many) (process_batch-OneLine items)
      ]
    ]
