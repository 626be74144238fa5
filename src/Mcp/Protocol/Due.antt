-- ===== src/Mcp/Protocol/Due.antt =====
-- When src/mcp/protocol.rs writes an answer at all.
use palingenesis.Prelude.{
  ◌≡◌, ◌∙◌, refl, ap, Bool, true, false, not, ◌||◌, Option, none, some, List, [], ◌∷◌, filter_map,
  cons?, is_some, or_else, Option-cases, inl, inr,
}
use palingenesis.Prelude.Text.{Text, is_empty}
use palingenesis.Mcp.Protocol.{
  JsonRpcResponse, JsonRpcHandler, Json, error_response, new_error, bad_request, parse_failed,
  process_value, serialize_response, serialize_batch, serialize_single, process_batch,
  process_single, process_input,
}
use palingenesis.Mcp.Protocol.Answers.{due, map_id, process_value-due}

module _ {V : Type 0} (json : Json V) where
  any_due : List V → Bool
  any_due [] = false
  any_due (item ∷ items) = is_some (due json item) || any_due items

  -- Whether an array is to be answered: an empty one is an error.
  batch_due : List V → Bool
  unfolding any_due
  batch_due [] = true
  batch_due (item ∷ items) = any_due (item ∷ items)

  -- Whether an answer to a text is due.
  unfoldable pub answer_due : Text → Bool
  unfolding batch_due
  answer_due input = elim (json.from_str input) [
    | none ↦ true
    | some value ↦ elim (json.as_array value) [
      | some items ↦ batch_due items
      | none ↦ is_some (due json value)
    ]
  ]

  module _ (handle : JsonRpcHandler V)
      (serializes : (v : V) → is_some (json.to_string v) ≡ true) where
    or_else-some : (o p : Option Text) → is_some o ≡ true → is_some (or_else o p) ≡ true
    or_else-some (some s) p h = refl
    or_else-some none p h = cc

    serialize_response-some : (r : JsonRpcResponse V) → is_some (serialize_response json r) ≡ true
    unfolding serialize_response
    serialize_response-some r = or_else-some _ _ (serializes _)

    serialize_batch-some :
        (responses : List (JsonRpcResponse V))
        → is_some (serialize_batch json responses) ≡ not (is_empty responses)
    unfolding serialize_batch
    serialize_batch-some [] = refl
    serialize_batch-some (r ∷ responses) = or_else-some _ _ (serializes _)

    serialize_single-some :
        (o : Option (JsonRpcResponse V)) → is_some (serialize_single json o) ≡ is_some (map_id o)
    unfolding map_id
    serialize_single-some none = refl
    serialize_single-some (some r) = serialize_response-some r

    cons?-some :
        (o : Option (JsonRpcResponse V)) (responses : List (JsonRpcResponse V))
        → not (is_empty (cons? o responses)) ≡ is_some (map_id o) || not (is_empty responses)
    unfolding map_id
    cons?-some none responses = refl
    cons?-some (some r) responses = refl

    batch-any_due :
        (items : List V)
        → not (is_empty (filter_map (process_value json handle) items)) ≡ any_due items
    unfolding any_due
    batch-any_due [] = refl
    batch-any_due (item ∷ items) =
        cons?-some (process_value json handle item) (filter_map (process_value json handle) items)
        ∙ ap (λ o. is_some o || not (is_empty (filter_map (process_value json handle) items)))
            (process_value-due json handle item).0
        ∙ ap (λ b. is_some (due json item) || b) (batch-any_due items)

    is_some-process_batch :
        (items : List V) → is_some (process_batch json handle items) ≡ batch_due items
    unfolding process_batch batch_due
    is_some-process_batch [] =
        serialize_response-some (error_response json.null (new_error bad_request none))
    is_some-process_batch (item ∷ items) =
        serialize_batch-some (filter_map (process_value json handle) (item ∷ items))
        ∙ batch-any_due (item ∷ items)

    is_some-process_single :
        (value : V) → is_some (process_single json handle value) ≡ is_some (due json value)
    unfolding process_single
    is_some-process_single value =
        serialize_single-some (process_value json handle value)
        ∙ ap is_some (process_value-due json handle value).0

    -- A text is answered if an answer is due.
    pub process_input-answer_due :
        (input : Text) → is_some (process_input json handle input) ≡ answer_due input
    unfolding process_input answer_due
    process_input-answer_due input = elim (Option-cases (json.from_str input)) [
      | inl malformed ↦
          rw (process_input, answer_due, malformed)
            (serialize_response-some (error_response json.null (new_error parse_failed none)))
      | inr (value, h) ↦ elim (Option-cases (json.as_array value)) [
        | inl one ↦ rw (process_input, answer_due, h, one) (is_some-process_single value)
        | inr (items, many) ↦ rw (process_input, answer_due, h, many) (is_some-process_batch items)
      ]
    ]
