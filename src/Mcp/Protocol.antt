-- ===== src/Mcp/Protocol.antt =====
-- src/mcp/protocol.rs: JSON-RPC requests and their answers. JSON values are those of serde_json:
-- the type of values and its operations are parameters, as is the deserialisation of a request, in
-- which a missing and a null `id` are the same.
pub mod Answers
pub mod Due
use palingenesis.Prelude.{
  ℕ, Bool, true, false, not, ◌||◌, Option, none, some, List, [], ◌∷◌, ◌++◌, map, filter_map, cons?,
  Result, ok, err, is_some, or_else, if◌then◌else◌,
}
use palingenesis.Prelude.Text.{Text, codes, text_eq, trim, is_empty}
use palingenesis.Prelude.Int.{ℤ, pos, negsuc}

abbrev pub jsonrpc_version : Text
jsonrpc_version = codes "2.0"

abbrev pub mcp_protocol_version : Text
mcp_protocol_version = codes "2024-11-05"

pub data ErrorCode : Type 0 where
  parse_failed bad_request no_such_method bad_params internal : ErrorCode

unfoldable pub code_of : ErrorCode → ℤ
code_of parse_failed = negsuc 32699
code_of bad_request = negsuc 32599
code_of no_such_method = negsuc 32600
code_of bad_params = negsuc 32601
code_of internal = negsuc 32602

unfoldable pub message_of : ErrorCode → Text
unfolding codes
message_of parse_failed = codes "Parse error"
message_of bad_request = codes "Invalid Request"
message_of no_such_method = codes "Method not found"
message_of bad_params = codes "Invalid params"
message_of internal = codes "Internal error"

pub record JsonRpcError (V : Type 0) : Type 0 where
  pub code : ℤ  -- i32
  pub message : Text
  pub data_ : Option V

pub record JsonRpcRequest (V : Type 0) : Type 0 where
  pub jsonrpc : Text
  pub method : Text
  pub params : Option V
  pub id : Option V

pub record JsonRpcResponse (V : Type 0) : Type 0 where
  pub jsonrpc : Text
  pub result : Option V
  pub error : Option (JsonRpcError V)
  pub id : V

-- What the code uses of serde_json.
pub record Json (V : Type 0) : Type 0 where
  pub from_str : Text → Option V
  pub as_array : V → Option (List V)
  -- `from_value` at the type of requests.
  pub request_from_value : V → Option (JsonRpcRequest V)
  pub null : V
  pub number : ℤ → V
  pub string : Text → V
  pub array : List V → V
  pub object : List (Text × V) → V
  pub to_string : V → Option Text

-- The trait `JsonRpcHandler`.
abbrev pub JsonRpcHandler : Type 0 → Type 0
JsonRpcHandler V = Text → Option V → Result V (JsonRpcError V)

module _ {V : Type 0} where
  unfoldable pub new_error : ErrorCode → Option V → JsonRpcError V
  unfolding code_of message_of
  new_error code data_ = record { code = code_of code; message = message_of code; data_ = data_ }

  unfoldable pub is_notification : JsonRpcRequest V → Bool
  is_notification request = not (is_some request.id)

  unfoldable pub success : V → V → JsonRpcResponse V
  unfolding codes
  success id result = record {
    jsonrpc = jsonrpc_version;
    result = some result;
    error = none;
    id = id;
  }

  unfoldable pub error_response : V → JsonRpcError V → JsonRpcResponse V
  unfolding codes
  error_response id error = record {
    jsonrpc = jsonrpc_version;
    result = none;
    error = some error;
    id = id;
  }

-- An entry that is skipped if there is no value.
abbrev pub entry {ℓ} : {A : Type ℓ} {V : Type 0} → Text → (A → V) → Option A → Option (Text × V)
entry key f none = none
entry key f (some a) = some (key, f a)

module _ {V : Type 0} (json : Json V) where
  -- The serialisation that is derived from the fields.
  unfoldable pub error_value : JsonRpcError V → V
  unfolding codes
  error_value e = json.object (
      (codes "code", json.number e.code)
      ∷ (codes "message", json.string e.message)
      ∷ cons? (entry (codes "data") (λ v. v) e.data_) [])

  unfoldable pub response_value : JsonRpcResponse V → V
  unfolding codes error_value
  response_value r = json.object (
      (codes "jsonrpc", json.string r.jsonrpc)
      ∷ cons? (entry (codes "result") (λ v. v) r.result)
          (cons? (entry (codes "error") error_value r.error) ((codes "id", r.id) ∷ [])))

  unfoldable pub default_initialize_response : (version : Text) → V
  unfolding codes
  default_initialize_response version = json.object (
      (codes "protocolVersion", json.string mcp_protocol_version)
      ∷ (
        codes "serverInfo",
        json.object (
            (codes "name", json.string (codes "palingenesis"))
            ∷ (codes "version", json.string version)
            ∷ []),
      )
      ∷ (codes "capabilities", json.object ((codes "tools", json.object []) ∷ []))
      ∷ [])

  unfoldable pub serialize_response : JsonRpcResponse V → Option Text
  unfolding response_value new_error error_response
  serialize_response response =
      or_else (json.to_string (response_value response))
        (json.to_string (response_value (error_response json.null (new_error internal none))))

  unfoldable pub parse_request : V → Result (JsonRpcRequest V) (JsonRpcError V)
  unfolding new_error codes text_eq trim
  parse_request value = elim (json.request_from_value value) [
    | none ↦ err (new_error bad_request none)
    | some request ↦
        if not (text_eq request.jsonrpc jsonrpc_version) || is_empty (trim request.method)
        then err (new_error bad_request none)
        else ok request
  ]

  -- The answer with an ID.
  abbrev pub answer : V → Result V (JsonRpcError V) → JsonRpcResponse V
  answer id (ok result) = success id result
  answer id (err error) = error_response id error

  -- A notification is handled and not answered.
  abbrev pub answer_request : JsonRpcHandler V → JsonRpcRequest V → Option (JsonRpcResponse V)
  answer_request handle request = elim (request.id) [
    | none ↦ none
    | some id ↦ some (answer id (handle request.method request.params))
  ]

  unfoldable pub process_value : JsonRpcHandler V → V → Option (JsonRpcResponse V)
  unfolding parse_request success error_response
  process_value handle value = elim (parse_request value) [
    | err error ↦ some (error_response json.null error)
    | ok request ↦ answer_request handle request
  ]

  -- The answers to a batch, in one array.
  unfoldable pub serialize_batch : List (JsonRpcResponse V) → Option Text
  unfolding response_value serialize_response
  serialize_batch [] = none
  serialize_batch (r ∷ responses) =
      or_else (json.to_string (json.array (map response_value (r ∷ responses))))
        (serialize_response (error_response json.null (new_error internal none)))

  unfoldable pub process_batch : JsonRpcHandler V → List V → Option Text
  unfolding process_value serialize_batch
  process_batch handle [] =
      serialize_response (error_response json.null (new_error bad_request none))
  process_batch handle (item ∷ items) =
      serialize_batch (filter_map (process_value handle) (item ∷ items))

  abbrev pub serialize_single : Option (JsonRpcResponse V) → Option Text
  serialize_single none = none
  serialize_single (some response) = serialize_response response

  unfoldable pub process_single : JsonRpcHandler V → V → Option Text
  unfolding process_value serialize_response
  process_single handle value = serialize_single (process_value handle value)

  unfoldable pub process_input : JsonRpcHandler V → Text → Option Text
  unfolding process_single process_batch
  process_input handle input = elim (json.from_str input) [
    | none ↦ serialize_response (error_response json.null (new_error parse_failed none))
    | some value ↦ elim (json.as_array value) [
      | some items ↦ process_batch handle items
      | none ↦ process_single handle value
    ]
  ]
