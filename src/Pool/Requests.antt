-- ===== src/Pool/Requests.antt =====
-- internal/poolgateway/openai_responses.go: which requests an invocation accepts. `normalizeRequest`
-- there is the identity. A request decoded from JSON holds its messages as `[]any`.
pub mod Chat
mod Tests
use openmate.Base.{
  GoString, codes, ◌=?◌, Option, none, some, List, [], ◌∷◌, ◌++◌, any, is_empty, Bool, true, false,
  not, if◌then◌else◌, Result, ok, ◌>>◌, guard, trim_space,
}
use openmate.Base.Json.{
  Json, Items, Fields, empty_items, item, empty_fields, field, lookup_field, is_empty_object,
}
use openmate.Pool.Types.{InvokeRequest}

pub data RequestError : Type 0 where
  request_id_required node_id_required exactly_one_request : RequestError
  input_required model_set chat_model_set messages_required : RequestError
  chat_required responses_required : RequestError
  legacy_chat_field unsupported_field : GoString → RequestError

abbrev pub Accepted : Type 0
Accepted = Result RequestError (Unit {0})

abbrev pub has_key : GoString → Fields → Bool
has_key key fields = elim (lookup_field key fields) [ none ↦ false | some value ↦ true ]

abbrev is_present : Option Json → Bool
is_present none = false
is_present (some Json.null) = false
is_present (some _) = true

abbrev legacy_chat_fields : List GoString
legacy_chat_fields =
    codes "messages"
    ∷ codes "functions"
    ∷ codes "function_call"
    ∷ codes "tool_calls"
    ∷ codes "max_tokens"
    ∷ []

-- The loop over the fields that belong to the other interface.
unfoldable pub refuse_fields : List GoString → Fields → Accepted
unfolding lookup_field
refuse_fields [] request = ok tt
refuse_fields (key ∷ keys) request =
    guard (not (has_key key request)) (legacy_chat_field key) >> refuse_fields keys request

-- `validateResponsesInvokeRequest`
unfoldable pub validate_responses : Fields → Accepted
unfolding lookup_field refuse_fields
validate_responses request = do
  guard (is_present (lookup_field (codes "input") request)) input_required
  guard (not (has_key (codes "model") request)) model_set
  refuse_fields legacy_chat_fields request

abbrev is_empty_array : Items → Bool
is_empty_array empty_items = true
is_empty_array (item value items) = false

-- `hasNonEmptyMessages`
unfoldable pub has_non_empty_messages : Option Json → Bool
has_non_empty_messages (some (Json.array items)) = not (is_empty_array items)
has_non_empty_messages _ = false

abbrev pub allowed_fields : List GoString
allowed_fields =
    codes "messages"
    ∷ codes "tools"
    ∷ codes "tool_choice"
    ∷ codes "response_format"
    ∷ codes "temperature"
    ∷ codes "top_p"
    ∷ codes "max_tokens"
    ∷ codes "user"
    ∷ codes "store"
    ∷ codes "stream"
    ∷ []

-- The loop over the keys; Go's order of them is not fixed, here it is that of the list.
unfoldable pub allow_fields : Fields → Accepted
allow_fields empty_fields = ok tt
allow_fields (field key value rest) =
    guard (any (λ name. name =? key) allowed_fields) (unsupported_field key) >> allow_fields rest

-- `validateChatCompletionsInvokeRequest`
unfoldable pub validate_chat_completions : Fields → Accepted
unfolding lookup_field has_non_empty_messages allow_fields
validate_chat_completions request = do
  guard (not (has_key (codes "model") request)) chat_model_set
  guard (has_non_empty_messages (lookup_field (codes "messages") request)) messages_required
  allow_fields request

abbrev has_responses : InvokeRequest → Bool
has_responses request = not (is_empty_object request.request)

abbrev has_chat : InvokeRequest → Bool
has_chat request = not (is_empty_object request.chat_request)

-- `hasResponses != hasChat`
abbrev exactly_one : InvokeRequest → Bool
exactly_one request = if has_responses request then not (has_chat request) else has_chat request

-- `validateInvokeRequest`
unfoldable pub validate_invoke_request : InvokeRequest → Accepted
unfolding trim_space validate_responses validate_chat_completions
validate_invoke_request request = do
  guard (not (is_empty (trim_space request.request_id))) request_id_required
  guard (not (is_empty (trim_space request.node_id))) node_id_required
  guard (exactly_one request) exactly_one_request
  (if has_responses request
      then validate_responses request.request
      else validate_chat_completions request.chat_request)

-- `normalizeAPIMode(mode) == APIModeChatCompletions`
unfoldable pub is_chat_mode : GoString → Bool
unfolding trim_space
is_chat_mode mode = trim_space mode =? codes "chat_completions"

-- `validateInvokeRequestForMode`
unfoldable pub validate_for_mode : InvokeRequest → GoString → Accepted
unfolding is_chat_mode validate_responses validate_chat_completions
validate_for_mode request mode = do
  guard (exactly_one request) exactly_one_request
  (if is_chat_mode mode
      then (guard (has_chat request) chat_required
          >> validate_chat_completions request.chat_request)
      else (guard (has_responses request) responses_required >> validate_responses request.request))

-- The text of the error.
unfoldable pub error_text : RequestError → GoString
error_text request_id_required = codes "request_id is required"
error_text node_id_required = codes "node_id is required"
error_text exactly_one_request = codes "exactly one of request or chat_request is required"
error_text input_required = codes "request.input is required"
error_text model_set = codes "request.model must not be set; model comes from model.json"
error_text chat_model_set = codes "chat_request.model must not be set; model comes from model.json"
error_text messages_required = codes "chat_request.messages is required"
error_text chat_required = codes "chat_request is required for api_mode=chat_completions"
error_text responses_required = codes "request is required for api_mode=responses"
error_text (legacy_chat_field key) =
    codes "request."
    ++ key
    ++ codes " is ChatCompletions-only and is not supported; use Responses API fields"
error_text (unsupported_field key) = codes "chat_request." ++ key ++ codes " is not supported"
