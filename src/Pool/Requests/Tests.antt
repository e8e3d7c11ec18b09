-- ===== src/Pool/Requests/Tests.antt =====
-- A chat request with one message.
use openmate.Base.{codes, ok, err, none, some, All, In, ◌≡◌, ◌↔◌}
use openmate.Base.Json.{Json, Fields, empty_fields, field, empty_items, item, lookup_field}
use openmate.Pool.Requests.{chat_model_set, messages_required, validate_chat_completions}
use openmate.Pool.Requests.Chat.{HasMessages, chat_fields, keys, validate_chat_completions_iff}

abbrev greeting : Fields
greeting =
    field (codes "messages") (Json.array (item (Json.text (codes "hi")) empty_items)) empty_fields

validate_chat_completions_iff_example :
    ((validate_chat_completions greeting ≡ ok tt) ↔ (
      HasMessages (lookup_field (codes "messages") greeting)
      × All (λ key. In key chat_fields) (keys greeting)))
    × ((validate_chat_completions greeting ≡ err chat_model_set)
        ↔ ((value : Json) × (lookup_field (codes "model") greeting ≡ some value)))
    × ((validate_chat_completions greeting ≡ err messages_required) ↔ (
        (lookup_field (codes "model") greeting ≡ none)
        × ¬ (HasMessages (lookup_field (codes "messages") greeting))))
validate_chat_completions_iff_example = validate_chat_completions_iff greeting
