-- ===== src/Pool/Requests/Chat.antt =====
-- What a chat request must be.
use openmate.Base.{
  GoString, codes, ◌=?◌, any, List, [], ◌∷◌, In, All, Option, none, some, true, false, ok, err, ◌≡◌,
  refl, ◌↔◌, arith, str_dec, ℕ_discrete, Bool-cases, Option-cases, inl, inr, subst, sym,
  Result-cases,
}
use openmate.Base.Json.{Json, Items, Fields, empty_items, item, empty_fields, field, lookup_field}
use openmate.Pool.Requests.{
  RequestError, chat_model_set, messages_required, unsupported_field, validate_chat_completions,
  allow_fields, has_non_empty_messages, has_key,
}

unfoldable pub keys : Fields → List GoString
keys empty_fields = []
keys (field key value rest) = key ∷ keys rest

-- The fields of a chat request.
abbrev pub chat_fields : List GoString
chat_fields =
    codes "messages"
    ∷ codes "tools"
    ∷ codes "tool_choice"
    ∷ codes "response_format"
    ∷ codes "temperature"
    ∷ codes "top_p"
    ∷ codes "max_tokens"
    ∷ codes "user"
    ∷ codes "store"
    ∷ codes "stream"
    ∷ []

-- The value is a list with a first message.
abbrev pub HasMessages : Option Json → Type 0
HasMessages value = (first : Json) × (rest : Items) × (value ≡ some (Json.array (item first rest)))

has_non_empty_messages-HasMessages :
    (value : Option Json) → (has_non_empty_messages value ≡ true) ↔ HasMessages value
unfolding has_non_empty_messages
has_non_empty_messages-HasMessages none =
    ((λ h. absurd (ground (arith, h))), (λ (a, b, h). absurd (ground (arith, h))))
has_non_empty_messages-HasMessages (some (Json.array (item first rest))) =
    ((λ h. (first, rest, refl)), (λ h. refl))
has_non_empty_messages-HasMessages (some (Json.array empty_items)) =
    ((λ h. absurd (ground (arith, h))), (λ (a, b, h). absurd (ground (arith, h))))
has_non_empty_messages-HasMessages (some Json.null) =
    ((λ h. absurd (ground (arith, h))), (λ (a, b, h). absurd (ground (arith, h))))
has_non_empty_messages-HasMessages (some (Json.bool b)) =
    ((λ h. absurd (ground (arith, h))), (λ (a, b, h). absurd (ground (arith, h))))
has_non_empty_messages-HasMessages (some (Json.number n)) =
    ((λ h. absurd (ground (arith, h))), (λ (a, b, h). absurd (ground (arith, h))))
has_non_empty_messages-HasMessages (some (Json.text s)) =
    ((λ h. absurd (ground (arith, h))), (λ (a, b, h). absurd (ground (arith, h))))
has_non_empty_messages-HasMessages (some (Json.object fields)) =
    ((λ h. absurd (ground (arith, h))), (λ (a, b, h). absurd (ground (arith, h))))

any-In :
    (key : GoString) (names : List GoString)
    → (any (λ name. name =? key) names ≡ true) ↔ In key names
any-In key [] = ground arith
any-In key (name ∷ names) = ground (arith, any-In key names)

allow_fields_iff :
    (request : Fields)
    → (allow_fields request ≡ ok tt) ↔ All (λ key. In key chat_fields) (keys request)
unfolding allow_fields keys
allow_fields_iff empty_fields = ground arith
allow_fields_iff (field key value rest) =
    ground (arith, any-In key chat_fields, allow_fields_iff rest)

allow_fields-err :
    (request : Fields) (e : RequestError)
    → allow_fields request ≡ err e
    → (key : GoString) × (e ≡ unsupported_field key)
unfolding allow_fields
allow_fields-err empty_fields e h = absurd (ground (arith, h))
allow_fields-err (field key value rest) e h =
    elim (Bool-cases (any (λ name. name =? key) chat_fields)) [
      | inl k ↦ allow_fields-err rest e (ground (arith, h, k))
      | inr k ↦ (key, ground (arith, h, k))
    ]

model_not_allowed : any (λ name. name =? codes "model") chat_fields ≡ false
unfolding str_dec ℕ_discrete
model_not_allowed = refl

allowed-no_model :
    (request : Fields)
    → All (λ key. In key chat_fields) (keys request)
    → lookup_field (codes "model") request ≡ none
unfolding keys lookup_field
allowed-no_model empty_fields h = refl
allowed-no_model (field key value rest) h = elim (Bool-cases (key =? codes "model")) [
  | inl e ↦
      let same : key ≡ codes "model" = ground (arith, e) in
      let refused =
        subst (λ (k : GoString). any (λ name. name =? k) chat_fields ≡ false) (sym same)
          model_not_allowed in
      absurd (ground (arith, refused, any-In key chat_fields, h.0))
  | inr e ↦ rw e (allowed-no_model rest h.1)
]

-- The three first outcomes of the guards, in the terms of the code.
module _ (request : Fields) where
  outcome_model :
      (validate_chat_completions request ≡ err chat_model_set)
      ↔ (has_key (codes "model") request ≡ true)
  unfolding validate_chat_completions
  outcome_model = elim (Result-cases (allow_fields request)) [
    | inl (e, k) ↦ let (key, is) = allow_fields-err request e k in ground (arith, k, is)
    | inr (u, k) ↦ ground (arith, k)
  ]

  outcome_messages : (validate_chat_completions request ≡ err messages_required) ↔ (
      (has_key (codes "model") request ≡ false)
      × (has_non_empty_messages (lookup_field (codes "messages") request) ≡ false))
  unfolding validate_chat_completions
  outcome_messages = elim (Result-cases (allow_fields request)) [
    | inl (e, k) ↦ let (key, is) = allow_fields-err request e k in ground (arith, k, is)
    | inr (u, k) ↦ ground (arith, k)
  ]

  outcome_ok : (validate_chat_completions request ≡ ok tt) ↔ (
      (has_key (codes "model") request ≡ false)
      × (has_non_empty_messages (lookup_field (codes "messages") request) ≡ true)
      × (allow_fields request ≡ ok tt))
  unfolding validate_chat_completions
  outcome_ok = ground arith

has_key_iff :
    (key : GoString) (request : Fields)
    → (has_key key request ≡ true) ↔ ((value : Json) × (lookup_field key request ≡ some value))
has_key_iff key request = elim (Option-cases (lookup_field key request)) [
  | inl e ↦ ((λ h. absurd (ground (arith, h, e))), (λ (v, h). absurd (ground (arith, h, e))))
  | inr (value, e) ↦ ((λ h. (value, e)), (λ h. ground (arith, e)))
]

has_key-none :
    (key : GoString) (request : Fields)
    → (has_key key request ≡ false) ↔ (lookup_field key request ≡ none)
has_key-none key request = elim (Option-cases (lookup_field key request)) [
  | inl e ↦ ground (arith, e)
  | inr (value, e) ↦ ground (arith, e)
]

no_messages_iff :
    (value : Option Json) → (has_non_empty_messages value ≡ false) ↔ (¬ (HasMessages value))
no_messages_iff value = elim (Bool-cases (has_non_empty_messages value)) [
  | inl e ↦ (
    (λ h. absurd (ground (arith, h, e))),
    (λ h. absurd (h ((has_non_empty_messages-HasMessages value).0 e))),
  )
  | inr e ↦ (
    (λ h m. absurd (ground (arith, e, (has_non_empty_messages-HasMessages value).1 m))),
    (λ h. e),
  )
]

-- A chat request is accepted exactly when its messages are a list with a first message and each
-- of its keys is a field of a chat request. It is refused for its model exactly when it sets
-- one, and for its messages exactly when it sets no model and has no such list.
pub validate_chat_completions_iff :
    (request : Fields)
    → ((validate_chat_completions request ≡ ok tt) ↔ (
        HasMessages (lookup_field (codes "messages") request)
        × All (λ key. In key chat_fields) (keys request)))
      × ((validate_chat_completions request ≡ err chat_model_set)
          ↔ ((value : Json) × (lookup_field (codes "model") request ≡ some value)))
      × ((validate_chat_completions request ≡ err messages_required) ↔ (
          (lookup_field (codes "model") request ≡ none)
          × ¬ (HasMessages (lookup_field (codes "messages") request))))
validate_chat_completions_iff request =
    let messages = lookup_field (codes "messages") request in
    let (out, into) = outcome_ok request in
    let (refused, refuse) = outcome_messages request in
    let (set, sets) = has_key_iff (codes "model") request in
    let (unset, unsets) = has_key-none (codes "model") request in
    (
      (
        (λ h.
            let (model, given, allowed) = out h in
            (
              (has_non_empty_messages-HasMessages messages).0 given,
              (allow_fields_iff request).0 allowed,
            )),
        (λ (given, allowed). into (
          unsets (allowed-no_model request allowed),
          (has_non_empty_messages-HasMessages messages).1 given,
          (allow_fields_iff request).1 allowed,
        )),
      ),
      ((λ h. set ((outcome_model request).0 h)), (λ h. (outcome_model request).1 (sets h))),
      (
        (λ h.
            let (model, none_given) = refused h in
            (unset model, (no_messages_iff messages).0 none_given)),
        (λ (model, none_given). refuse (unsets model, (no_messages_iff messages).1 none_given)),
      ),
    )
