-- ===== src/Base/Json.antt =====
-- The values of Go's `any` as encoding/json decodes them; `map[string]any` is `Fields`.
use mathlib.Core.Bool.{Bool, true, false}
use mathlib.Core.Option.{Option, none, some}
use openmate.Base.Tests.{if◌then◌else◌}
use openmate.Base.Strings.{GoString, ◌=?◌}

mutual
  pub data Json : Type 0 where
    null : Json
    bool : Bool → Json
    number : GoString → Json
    text : GoString → Json
    array : Items → Json
    object : Fields → Json

  pub data Items : Type 0 where
    empty_items : Items
    item : Json → Items → Items

  pub data Fields : Type 0 where
    empty_fields : Fields
    field : GoString → Json → Fields → Fields

-- `value, exists := fields[key]`
unfoldable pub lookup_field : GoString → Fields → Option Json
lookup_field key empty_fields = none
lookup_field key (field name value rest) = if name =? key then some value else lookup_field key rest

abbrev pub is_empty_object : Fields → Bool
is_empty_object empty_fields = true
is_empty_object (field name value rest) = false
