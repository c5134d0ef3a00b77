-- ===== src/Persistence/Json.antt =====
-- JSON values, as the columns of type `JSON` and the payloads of audit events hold them.
use eldridge.Prelude.{ℕ, String, Bool, List, [], ◌∷◌, Option, none, some}

mutual
  pub data Json : Type 0 where
    null : Json
    boolean : Bool → Json
    number : ℕ → Json
    text : String → Json
    array : Items → Json
    object : Fields → Json

  pub data Items : Type 0 where
    end : Items
    item : Json → Items → Items

  pub data Fields : Type 0 where
    done : Fields
    field : String → Json → Fields → Fields

-- An attribute that may be `None`.
unfoldable pub text_or_null : Option String → Json
text_or_null none = Json.null
text_or_null (some s) = Json.text s

unfoldable pub number_or_null : Option ℕ → Json
number_or_null none = Json.null
number_or_null (some n) = Json.number n

-- `dict | dict`, `dict.update`, for keys that the left side does not have.
unfoldable pub join : Fields → Fields → Fields
join Fields.done gs = gs
join (Fields.field k v fs) gs = Fields.field k v (join fs gs)

unfoldable pub texts : List String → Items
texts [] = Items.end
texts (s ∷ ss) = Items.item (Json.text s) (texts ss)

-- A dict literal.
unfoldable pub fields : List (String × Json) → Fields
fields [] = Fields.done
fields ((k, v) ∷ r) = Fields.field k v (fields r)
