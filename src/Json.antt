-- ===== src/Json.antt =====
-- `serde_json::Value`, with the accessors that the sources call.
use rustproxmoxmcp.Prelude.{ℕ, Option, none, some, List, [], ◌∷◌, if◌then◌else◌}
use rustproxmoxmcp.Text.{Text, ◌==◌}

-- A number that is no `u64` is held as its text.
mutual
  pub data Json : Type 0 where
    null yes_value no_value : Json
    unsigned : ℕ → Json
    number : Text → Json
    string : Text → Json
    array : Items → Json
    object : Fields → Json

  pub data Items : Type 0 where
    nil : Items
    cons : Json → Items → Items

  pub data Fields : Type 0 where
    end : Fields
    field : Text → Json → Fields → Fields

unfoldable pub items : Items → List Json
items nil = []
items (cons j js) = j ∷ items js

find_field : Text → Fields → Option Json
find_field key end = none
find_field key (field k j rest) = if k == key then some j else find_field key rest

-- `value.get(key)`
unfoldable pub get : Json → Text → Option Json
unfolding find_field
get (object fs) key = find_field key fs
get _ key = none

unfoldable pub as_str : Json → Option Text
as_str (string s) = some s
as_str _ = none

unfoldable pub as_u64 : Json → Option ℕ
as_u64 (unsigned n) = some n
as_u64 _ = none

unfoldable pub as_array : Json → Option (List Json)
unfolding items
as_array (array js) = some (items js)
as_array _ = none
