-- ===== src/Canonical/Normal.antt =====
-- internal/canonical/canonical.go: the value that a canonical text stands for.
use hostseal.Base.{List, [], ◌∷◌, Bytes}
use hostseal.Json.{
  Json, null, boolean, number, text, array, object, Items, nil, item, Fields, end, field,
}
use hostseal.Canonical.Order.{members}

abbrev pub to_fields : List (Bytes × Json) → Fields
to_fields [] = end
to_fields ((k, v) ∷ es) = field k v (to_fields es)

-- Every object with its members as `map[string]any` holds them, in the order of their keys.
unfoldable mutual
  pub normal : Json → Json
  normal (array xs) = array (normal_items xs)
  normal (object fs) = object (to_fields (members (normal_entries fs)))
  normal null = null
  normal (boolean b) = boolean b
  normal (number s) = number s
  normal (text s) = text s

  pub normal_items : Items → Items
  normal_items nil = nil
  normal_items (item v xs) = item (normal v) (normal_items xs)

  pub normal_entries : Fields → List (Bytes × Json)
  normal_entries end = []
  normal_entries (field k v fs) = (k, normal v) ∷ normal_entries fs
