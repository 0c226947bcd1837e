-- ===== src/Canonical/Write.antt =====
-- internal/canonical/canonical.go: `write`, and `Normalize` of a document that the decoder has read.
use hostseal.Base.{
  Bool, true, false, ◌||◌, Option, none, some, List, [], ◌∷◌, ◌++◌, Result, ok, err, ◌>>=◌,
  if◌then◌else◌, ◌==◌, Bytes, codes,
}
use hostseal.Base.Int.{ℤ}
use hostseal.Json.{
  Json, null, boolean, number, text, array, object, Items, nil, item, Fields, end, field,
  parse_int64,
}
use hostseal.Canonical.Order.{members}
use hostseal.Canonical.Strings.{WriteError, float, not_an_integer, write_string}

-- `strings.ContainsAny(s, ".eE")`
unfoldable pub looks_float : Bytes → Bool
looks_float [] = false
looks_float (c ∷ s) = c == b'.' || c == b'e' || c == b'E' || looks_float s

unfoldable pub integer : Bytes → Option ℤ → Result WriteError Bytes
integer s none = err not_an_integer
integer s (some n) = ok s

unfoldable pub write_number : Bytes → Result WriteError Bytes
unfolding integer
write_number s = if looks_float s then err float else integer s (parse_int64 s)

abbrev pub comma : Bool → Bytes
comma true = []
comma false = b',' ∷ []

-- A member of an object, with what `write` makes of its value.
abbrev pub Entry : Type 0
Entry = Bytes × Result WriteError Bytes

unfoldable pub write_members : Bool → List Entry → Result WriteError Bytes
write_members first [] = ok (b'}' ∷ [])
write_members first ((k, r) ∷ es) = do
  key ← write_string k
  value ← r
  rest ← write_members false es
  ok (comma first ++ (key ++ b':' ∷ (value ++ rest)))

unfoldable mutual
  pub write : Json → Result WriteError Bytes
  write null = ok (codes "null")
  write (boolean true) = ok (codes "true")
  write (boolean false) = ok (codes "false")
  write (number s) = write_number s
  write (text s) = write_string s
  write (array xs) = do body ← write_items true xs; ok (b'[' ∷ body)
  write (object fs) = do body ← write_members true (members (entries fs)); ok (b'{' ∷ body)

  pub write_items : Bool → Items → Result WriteError Bytes
  write_items first nil = ok (b']' ∷ [])
  write_items first (item v xs) = do
    value ← write v
    rest ← write_items false xs
    ok (comma first ++ (value ++ rest))

  -- The members of an object in the order of the document.
  pub entries : Fields → List Entry
  entries end = []
  entries (field k v fs) = (k, write v) ∷ entries fs
