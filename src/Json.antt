-- ===== src/Json.antt =====
-- What Go's `encoding/json` hands to this program, and what its decoder does to a struct:
-- the values of internal/intent/params.go (`strictUnmarshal`) and internal/canonical/canonical.go.
use hostseal.Base.{
  ℕ, ◌+◌, ◌*◌, ◌-◌, Bool, ◌&&◌, [], ◌∷◌, Option, none, some, ltb, leb, ◌==◌, if◌then◌else◌, Bytes,
  is_digit, within, equal,
}
use hostseal.Base.Int.{ℤ, pos, negsuc, int64_half}

-- A number keeps its literal, as `json.Number` does. A string holds its UTF-8 bytes.
mutual
  pub data Json : Type 0 where
    null : Json
    boolean : Bool → Json
    number : Bytes → Json
    text : Bytes → Json
    array : Items → Json
    object : Fields → Json

  pub data Items : Type 0 where
    nil : Items
    item : Json → Items → Items

  pub data Fields : Type 0 where
    end : Fields
    field : Bytes → Json → Fields → Fields

-- A document as `json.NewDecoder` reads it: how many bytes it has, whether they are all space,
-- the first value (`none` for a syntax error), and `More()` behind that value.
pub record Raw : Type 0 where
  pub size : ℕ
  pub blank : Bool
  pub first : Option Json
  pub more : Bool

-- `foldName`: case is ignored, and U+017F and U+212A fold to S and K.
unfoldable pub fold_name : Bytes → Bytes
fold_name [] = []
fold_name (c ∷ []) = (if within b'a' b'z' c then c - 32 else c) ∷ []
fold_name (c ∷ d ∷ []) =
    if c == 0xc5 && d == 0xbf
    then b'S' ∷ []
    else (if within b'a' b'z' c then c - 32 else c) ∷ fold_name (d ∷ [])
fold_name (c ∷ d ∷ e ∷ cs) =
    let long_s = b'S' ∷ fold_name (e ∷ cs) in
    let kelvin = b'K' ∷ fold_name cs in
    let plain = (if within b'a' b'z' c then c - 32 else c) ∷ fold_name (d ∷ e ∷ cs) in
    if c == 0xc5 && d == 0xbf
    then long_s
    else if c == 0xe2 && d == 0x84 && e == 0xaa
    then kelvin
    else plain

-- The decoder takes a key for a struct's field of this name.
unfoldable pub is_field : Bytes → Bytes → Bool
unfolding equal fold_name
is_field name key = equal (fold_name name) (fold_name key)

-- `strconv.ParseInt(s, 10, 64)` on a JSON number literal.
unfoldable pub digits_from : ℕ → Bytes → Option ℕ
digits_from n [] = some n
digits_from n (c ∷ cs) =
    let rest = digits_from (n * 10 + (c - b'0')) cs in if is_digit c then rest else none

unfoldable pub digits : Bytes → Option ℕ
unfolding digits_from
digits [] = none
digits (c ∷ cs) = digits_from 0 (c ∷ cs)

negate : ℕ → ℤ
negate n = if n == 0 then pos 0 else negsuc (n - 1)

unfoldable pub parse_int64 : Bytes → Option ℤ
unfolding digits negate
parse_int64 [] = none
parse_int64 (c ∷ cs) =
    if c == b'-'
    then elim (digits cs) [
      | none ↦ none
      | some n ↦ if leb n int64_half then some (negate n) else none
    ]
    else elim (digits (c ∷ cs)) [
      | none ↦ none
      | some n ↦ if ltb n int64_half then some (pos n) else none
    ]

-- What `Decode` reports: the first field that the struct does not have, or whose value is of
-- another type. It goes on behind it, and the error that it saved first is the one returned.
pub data FieldError : Type 0 where
  unknown_field mismatch : FieldError

abbrev pub saved : Option FieldError → FieldError → Option FieldError
saved none e = some e
saved (some d) e = some d

-- A field of Go type `string`, `bool` or `int`: `null` leaves it as it was.
abbrev pub set_text : Bytes → Json → Option Bytes
set_text old null = some old
set_text old (text s) = some s
set_text old _ = none

abbrev pub set_bool : Bool → Json → Option Bool
set_bool old null = some old
set_bool old (boolean b) = some b
set_bool old _ = none

abbrev pub set_int : ℤ → Json → Option ℤ
set_int old null = some old
set_int old (number s) = parse_int64 s
set_int old _ = none
