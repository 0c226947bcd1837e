-- ===== src/Canonical/Reader.antt =====
-- A reader of canonical text, to say what internal/canonical writes. It reads a value off the front
-- of a text and leaves what follows.
use hostseal.Base.{
  ℕ, zero, suc, ◌+◌, ◌-◌, ◌*◌, Bool, true, false, ◌||◌, Option, none, some, [], ◌∷◌, if◌then◌else◌,
  ◌==◌, Bytes, codes, is_digit,
}
use hostseal.Json.{
  Json, null, boolean, number, text, array, object, Items, nil, item, Fields, end, field,
}

abbrev pub Read : Type 0 → Type 0
Read A = Option (A × Bytes)

infixl 5 ◌then_read◌
abbrev pub ◌then_read◌ : {A B : Type 0} → Read A → (A → Bytes → Read B) → Read B
none then_read k = none
some (a, s) then_read k = k a s

unfoldable pub expect : Bytes → Bytes → Read (Unit {0})
expect [] s = some (tt, s)
expect (c ∷ p) [] = none
expect (c ∷ p) (d ∷ s) = let rest = expect p s in if c == d then rest else none

abbrev pub hex_value : ℕ → ℕ
hex_value c = if is_digit c then c - b'0' else c - b'a' + 10

unfoldable pub hex4 : Bytes → Read ℕ
hex4 (a ∷ b ∷ h ∷ l ∷ s) = some (hex_value h * 16 + hex_value l, s)
hex4 _ = none

abbrev pub short : ℕ → ℕ
short d =
    if d == b'n'
    then 10
    else if d == b'r'
    then 13
    else if d == b't'
    then 9
    else if d == b'b'
    then 8
    else if d == b'f'
    then 12
    else d

-- A backslash has been read.
unfoldable pub unescape : Bytes → Read ℕ
unfolding hex4
unescape [] = none
unescape (d ∷ s) = if d == b'u' then hex4 s else some (short d, s)

abbrev pub add_char : ℕ → Read Bytes → Read Bytes
add_char c none = none
add_char c (some (t, s)) = some (c ∷ t, s)

-- The text up to its closing quote.
unfoldable pub read_chars : ℕ → Bytes → Read Bytes
unfolding unescape
read_chars zero s = none
read_chars (suc f) [] = none
read_chars (suc f) (c ∷ s) =
    let plain = add_char c (read_chars f s) in
    let escaped = unescape s then_read λ d t. add_char d (read_chars f t) in
    if c == b'"' then some ([], s) else if c == b'\\' then escaped else plain

abbrev pub is_numeric : ℕ → Bool
is_numeric c = is_digit c || c == b'-'

unfoldable pub read_digits : Bytes → Bytes × Bytes
read_digits [] = ([], [])
read_digits (c ∷ s) =
    let rest = read_digits s in if is_numeric c then (c ∷ rest.0, rest.1) else ([], c ∷ s)

abbrev pub read_key : ℕ → Bytes → Read Bytes
read_key f s = expect (b'"' ∷ []) s then_read λ _ s1.
    read_chars f s1 then_read λ k s2. expect (b':' ∷ []) s2 then_read λ _ s3. some (k, s3)

abbrev pub sep : Bool → Bytes → Read (Unit {0})
sep true s = some (tt, s)
sep false s = expect (b',' ∷ []) s

abbrev pub closes : ℕ → Bytes → Bool
closes c [] = false
closes c (d ∷ s) = d == c

abbrev pub tail : Bytes → Bytes
tail [] = []
tail (c ∷ s) = s

unfoldable pub read_scalar : ℕ → Bytes → Read Json
unfolding expect read_chars read_digits
read_scalar f [] = none
read_scalar f (c ∷ s) =
    let nothing = expect (codes "ull") s then_read λ _ t. some (null, t) in
    let yes = expect (codes "rue") s then_read λ _ t. some (boolean true, t) in
    let no = expect (codes "alse") s then_read λ _ t. some (boolean false, t) in
    let string = read_chars f s then_read λ a t. some (text a, t) in
    let (digits, t) = read_digits (c ∷ s) in
    if c == b'n'
    then nothing
    else if c == b't'
    then yes
    else if c == b'f'
    then no
    else if c == b'"'
    then string
    else some (number digits, t)

unfoldable mutual
  pub read_value : ℕ → Bytes → Read Json
  read_value zero s = none
  read_value (suc f) [] = none
  read_value (suc f) (c ∷ s) =
      let list = read_items f true s then_read λ xs t. some (array xs, t) in
      let map = read_fields f true s then_read λ fs t. some (object fs, t) in
      if c == b'[' then list else if c == b'{' then map else read_scalar f (c ∷ s)

  pub read_items : ℕ → Bool → Bytes → Read Items
  read_items zero first s = none
  read_items (suc f) first s =
      let more = sep first s then_read λ _ s1. read_value f s1 then_read λ v s2.
      read_items f false s2 then_read λ xs s3. some (item v xs, s3) in
      if closes b']' s then some (nil, tail s) else more

  pub read_fields : ℕ → Bool → Bytes → Read Fields
  read_fields zero first s = none
  read_fields (suc f) first s =
      let more = sep first s then_read λ _ s1. read_key f s1 then_read λ k s2.
      read_value f s2 then_read λ v s3.
      read_fields f false s3 then_read λ fs s4. some (field k v fs, s4) in
      if closes b'}' s then some (end, tail s) else more
