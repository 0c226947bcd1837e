-- ===== src/Canonical/Strings.antt =====
-- internal/canonical/canonical.go: `writeString`.
use hostseal.Base.{
  ℕ, ◌+◌, ◌/◌, ◌%◌, ◌-◌, Bool, true, ◌&&◌, ◌||◌, [], ◌∷◌, ◌++◌, Result, ok, err, if◌then◌else◌, ltb,
  ◌==◌, Bytes, codes, within,
}

pub data WriteError : Type 0 where
  float not_an_integer not_utf8 : WriteError

abbrev continues : ℕ → Bool
continues c = within 0x80 0xbf c

-- The first two bytes of a rune of three and of four.
abbrev three : ℕ → ℕ → Bool
three a b =
    (a == 0xe0 && within 0xa0 0xbf b)
    || ((within 0xe1 0xec a || within 0xee 0xef a) && continues b)
    || (a == 0xed && within 0x80 0x9f b)

abbrev four : ℕ → ℕ → Bool
four a b =
    (a == 0xf0 && within 0x90 0xbf b)
    || (within 0xf1 0xf3 a && continues b)
    || (a == 0xf4 && within 0x80 0x8f b)

-- `utf8.ValidString`: no overlong form, no surrogate, nothing above U+10FFFF.
unfoldable pub valid_utf8 : Bytes → Bool
valid_utf8 [] = true
valid_utf8 (a ∷ []) = ltb a 0x80
valid_utf8 (a ∷ b ∷ []) = (ltb a 0x80 && ltb b 0x80) || (within 0xc2 0xdf a && continues b)
valid_utf8 (a ∷ b ∷ c ∷ []) =
    (ltb a 0x80 && valid_utf8 (b ∷ c ∷ []))
    || (within 0xc2 0xdf a && continues b && valid_utf8 (c ∷ []))
    || (three a b && continues c)
valid_utf8 (a ∷ b ∷ c ∷ d ∷ s) =
    (ltb a 0x80 && valid_utf8 (b ∷ c ∷ d ∷ s))
    || (within 0xc2 0xdf a && continues b && valid_utf8 (c ∷ d ∷ s))
    || (three a b && continues c && valid_utf8 (d ∷ s))
    || (four a b && continues c && continues d && valid_utf8 s)

-- One digit of `%04x`.
abbrev pub hex_digit : ℕ → ℕ
hex_digit n = if ltb n 10 then b'0' + n else b'a' + (n - 10)

-- The `switch` of `writeString`. The bytes of a rune from U+0080 on are all written as they are.
unfoldable pub write_char : ℕ → Bytes
write_char c =
    if c == b'"'
    then codes "\\\""
    else if c == b'\\'
    then codes "\\\\"
    else if c == 10
    then codes "\\n"
    else if c == 13
    then codes "\\r"
    else if c == 9
    then codes "\\t"
    else if c == 8
    then codes "\\b"
    else if c == 12
    then codes "\\f"
    else if ltb c 0x20
    then codes "\\u00" ++ (hex_digit (c / 16) ∷ hex_digit (c % 16) ∷ [])
    else c ∷ []

unfoldable pub write_chars : Bytes → Bytes
unfolding write_char
write_chars [] = []
write_chars (c ∷ s) = write_char c ++ write_chars s

-- The text between its quotes.
unfoldable pub quoted : Bytes → Bytes
unfolding write_chars
quoted s = b'"' ∷ (write_chars s ++ (b'"' ∷ []))

unfoldable pub write_string : Bytes → Result WriteError Bytes
unfolding quoted
write_string s = if valid_utf8 s then ok (quoted s) else err not_utf8
