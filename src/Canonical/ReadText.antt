-- ===== src/Canonical/ReadText.antt =====
-- internal/canonical/canonical.go: the texts and the numbers that are written are read back.
use hostseal.Base.{
  ℕ, zero, suc, ◌<◌, ◌≡◌, refl, ◌∙◌, ap, true, false, some, [], ◌∷◌, ◌++◌, Bytes, arith, length,
  length-append, All, append_assoc,
}
use hostseal.Canonical.Strings.{write_char, write_chars}
use hostseal.Canonical.Reader.{hex4, unescape, add_char, read_chars, is_numeric, read_digits}

read_char :
    (c f : ℕ) (s : Bytes) → read_chars (suc f) (write_char c ++ s) ≡ add_char c (read_chars f s)
unfolding read_chars write_char unescape hex4
read_char c f s = ground arith

length-write_char : (c : ℕ) → 0 < length (write_char c)
unfolding write_char
length-write_char c = ground arith

pub read_chars-write_chars :
    (s rest : Bytes) (f : ℕ)
    → length (write_chars s) < f
    → read_chars f (write_chars s ++ b'"' ∷ rest) ≡ some (s, rest)
unfolding write_chars read_chars
read_chars-write_chars s rest zero h = absurd (omega arith)
read_chars-write_chars [] rest (suc f) h = refl
read_chars-write_chars (c ∷ s) rest (suc f) h =
    let e = length-append (write_char c) (write_chars s) in
    let p = length-write_char c in
    ap (read_chars (suc f)) (append_assoc (write_char c) (write_chars s) (b'"' ∷ rest))
    ∙ read_char c f (write_chars s ++ b'"' ∷ rest)
    ∙ ap (add_char c) (read_chars-write_chars s rest f (omega (arith, e, p, h)))

-- What follows a number does not go on with it.
unfoldable pub Delimited : Bytes → Type 0
Delimited [] = Unit
Delimited (c ∷ s) = is_numeric c ≡ false

pub read_digits-append :
    (s rest : Bytes)
    → All (λ c. is_numeric c ≡ true) s
    → Delimited rest
    → read_digits (s ++ rest) ≡ (s, rest)
unfolding read_digits Delimited
read_digits-append [] [] a d = refl
read_digits-append [] (c ∷ rest) a d = rw d refl
read_digits-append (c ∷ s) rest (n, a) d = rw (n, read_digits-append s rest a d) refl
