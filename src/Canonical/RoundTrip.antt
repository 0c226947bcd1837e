-- ===== src/Canonical/RoundTrip.antt =====
-- internal/canonical/canonical.go: what `write` writes is read back.
use hostseal.Base.{
  ℕ, zero, suc, ◌≤◌, ◌≡◌, refl, ap, subst, Bool, true, false, some, [], ◌∷◌, ◌++◌, Bytes, codes,
  arith, length, length-append, Result, ok, >>=-eq-ok, ok_inj, append_assoc, append-nil,
}
use hostseal.Json.{
  Json, null, boolean, number, text, array, object, Items, nil, item, Fields, end, field,
}
use hostseal.Canonical.Order.{members}
use hostseal.Canonical.Strings.{WriteError, quoted, write_chars, write_string}
use hostseal.Canonical.Write.{write, write_items, write_members, entries, write_number}
use hostseal.Canonical.Normal.{normal, normal_items, normal_entries}
use hostseal.Canonical.Reader.{expect, read_digits, is_numeric, read_scalar, read_value, read_items}
use hostseal.Canonical.ReadText.{Delimited, read_chars-write_chars, read_digits-append}
use hostseal.Canonical.Numbers.{Numeric, write_number-ok}
use hostseal.Canonical.Texts.{
  Opens, Reads, Good, GoodItems, Parallel, members-Parallel, write_string-ok,
}
use hostseal.Canonical.Sequences.{read_item, read_members}

-- A text that is read when a step of fuel is there.
step_of_fuel :
    (s : Bytes) (n : Json)
    → ((f : ℕ) (rest : Bytes)
        → length s ≤ f
        → Delimited rest
        → read_value (suc f) (s ++ rest) ≡ some (n, rest))
    → Reads s n
step_of_fuel s n k zero rest lt = absurd (omega arith)
step_of_fuel s n k (suc f) rest lt = k f rest (omega arith)

wrote :
    {t s : Bytes} {n : Json}
    → Opens t
    → Reads t n
    → ◌≡◌ {A = Result WriteError Bytes} (ok t) (ok s)
    → Opens s × Reads s n
wrote {n = n} o r e = subst (λ x. Opens x × Reads x n) (ok_inj e) (o, r)

read_value-digits :
    (f c : ℕ) (s rest : Bytes)
    → is_numeric c ≡ true
    → read_digits (c ∷ (s ++ rest)) ≡ (c ∷ s, rest)
    → read_value (suc f) (c ∷ (s ++ rest)) ≡ some (number (c ∷ s), rest)
unfolding read_value read_scalar
read_value-digits f c s rest n e = rw e (ground arith)

number-Reads : (s : Bytes) → Numeric s → Opens s × Reads s (number s)
number-Reads [] n = absurd (n tt)
number-Reads (c ∷ s) (n, ns) = (
  ground arith,
  step_of_fuel (c ∷ s) (number (c ∷ s))
      λ f rest _ d. read_value-digits f c s rest n (read_digits-append (c ∷ s) rest (n, ns) d),
)

write_number-Good : (s : Bytes) → Good (write_number s) (number s)
write_number-Good s t h =
    let (e, n) = write_number-ok s h in
    subst (λ x. Opens x × Reads x (number s)) e (number-Reads s n)

quoted-Reads : (s : Bytes) → Reads (quoted s) (text s)
unfolding read_value read_scalar quoted
quoted-Reads s = step_of_fuel (quoted s) (text s) λ f rest lt _.
    let l = length-append (write_chars s) (b'"' ∷ []) in
    rw
      (
        append_assoc (write_chars s) (b'"' ∷ []) rest,
        read_chars-write_chars s rest f (omega (arith, l, lt)),
      )
      refl

write_string-Good : (s : Bytes) → Good (write_string s) (text s)
unfolding quoted
write_string-Good s t h = wrote refl (quoted-Reads s) (ap ok (write_string-ok s h))

array-Good : (xs : Items) → GoodItems xs → Good (write (array xs)) (normal (array xs))
unfolding write normal read_value
array-Good xs ih s h =
    let (b, w, e) = >>=-eq-ok (write_items true xs) _ h in
    wrote refl (step_of_fuel (b'[' ∷ b) _ λ f rest lt _. rw (ih true b w f rest lt) refl) e

object-Good :
    (fs : Fields)
    → Parallel (entries fs) (normal_entries fs)
    → Good (write (object fs)) (normal (object fs))
unfolding write normal read_value
object-Good fs ih s h =
    let (b, w, e) = >>=-eq-ok (write_members true (members (entries fs))) _ h in
    let p = members-Parallel (entries fs) (normal_entries fs) ih in
    wrote refl
      (step_of_fuel (b'{' ∷ b) _ λ f rest lt _. rw (read_members _ _ p true b w f rest lt) refl) e

literal-Good : (b : Bool) → Good (write (boolean b)) (boolean b)
unfolding write read_value read_scalar expect
literal-Good true s h = wrote refl (step_of_fuel (codes "true") (boolean true) λ f rest _ _. refl) h
literal-Good false s h =
    wrote refl (step_of_fuel (codes "false") (boolean false) λ f rest _ _. refl) h

null-Good : Good (write null) null
unfolding write read_value read_scalar expect
null-Good s h = wrote refl (step_of_fuel (codes "null") null λ f rest _ _. refl) h

nil-GoodItems : GoodItems nil
unfolding write read_items normal_items
nil-GoodItems first s h zero rest lt = absurd (omega arith)
nil-GoodItems first s h (suc f) rest lt =
    subst (λ x. read_items (suc f) first (x ++ rest) ≡ some (nil, rest)) (ok_inj h) refl

write-Good : (v : Json) → Good (write v) (normal v)
unfolding write normal
write-Good v =
    elim v
      as (λ v. Good (write v) (normal v)) GoodItems (λ fs.
        Parallel (entries fs) (normal_entries fs)) [
          | null ↦ null-Good
          | boolean b ↦ literal-Good b
          | number s ↦ write_number-Good s
          | text s ↦ write_string-Good s
          | array (xs → ih) ↦ array-Good xs ih
          | object (fs → ih) ↦ object-Good fs ih
          | nil ↦ nil-GoodItems
          | item (w → ih) (xs → ihs) ↦ read_item w xs ih ihs
          | end ↦ tt
          | field k (w → ih) (fs → ihs) ↦ (refl, ih, ihs)
        ]

-- What `write` writes for a document, the reader reads back whole, as the document with its members
-- in the order of their keys, a repeated key with its last value.
pub read_value-write :
    (v : Json) {s : Bytes} → write v ≡ ok s → read_value (suc (length s)) s ≡ some (normal v, [])
unfolding Delimited
read_value-write v {s} h =
    let (_, r) = write-Good v s h in
    let whole = r (suc (length s)) [] (omega arith) tt in rw append-nil at whole

-- Two documents that have one canonical text hold the same members with the same values.
pub write-injective :
    (v w : Json) {s : Bytes} → write v ≡ ok s → write w ≡ ok s → normal v ≡ normal w
write-injective v w h k = cc (read_value-write v h, read_value-write w k)
