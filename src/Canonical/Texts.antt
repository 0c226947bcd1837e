-- ===== src/Canonical/Texts.antt =====
-- internal/canonical/canonical.go: what a text that `write` writes looks like.
use hostseal.Base.{
  ℕ, ◌<◌, ◌≡◌, refl, sym, subst, inl, inr, Bool, false, some, List, [], ◌∷◌, ◌++◌, ◌==◌, Bytes,
  equal, length, Bool-cases, Result, ok, >>=-eq-ok, ok_inj,
}
use hostseal.Json.{Json, Items, nil, item}
use hostseal.Canonical.Order.{insert, members, before}
use hostseal.Canonical.Strings.{WriteError, quoted, write_string, valid_utf8}
use hostseal.Canonical.Write.{Entry, comma, write, write_items, write_members}
use hostseal.Canonical.Normal.{normal_items}
use hostseal.Canonical.Reader.{read_value, read_items}
use hostseal.Canonical.ReadText.{Delimited}

-- A value's text is not empty, and does not begin like the end of a list.
abbrev pub Opens : Bytes → Type 0
Opens [] = Unit → ⊥
Opens (c ∷ s) = (c == b']') ≡ false

-- The text that was written, whatever follows it, is read as this value.
abbrev pub Reads : Bytes → Json → Type 0
Reads s n =
    (f : ℕ) (rest : Bytes)
    → length s < f
    → Delimited rest
    → read_value f (s ++ rest) ≡ some (n, rest)

abbrev pub Good : Result WriteError Bytes → Json → Type 0
Good r n = (s : Bytes) → r ≡ ok s → Opens s × Reads s n

abbrev pub GoodItems : Items → Type 0
GoodItems xs =
    (first : Bool) (s : Bytes)
    → write_items first xs ≡ ok s
    → (f : ℕ) (rest : Bytes) → length s < f
    → read_items f first (s ++ rest) ≡ some (normal_items xs, rest)

-- Two lists of members, of which each value of the one is read as that of the other.
abbrev pub Parallel : List Entry → List (Bytes × Json) → Type 0
Parallel [] [] = Unit
Parallel ((k, r) ∷ es) ((l, n) ∷ ns) = (k ≡ l) × Good r n × Parallel es ns
Parallel _ _ = Unit → ⊥

insert-Parallel :
    (k : Bytes) (r : Result WriteError Bytes) (n : Json) (es : List Entry)
    (ns : List (Bytes × Json))
    → Good r n
    → Parallel es ns
    → Parallel (insert k r es) (insert k n ns)
unfolding insert
insert-Parallel k r n [] [] g p = (refl, g, tt)
insert-Parallel k r n [] (x ∷ ns) g p = absurd (p tt)
insert-Parallel k r n (x ∷ es) [] g p = absurd (p tt)
insert-Parallel k r n ((l, r') ∷ es) ((l', n') ∷ ns) g (e, h, p) =
    rw (← e) (elim (Bool-cases (equal k l)) [
      | inl a ↦ rw a (refl, h, p)
      | inr a ↦ elim (Bool-cases (before k l)) [
        | inl b ↦ rw (a, b) (refl, g, (refl, h, p))
        | inr b ↦ rw (a, b) (refl, h, insert-Parallel k r n es ns g p)
      ]
    ])

pub members-Parallel :
    (es : List Entry) (ns : List (Bytes × Json))
    → Parallel es ns
    → Parallel (members es) (members ns)
unfolding members
members-Parallel [] [] p = tt
members-Parallel [] (x ∷ ns) p = absurd (p tt)
members-Parallel (x ∷ es) [] p = absurd (p tt)
members-Parallel ((k, r) ∷ es) ((l, n) ∷ ns) (e, g, p) =
    subst (λ l. Parallel (insert k r (members es)) (insert l n (members ns))) e
      (insert-Parallel k r n (members es) (members ns) g (members-Parallel es ns p))

pub write_item-ok :
    (first : Bool) (v : Json) (xs : Items) {s : Bytes}
    → write_items first (item v xs) ≡ ok s
    → (a : Bytes) × (b : Bytes) × (write v ≡ ok a)
      × (write_items false xs ≡ ok b)
      × (comma first ++ (a ++ b) ≡ s)
unfolding write_items
write_item-ok first v xs h =
    let (a, p, h1) = >>=-eq-ok (write v) _ h in
    let (b, q, h2) = >>=-eq-ok (write_items false xs) _ h1 in (a, b, p, q, ok_inj h2)

pub write_string-ok : (s : Bytes) {t : Bytes} → write_string s ≡ ok t → quoted s ≡ t
unfolding write_string
write_string-ok s h = elim (Bool-cases (valid_utf8 s)) [
  | inl e ↦ ok_inj (rw e at h)
  | inr e ↦ absurd (cc (rw e at h))
]

pub write_member-ok :
    (first : Bool) (k : Bytes) (r : Result WriteError Bytes) (es : List Entry) {s : Bytes}
    → write_members first ((k, r) ∷ es) ≡ ok s
    → (a : Bytes) × (b : Bytes) × (r ≡ ok a)
      × (write_members false es ≡ ok b)
      × (comma first ++ (quoted k ++ b':' ∷ (a ++ b)) ≡ s)
unfolding write_members
write_member-ok first k r es {s} h =
    let (q, e, h1) = >>=-eq-ok (write_string k) _ h in
    let (a, f, h2) = >>=-eq-ok r _ h1 in
    let (b, g, h3) = >>=-eq-ok (write_members false es) _ h2 in
    (
      a,
      b,
      f,
      g,
      subst (λ x. comma first ++ (x ++ b':' ∷ (a ++ b)) ≡ s) (sym (write_string-ok k e))
          (ok_inj h3),
    )

pub write_items-Delimited :
    (xs : Items) {s : Bytes} → write_items false xs ≡ ok s → (rest : Bytes) → Delimited (s ++ rest)
unfolding Delimited write_items
write_items-Delimited nil {s} h rest = subst (λ x. Delimited (x ++ rest)) (ok_inj h) refl
write_items-Delimited (item v xs) {s} h rest =
    let (a, b, _, _, e) = write_item-ok false v xs h in subst (λ x. Delimited (x ++ rest)) e refl

pub write_members-Delimited :
    (es : List Entry) {s : Bytes}
    → write_members false es ≡ ok s
    → (rest : Bytes) → Delimited (s ++ rest)
unfolding Delimited write_members
write_members-Delimited [] {s} h rest = subst (λ x. Delimited (x ++ rest)) (ok_inj h) refl
write_members-Delimited ((k, r) ∷ es) {s} h rest =
    let (a, b, _, _, e) = write_member-ok false k r es h in
    subst (λ x. Delimited (x ++ rest)) e refl
