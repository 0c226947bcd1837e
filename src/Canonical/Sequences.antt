-- ===== src/Canonical/Sequences.antt =====
-- internal/canonical/canonical.go: the items and the members that `write` writes are read back.
use hostseal.Base.{
  ℕ, zero, suc, ◌<◌, ◌≡◌, refl, sym, subst, Bool, true, false, some, List, [], ◌∷◌, ◌++◌, Bytes,
  arith, length, length-append, ok, ok_inj, append_assoc,
}
use hostseal.Json.{Json, Items, nil, item, end, field}
use hostseal.Canonical.Strings.{quoted, write_chars}
use hostseal.Canonical.Write.{Entry, comma, write, write_items, write_members}
use hostseal.Canonical.Normal.{to_fields, normal, normal_items}
use hostseal.Canonical.Reader.{expect, read_key, sep, closes, read_items, read_fields}
use hostseal.Canonical.ReadText.{read_chars-write_chars}
use hostseal.Canonical.Texts.{
  Opens, Good, GoodItems, Parallel, write_item-ok, write_member-ok, write_items-Delimited,
  write_members-Delimited,
}

closes-comma :
    (first : Bool) (a t : Bytes) → Opens a → closes b']' (comma first ++ (a ++ t)) ≡ false
closes-comma false a t o = refl
closes-comma true [] t o = absurd (o tt)
closes-comma true (c ∷ a) t o = o

sep-comma : (first : Bool) (t : Bytes) → sep first (comma first ++ t) ≡ some (tt, t)
unfolding expect
sep-comma true t = refl
sep-comma false t = refl

read_quoted :
    (k rest : Bytes) (f : ℕ)
    → length (quoted k) < f
    → read_key f (quoted k ++ (b':' ∷ rest)) ≡ some (k, rest)
unfolding quoted expect
read_quoted k rest f h =
    let l = length-append (write_chars k) (b'"' ∷ []) in
    let e = append_assoc (write_chars k) (b'"' ∷ []) (b':' ∷ rest) in
    rw (e, read_chars-write_chars k (b':' ∷ rest) f (omega (arith, l, h))) refl

Opens-length : (a : Bytes) → Opens a → 0 < length a
Opens-length [] o = absurd (o tt)
Opens-length (c ∷ a) o = omega arith

write_items-length : (xs : Items) {b : Bytes} → write_items false xs ≡ ok b → 0 < length b
unfolding write_items
write_items-length nil h = subst (λ x. 0 < length x) (ok_inj h) (omega arith)
write_items-length (item v xs) h =
    let (a, b, _, _, e) = write_item-ok false v xs h in subst (λ x. 0 < length x) e (omega arith)

write_members-length : (es : List Entry) {b : Bytes} → write_members false es ≡ ok b → 0 < length b
unfolding write_members
write_members-length [] h = subst (λ x. 0 < length x) (ok_inj h) (omega arith)
write_members-length ((k, r) ∷ es) h =
    let (a, b, _, _, e) = write_member-ok false k r es h in
    subst (λ x. 0 < length x) e (omega arith)

pub read_item :
    (v : Json) (xs : Items) → Good (write v) (normal v) → GoodItems xs → GoodItems (item v xs)
unfolding read_items normal
read_item v xs g gs first s h zero rest lt = absurd (omega arith)
read_item v xs g gs first s h (suc f) rest lt =
    let (a, b, p, q, e) = write_item-ok first v xs h in
    let (o, r) = g a p in
    let size : length (comma first ++ (a ++ b)) < suc f =
      subst (λ x. length x < suc f) (sym e) lt in
    let l1 = length-append (comma first) (a ++ b) in
    let l2 = length-append a b in
    let la = Opens-length a o in
    let lb = write_items-length xs q in
    let e1 = append_assoc (comma first) (a ++ b) rest in
    let e2 = append_assoc a b rest in
    subst
      (λ x. read_items (suc f) first (x ++ rest) ≡ some (item (normal v) (normal_items xs), rest)) e
      (rw
        (
          e1,
          e2,
          closes-comma first a (b ++ rest) o,
          sep-comma first (a ++ (b ++ rest)),
          r f (b ++ rest) (omega (arith, size, l1, l2, lb)) (write_items-Delimited xs q rest),
          gs false b q f rest (omega (arith, size, l1, l2, la)),
        )
        refl)

-- The members of an object, as a list of pairs.
abbrev GoodMembers : List Entry → List (Bytes × Json) → Type 0
GoodMembers es ns =
    (first : Bool) (s : Bytes)
    → write_members first es ≡ ok s
    → (f : ℕ) (rest : Bytes) → length s < f
    → read_fields f first (s ++ rest) ≡ some (to_fields ns, rest)

closes-quoted : (first : Bool) (k t : Bytes) → closes b'}' (comma first ++ (quoted k ++ t)) ≡ false
unfolding quoted
closes-quoted false k t = refl
closes-quoted true k t = refl

pub read_members : (es : List Entry) (ns : List (Bytes × Json)) → Parallel es ns → GoodMembers es ns
unfolding read_fields write_members
read_members [] [] p first s h zero rest lt = absurd (omega arith)
read_members [] [] p first s h (suc f) rest lt =
    subst (λ x. read_fields (suc f) first (x ++ rest) ≡ some (end, rest)) (ok_inj h) refl
read_members [] (x ∷ ns) p first s h f rest lt = absurd (p tt)
read_members (x ∷ es) [] p first s h f rest lt = absurd (p tt)
read_members ((k, r) ∷ es) ((l, n) ∷ ns) (same, g, p) first s h zero rest lt = absurd (omega arith)
read_members ((k, r) ∷ es) ((l, n) ∷ ns) (same, g, p) first s h (suc f) rest lt =
    let (a, b, pa, pb, e) = write_member-ok first k r es h in
    let (o, reads) = g a pa in
    let whole = quoted k ++ b':' ∷ (a ++ b) in
    let size : length (comma first ++ whole) < suc f = subst (λ x. length x < suc f) (sym e) lt in
    let l1 = length-append (comma first) whole in
    let l2 = length-append (quoted k) (b':' ∷ (a ++ b)) in
    let l3 = length-append a b in
    let la = Opens-length a o in
    let lb = write_members-length es pb in
    let e1 = append_assoc (comma first) whole rest in
    let e2 = append_assoc (quoted k) (b':' ∷ (a ++ b)) rest in
    let e3 = append_assoc a b rest in
    subst (λ x. read_fields (suc f) first (x ++ rest) ≡ some (field l n (to_fields ns), rest)) e
      (rw
        (
          ← same,
          e1,
          e2,
          e3,
          closes-quoted first k (b':' ∷ (a ++ (b ++ rest))),
          sep-comma first (quoted k ++ b':' ∷ (a ++ (b ++ rest))),
          read_quoted k (a ++ (b ++ rest)) f (omega (arith, size, l1, l2, l3, lb)),
          reads f (b ++ rest) (omega (arith, size, l1, l2, l3, lb))
              (write_members-Delimited es pb rest),
          read_members es ns p false b pb f rest (omega (arith, size, l1, l2, l3, la)),
        )
        refl)
