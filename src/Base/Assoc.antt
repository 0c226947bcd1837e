-- ===== src/Base/Assoc.antt =====
-- Association lists, for Go's maps. The order of the rows stands for no order of the program's.
use mathlib.Core.Path.{◌≡◌, refl, sym, ap, ◌∙◌, subst, subst₂}
use mathlib.Core.Logic.{◌↔◌, ◌≢◌, inl, inr}
use mathlib.Core.Bool.{Bool, true, false, not}
use mathlib.Core.Option.{Option, none, some}
use mathlib.Core.List.{List, [], ◌∷◌}
use hostseal.Base.Tests.{if◌then◌else◌, Bool-cases, some_inj}
use hostseal.Base.Lists.{keep, All}

-- Equality of keys, as a test.
pub record Key (K : Type 0) : Type 0 where
  pub same : K → K → Bool
  pub same_iff : (a b : K) → (same a b ≡ true) ↔ (a ≡ b)

module _ {K V : Type 0} (key : Key K) where
  -- `m[a]`, and whether it is there.
  unfoldable pub get : K → List (K × V) → Option V
  get a [] = none
  get a ((b, v) ∷ rest) = let r = get a rest in if key.same b a then some v else r

  -- `delete(m, a)`
  unfoldable pub delete : K → List (K × V) → List (K × V)
  delete a m = keep (λ e. not (key.same e.0 a)) m

  -- `m[a] = v`
  unfoldable pub put : K → V → List (K × V) → List (K × V)
  unfolding delete
  put a v m = (a, v) ∷ delete a m

  pub get-delete_other : (a b : K) (m : List (K × V)) → a ≢ b → get b (delete a m) ≡ get b m
  unfolding get delete
  get-delete_other a b [] ne = refl
  get-delete_other a b ((c, w) ∷ m) ne = elim (Bool-cases (key.same c a)) [
    | inl e ↦ elim (Bool-cases (key.same c b)) [
      | inl f ↦ absurd (ne (sym ((key.same_iff c a).0 e) ∙ (key.same_iff c b).0 f))
      | inr f ↦ rw (e, f) (get-delete_other a b m ne)
    ]
    | inr e ↦ rw (e, get-delete_other a b m ne) refl
  ]

  pub get-put : (a : K) (v : V) (m : List (K × V)) → get a (put a v m) ≡ some v
  unfolding get put
  get-put a v m = rw ((key.same_iff a a).1 refl) refl

  pub get-put_other : (a b : K) (v : V) (m : List (K × V)) → a ≢ b → get b (put a v m) ≡ get b m
  unfolding get put
  get-put_other a b v m ne = elim (Bool-cases (key.same a b)) [
    | inl e ↦ absurd (ne ((key.same_iff a b).0 e))
    | inr e ↦ rw e (get-delete_other a b m ne)
  ]

  pub delete-absent : (a : K) (m : List (K × V)) → get a m ≡ none → delete a m ≡ m
  unfolding get delete
  delete-absent a [] h = refl
  delete-absent a ((b, v) ∷ m) h = elim (Bool-cases (key.same b a)) [
    | inl e ↦ absurd (cc (rw e at h))
    | inr e ↦ rw e (ap (λ rest. (b, v) ∷ rest) (delete-absent a m (rw e at h)))
  ]

  -- A row that is kept is found where it was found before.
  pub get-keep :
      (p : K × V → Bool) (a : K) {v : V} (m : List (K × V))
      → get a m ≡ some v
      → p (a, v) ≡ true
      → get a (keep p m) ≡ some v
  unfolding get
  get-keep p a [] h q = cc
  get-keep p a ((b, w) ∷ m) h q = elim (Bool-cases (key.same b a)) [
    | inl e ↦
        let q' : p (b, w) ≡ true =
          subst₂ (λ c u. p (c, u) ≡ true) (sym ((key.same_iff b a).0 e))
            (sym (some_inj (rw e at h))) q in
        rw (q', e) (rw e at h)
    | inr e ↦ elim (Bool-cases (p (b, w))) [
      | inl f ↦ rw (f, e) (get-keep p a m (rw e at h) q)
      | inr f ↦ rw f (get-keep p a m (rw e at h) q)
    ]
  ]

  -- Rows that are kept by their key alone.
  pub get-keep_keys :
      (q : K → Bool) (a : K) (m : List (K × V))
      → get a (keep (λ e. q e.0) m) ≡ (if q a then get a m else none)
  unfolding get
  get-keep_keys q a [] = elim (Bool-cases (q a)) [ inl e ↦ rw e refl | inr e ↦ rw e refl ]
  get-keep_keys q a ((b, w) ∷ m) = elim (Bool-cases (key.same b a)) [
    | inl e ↦ elim (Bool-cases (q a)) [
      | inl f ↦
          let f' : q b ≡ true = subst (λ c. q c ≡ true) (sym ((key.same_iff b a).0 e)) f in
          rw (f', e, f) refl
      | inr f ↦
          let f' : q b ≡ false = subst (λ c. q c ≡ false) (sym ((key.same_iff b a).0 e)) f in
          let r = get-keep_keys q a m in rw (f', f) (rw f at r)
    ]
    | inr e ↦ elim (Bool-cases (q b)) [
      | inl f ↦ rw (f, e) (get-keep_keys q a m)
      | inr f ↦ rw (f, e) (get-keep_keys q a m)
    ]
  ]

  -- Rows of this key are all kept.
  pub get-keep_all :
      (p : K × V → Bool) (a : K) (m : List (K × V))
      → ((v : V) → p (a, v) ≡ true)
      → get a (keep p m) ≡ get a m
  unfolding get
  get-keep_all p a [] h = refl
  get-keep_all p a ((b, w) ∷ m) h = elim (Bool-cases (key.same b a)) [
    | inl e ↦
        let f : p (b, w) ≡ true =
          subst (λ c. p (c, w) ≡ true) (sym ((key.same_iff b a).0 e)) (h w) in
        rw (f, e) refl
    | inr e ↦ elim (Bool-cases (p (b, w))) [
      | inl f ↦ rw (f, e) (get-keep_all p a m h)
      | inr f ↦ rw (f, e) (get-keep_all p a m h)
    ]
  ]

module _ {A : Type 0} (P : A → Type 0) where
  pub All-keep : (p : A → Bool) (xs : List A) → All P xs → All P (keep p xs)
  All-keep p [] h = tt
  All-keep p (x ∷ xs) (h, hs) = elim (Bool-cases (p x)) [
    | inl e ↦ rw e (h, All-keep p xs hs)
    | inr e ↦ rw e (All-keep p xs hs)
  ]

module _ {K V : Type 0} (key : Key K) (P : K × V → Type 0) where
  pub All-get : (a : K) {v : V} (m : List (K × V)) → All P m → get key a m ≡ some v → P (a, v)
  unfolding get
  All-get a [] hs h = cc
  All-get a ((b, w) ∷ m) (p, hs) h = elim (Bool-cases (key.same b a)) [
    | inl e ↦ subst₂ (λ c u. P (c, u)) ((key.same_iff b a).0 e) (some_inj (rw e at h)) p
    | inr e ↦ All-get a m hs (rw e at h)
  ]
