-- ===== src/Store/Numbering.antt =====
-- internal/store/memory_templates.go: saving a version leaves the others, and the numbers
-- without a gap.
use hostseal.Base.{
  ℕ, suc, ◌-◌, ◌<◌, ◌≡◌, ◌≢◌, ◌↔◌, refl, sym, ◌∙◌, ap, subst, subst₂, dec_eq, inl, inr, String,
  true, false, Option, none, some, List, [], ◌∷◌, Bool-cases, Option-cases, eq_iff, arith, some_inj,
}
use hostseal.Base.Assoc.{delete-absent, get, put}
use hostseal.Store.State.{Tenant}
use hostseal.Store.Jobs.{is_some}
use hostseal.Store.Templates.{
  TemplateVersion, TemplateKey, by_version, is_version_of, next_version, latest, newer,
}

abbrev pub Rows : Type 0
Rows = List (TemplateKey × TemplateVersion)

is_of_iff :
    (t : Tenant) (name : String) (u : Tenant) (n : String) (v : ℕ)
    → (is_version_of t name (u, n, v) ≡ true) ↔ ((u ≡ t) × (n ≡ name))
is_of_iff t name u n v = ground (arith, eq_iff u t, eq_iff n name)

-- No row has the number that the next version gets, nor a greater one.
get-next_version :
    (t : Tenant) (name : String) (v : ℕ) (x : TemplateVersion) (rows : Rows)
    → get by_version (t, name, v) rows ≡ some x
    → v < next_version t name rows
unfolding get next_version
get-next_version t name v x [] h = cc
get-next_version t name v x (((u, n, w), y) ∷ rows) h =
    let ih = get-next_version t name v x rows in ground (arith, ih, h, eq_iff u t, eq_iff n name)

pub next_version-pos : (t : Tenant) (name : String) (rows : Rows) → 0 < next_version t name rows
unfolding next_version
next_version-pos t name [] = omega arith
next_version-pos t name ((k, y) ∷ rows) = ground (arith, next_version-pos t name rows)

pub record Numbered (rows : Rows) : Type 0 where
  pub stamped :
      (t : Tenant) (name : String) (v : ℕ) (x : TemplateVersion)
      → get by_version (t, name, v) rows ≡ some x
      → (x.name ≡ name) × (x.version ≡ v)
  pub counted :
      (t : Tenant) (name : String) (v : ℕ)
      → (is_some (get by_version (t, name, v) rows) ≡ true)
        ↔ ((0 < v) × (v < next_version t name rows))
  pub newest :
      (t : Tenant) (name : String)
      → latest t name rows ≡ get by_version (t, name, next_version t name rows - 1) rows

module _ (t : Tenant) (x : TemplateVersion) (rows : Rows) where
  unfoldable pub next : ℕ
  next = next_version t x.name rows

  absent : get by_version (t, x.name, next) rows ≡ none
  unfolding next
  absent = elim (Option-cases (get by_version (t, x.name, next) rows)) [
    | inl e ↦ e
    | inr (y, e) ↦ let l = get-next_version t x.name next y rows e in absurd (omega arith)
  ]

  unfoldable pub saved : Rows
  unfolding next
  saved = ((t, x.name, next), record x { version = next }) ∷ rows

  pub put-saved : put by_version (t, x.name, next) (record x { version = next }) rows ≡ saved
  unfolding put saved
  put-saved =
      ap (λ rest. ((t, x.name, next), record x { version = next }) ∷ rest)
        (delete-absent by_version _ rows absent)

  is_next :
      (u : Tenant) (name : String) (v : ℕ)
      → (by_version.same (t, x.name, next) (u, name, v) ≡ true)
        ↔ ((t ≡ u) × (x.name ≡ name) × (next ≡ v))
  is_next u name v = ground (arith, eq_iff t u, eq_iff x.name name)

  next-saved : next_version t x.name saved ≡ suc next
  unfolding saved next_version next
  next-saved = ground (arith, (eq_iff t t).1 refl, (eq_iff x.name x.name).1 refl)

  pub get-here : get by_version (t, x.name, next) saved ≡ some (record x { version = next })
  unfolding saved get
  get-here = rw ((is_next t x.name next).1 (refl, refl, refl)) refl

  get-before :
      (v : ℕ) → next ≢ v → get by_version (t, x.name, v) saved ≡ get by_version (t, x.name, v) rows
  unfolding saved get
  get-before v ne = elim (Bool-cases (by_version.same (t, x.name, next) (t, x.name, v))) [
    | inl e ↦ let (_, _, i) = (is_next t x.name v).0 e in absurd (ne i)
    | inr e ↦ rw e refl
  ]

  next-other :
      (u : Tenant) (name : String)
      → is_version_of u name (t, x.name, next) ≡ false
      → next_version u name saved ≡ next_version u name rows
  unfolding saved next_version
  next-other u name e = rw e refl

  latest-other :
      (u : Tenant) (name : String)
      → is_version_of u name (t, x.name, next) ≡ false
      → latest u name saved ≡ latest u name rows
  unfolding saved latest
  latest-other u name e = rw e refl

  get-other :
      (u : Tenant) (name : String) (v : ℕ)
      → is_version_of u name (t, x.name, next) ≡ false
      → get by_version (u, name, v) saved ≡ get by_version (u, name, v) rows
  unfolding saved get
  get-other u name v e =
      let f : by_version.same (t, x.name, next) (u, name, v) ≡ false = ground (arith, e) in
      rw f refl

  pub get-saved :
      (k : TemplateKey) (y : TemplateVersion)
      → get by_version k rows ≡ some y
      → get by_version k saved ≡ some y
  unfolding saved get
  get-saved (u, n, v) y h = elim (Bool-cases (by_version.same (t, x.name, next) (u, n, v))) [
    | inl e ↦
        let f = (by_version.same_iff (t, x.name, next) (u, n, v)).0 e in
        absurd (cc (absent, subst (λ k. get by_version k rows ≡ some y) (sym f) h))
    | inr e ↦ rw e h
  ]

  module _ (o : Numbered rows) where
    saved-stamped :
        (u : Tenant) (name : String) (v : ℕ) (y : TemplateVersion)
        → get by_version (u, name, v) saved ≡ some y
        → (y.name ≡ name) × (y.version ≡ v)
    unfolding saved get
    saved-stamped u name v y h =
        elim (Bool-cases (by_version.same (t, x.name, next) (u, name, v))) [
          | inl e ↦
              let (_, n, i) = (is_next u name v).0 e in
              let g : record x { version = next } ≡ y = some_inj (rw e at h) in
              (sym (ap (λ z. z.name) g) ∙ n, sym (ap (λ z. z.version) g) ∙ i)
          | inr e ↦ o.stamped u name v y (rw e at h)
        ]

    counted_here :
        (v : ℕ)
        → (is_some (get by_version (t, x.name, v) saved) ≡ true)
          ↔ ((0 < v) × (v < next_version t x.name saved))
    unfolding next
    counted_here v = elim (dec_eq next v) [
      | yes i ↦
          rw (sym i, get-here)
            (λ _. (next_version-pos t x.name rows, rw next-saved (omega arith)), λ _. refl)
      | no ne ↦
          rw (get-before v ne, next-saved) (let ih = o.counted t x.name v in ground (arith, ih, ne))
    ]

    newer_than :
        (found : Option TemplateVersion)
        → found ≡ get by_version (t, x.name, next - 1) rows
        → newer (record x { version = next }) found ≡ true
    unfolding newer next
    newer_than none e = refl
    newer_than (some y) e =
        let s = (o.stamped t x.name (next - 1) y (sym e)).1 in
        let p = next_version-pos t x.name rows in ground arith

    newest_here :
        latest t x.name saved ≡ get by_version (t, x.name, next_version t x.name saved - 1) saved
    unfolding saved latest next
    newest_here =
        let less : suc next - 1 ≡ next = omega arith in
        rw
          (
            next-saved,
            (is_of_iff t x.name t x.name next).1 (refl, refl),
            newer_than (latest t x.name rows) (o.newest t x.name),
            less,
          )
          (sym get-here)

    pub saved-Numbered : Numbered saved
    saved-Numbered = record {
      stamped = saved-stamped;
      counted = λ u name v. elim (Bool-cases (is_version_of u name (t, x.name, next))) [
        | inl e ↦
            let (i, n) = (is_of_iff u name t x.name next).0 e in
            subst₂
              (λ w m.
                (is_some (get by_version (w, m, v) saved) ≡ true)
                ↔ ((0 < v) × (v < next_version w m saved)))
              i n (counted_here v)
        | inr e ↦ rw (get-other u name v e, next-other u name e) (o.counted u name v)
      ];
      newest = λ u name. elim (Bool-cases (is_version_of u name (t, x.name, next))) [
        | inl e ↦
            let (i, n) = (is_of_iff u name t x.name next).0 e in
            subst₂
              (λ w m. latest w m saved ≡ get by_version (w, m, next_version w m saved - 1) saved) i
              n newest_here
        | inr e ↦
            rw
              (
                latest-other u name e,
                next-other u name e,
                get-other u name (next_version u name rows - 1) e,
              )
              (o.newest u name)
      ];
    }
