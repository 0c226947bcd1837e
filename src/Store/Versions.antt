-- ===== src/Store/Versions.antt =====
-- internal/store/memory_templates.go: the versions of a template are numbered and never change.
use hostseal.Base.{
  ℕ, zero, suc, ◌-◌, ◌≤◌, ◌<◌, ◌≡◌, refl, sym, ◌∙◌, ap, inl, inr, String, false, some, List, [], ok,
  err, Bool-cases, Option-cases, arith, ok_inj,
}
use hostseal.Base.Int.{ℤ, ltb_ℤ, pos, negsuc}
use hostseal.Base.Assoc.{get}
use hostseal.Store.State.{not_found, Tenant, TenantRow, by_id}
use hostseal.Store.Jobs.{is_some}
use hostseal.Store.Tenants.{or_not_found}
use hostseal.Store.Templates.{
  TemplateVersion, by_version, Templates, next_version, TemplateOp, revise_all,
  create_template_version, latest, get_template_version, no_templates,
}
use hostseal.Store.Numbering.{Numbered, next, put-saved, get-here, next_version-pos}
use hostseal.Store.Revised.{revise_all-Numbered, revise_all-Kept}

get_template_version-found :
    (t : Tenant) (name : String) (v : ℕ) (x : TemplateVersion) (m : Templates)
    → 0 < v
    → get by_version (t, name, v) m.templates ≡ some x
    → get_template_version t name (pos v) m ≡ ok x
unfolding get_template_version or_not_found
get_template_version-found t name zero x m l h = absurd (omega (arith, l))
get_template_version-found t name (suc v) x m l h = rw h refl

create-next :
    (t : Tenant) (x : TemplateVersion) (m : Templates) (v : ℕ)
    → (create_template_version t x m).1 ≡ ok v
    → (0 < v)
      × (get by_version (t, x.name, v) (create_template_version t x m).0.templates
          ≡ some (record x { version = v }))
unfolding create_template_version next
create-next t x m v h = elim (Bool-cases (is_some (get by_id t m.tenants))) [
  | inl e ↦
      let i : next_version t x.name m.templates ≡ v = ok_inj (rw e at h) in
      rw (sym i, e, put-saved t x m.templates)
        (next_version-pos t x.name m.templates, get-here t x m.templates)
  | inr e ↦ absurd (cc (rw e at h))
]

-- A version that was stored is found under the number that it was given, as it was stored, after
-- whatever any tenants save, archive and restore then.
pub create_template_version-kept :
    (t : Tenant) (x : TemplateVersion) (m : Templates) (v : ℕ)
    → (create_template_version t x m).1 ≡ ok v
    → (ops : List (Tenant × TemplateOp))
    → get_template_version t x.name (pos v) (revise_all (create_template_version t x m).0 ops)
      ≡ ok (record x { version = v })
create_template_version-kept t x m v h ops =
    let (l, g) = create-next t x m v h in
    get_template_version-found t x.name v _ _ l
      (revise_all-Kept (create_template_version t x m).0 ops _ _ g)

none-Numbered : Numbered []
unfolding get next_version latest
none-Numbered = record {
  stamped = λ t name v x e. cc;
  counted = λ t name v. (λ e. cc, λ (l, g). absurd (omega (arith, l, g)));
  newest = λ t name. refl;
}

-- What an operator finds under a name: so many versions, numbered from 1, the last of which is the
-- one that is meant where no positive number is given.
pub record Listed (m : Templates) (t : Tenant) (name : String) : Type 0 where
  pub count : ℕ
  pub found :
      (v : ℕ)
      → 0 < v
      → v ≤ count
      → (x : TemplateVersion) × (get_template_version t name (pos v) m ≡ ok x)
        × (x.name ≡ name)
        × (x.version ≡ v)
  pub beyond : (v : ℕ) → 0 < v → count < v → get_template_version t name (pos v) m ≡ err not_found
  pub newest :
      (z : ℤ)
      → ltb_ℤ (pos 0) z ≡ false
      → 0 < count
      → get_template_version t name z m ≡ get_template_version t name (pos count) m
  pub unnamed :
      (z : ℤ)
      → ltb_ℤ (pos 0) z ≡ false
      → count ≡ 0
      → get_template_version t name z m ≡ err not_found

module _ (t : Tenant) (name : String) (m : Templates) (o : Numbered m.templates) where
  last : ℕ
  last = next_version t name m.templates - 1

  get-latest :
      (z : ℤ)
      → ltb_ℤ (pos 0) z ≡ false
      → get_template_version t name z m ≡ or_not_found (get by_version (t, name, last) m.templates)
  unfolding get_template_version last
  get-latest (pos zero) e = ap or_not_found (o.newest t name)
  get-latest (pos (suc v)) e = absurd (ground (arith, e))
  get-latest (negsuc v) e = ap or_not_found (o.newest t name)

  get-exact :
      (v : ℕ)
      → 0 < v
      → get_template_version t name (pos v) m
        ≡ or_not_found (get by_version (t, name, v) m.templates)
  unfolding get_template_version
  get-exact zero l = absurd (omega (arith, l))
  get-exact (suc v) l = refl

  get-gone :
      (v : ℕ)
      → ((0 < v) × (v < next_version t name m.templates) → ⊥)
      → or_not_found (get by_version (t, name, v) m.templates) ≡ err not_found
  unfolding or_not_found
  get-gone v gone = elim (Option-cases (get by_version (t, name, v) m.templates)) [
    | inl e ↦ rw e refl
    | inr (x, e) ↦ absurd (gone ((o.counted t name v).0 (rw e refl)))
  ]

  Numbered-Listed : Listed m t name
  unfolding last or_not_found
  Numbered-Listed = record {
    count = last;
    found = λ v l g. elim (Option-cases (get by_version (t, name, v) m.templates)) [
      | inl e ↦
          let c =
            (o.counted t name v).1 (l, omega (arith, g, next_version-pos t name m.templates)) in
          absurd (cc (e, c))
      | inr (x, e) ↦ let (n, i) = o.stamped t name v x e in (x, rw (get-exact v l, e) refl, n, i)
    ];
    beyond = λ v l g. get-exact v l ∙ get-gone v (λ (p, q). omega (arith, g, q));
    newest = λ z e l. get-latest z e ∙ sym (get-exact last l);
    unnamed = λ z e n. get-latest z e ∙ get-gone last (λ (p, q). omega (arith, n, p));
  }

-- Whatever the tenants have saved, archived and restored since there were no templates, the versions
-- under a name are numbered from 1 without a gap, each carries its name and its number, and a lookup
-- without a positive number finds the last of them, or nothing if there is none.
pub revise_all-Listed :
    (ts : List (Tenant × TenantRow)) (ops : List (Tenant × TemplateOp)) (t : Tenant) (name : String)
    → Listed (revise_all (no_templates ts) ops) t name
revise_all-Listed ts ops t name =
    Numbered-Listed t name (revise_all (no_templates ts) ops)
      (revise_all-Numbered (no_templates ts) ops none-Numbered)
