-- ===== src/Store/Separation.antt =====
-- internal/store/memory.go: no operation on hosts and certificates disturbs another tenant.
use hostseal.Base.{
  ◌≡◌, ◌≢◌, refl, sym, ◌∙◌, ap, inl, inr, String, true, false, not, ◌&&◌, ◌||◌, Option, none, some,
  List, [], ◌∷◌, map, Result, ok, ok_inj, err, Bool-cases, str_eq, eq_iff, ltb, arith,
}
use hostseal.Base.Int.{pos, ltb_ℤ}
use hostseal.Base.Assoc.{get, put}
use hostseal.Policy.Time.{Time, is_zero}
use hostseal.Store.State.{
  Tenant, TenantRow, TokenRow, Host, HostRow, Certificate, by_id, Memory, StoreError,
}
use hostseal.Store.Jobs.{is_some, of_tenant, find_host}
use hostseal.Store.Hosts.{
  active_hosts, has_room, machine_taken, stamp_certificate, enrol_stamped, enrol_in, update_found,
  owns_cert, revoke_cert, revoke_found, supersede_found, supersede_certificate, insert_certificate,
  add_stamped, Renewal, count_live_certificates, renew_stamped, renew_certificate,
}
use hostseal.Store.Apart.{Undisturbed, same_store, Undisturbed-trans, differ, owned, owned-put}
use hostseal.Store.Isolation.{either_way}

abbrev pub tenant_of : HostRow → Tenant
tenant_of r = r.tenant

abbrev pub issuer : TokenRow → Tenant
issuer r = r.tenant

abbrev pub bearer : Certificate → Tenant
bearer c = c.tenant_id

abbrev host_in : Option HostRow → Option Host
host_in none = none
host_in (some r) = some r.host

of_tenant-owned : (u : Tenant) (o : Option HostRow) → of_tenant u o ≡ host_in (owned tenant_of u o)
unfolding of_tenant
of_tenant-owned u none = refl
of_tenant-owned u (some r) = elim (Bool-cases (str_eq r.tenant u)) [
  | inl e ↦ rw e refl
  | inr e ↦ rw e refl
]

-- A change of the other tables.
pub row_tables :
    (u : Tenant) (m : Memory) (ts : List (Tenant × TenantRow)) (ks : List (String × TokenRow))
    (hs : List (String × HostRow)) (cs : List (String × Certificate))
    → get by_id u ts ≡ get by_id u m.tenants
    → ((i : String) → owned issuer u (get by_id i ks) ≡ owned issuer u (get by_id i m.tokens))
    → ((i : String) → owned tenant_of u (get by_id i hs) ≡ owned tenant_of u (get by_id i m.hosts))
    → ((i : String) → owned bearer u (get by_id i cs) ≡ owned bearer u (get by_id i m.certs))
    → Undisturbed u m (record m { tenants = ts; tokens = ks; hosts = hs; certs = cs })
unfolding find_host
row_tables u m ts ks hs cs t k h c = record {
  row = t;
  token = k;
  host = λ i.
      of_tenant-owned u (get by_id i hs)
      ∙ ap host_in (h i)
      ∙ sym (of_tenant-owned u (get by_id i m.hosts));
  cert = c;
  queue = λ i. refl;
  job = λ i. refl;
  result = λ i. refl;
}

pub none_there :
    {V : Type 0} (owner : V → Tenant) (u : Tenant) (o : Option V)
    → is_some o ≡ false
    → owned owner u o ≡ none
none_there owner u none h = refl
none_there owner u (some v) h = cc

module _ (t u : Tenant) (ne : t ≢ u) where
  pub found_not_theirs :
      (o : Option HostRow) {h : Host} → of_tenant t o ≡ some h → owned tenant_of u o ≡ none
  unfolding of_tenant
  found_not_theirs none e = refl
  found_not_theirs (some r) e = elim (Bool-cases (str_eq r.tenant t)) [
    | inl f ↦ rw ((eq_iff r.tenant t).0 f, differ t u ne) refl
    | inr f ↦ absurd (cc (rw f at e))
  ]

  -- Certificates are the only rows that change, and the one that is written takes no place of the
  -- other tenant's.
  put_cert-Undisturbed :
      (fp : String) (c : Certificate) (m : Memory)
      → c.tenant_id ≡ t
      → owned bearer u (get by_id fp m.certs) ≡ none
      → Undisturbed u m (record m { certs = put by_id fp c m.certs })
  put_cert-Undisturbed fp c m e h =
      row_tables u m m.tenants m.tokens m.hosts _ refl (λ i. refl) (λ i. refl)
        (λ i. owned-put bearer t u ne fp c m.certs i e h)

  insert_certificate-Undisturbed :
      (c : Certificate) (m : Memory) → c.tenant_id ≡ t → Undisturbed u m (insert_certificate c m)
  unfolding insert_certificate
  insert_certificate-Undisturbed c m e =
      elim (Bool-cases (is_some (get by_id c.fingerprint m.certs))) [
        | inl f ↦ rw f (same_store u m)
        | inr f ↦ rw f (
            put_cert-Undisturbed c.fingerprint c m e
              (none_there bearer u (get by_id c.fingerprint m.certs) f))
      ]

  their_cert :
      (c : Certificate) (o : Option Certificate)
      → o ≡ some c
      → c.tenant_id ≡ t
      → owned bearer u o ≡ none
  their_cert c o f e = rw (f, e, differ t u ne) refl

  pub supersede_found-Undisturbed :
      (fp : String) (at : Time) (m : Memory) (o : Option Certificate)
      → get by_id fp m.certs ≡ o
      → Undisturbed u m (supersede_found t fp at m o)
  unfolding supersede_found
  supersede_found-Undisturbed fp at m none f = same_store u m
  supersede_found-Undisturbed fp at m (some c) f =
      elim (Bool-cases
        (str_eq c.tenant_id t && (is_zero c.superseded_at || ltb at c.superseded_at))) [
          | inl e ↦
              let own : c.tenant_id ≡ t = (eq_iff c.tenant_id t).0 (ground arith) in
              rw e (
                put_cert-Undisturbed fp (record c { superseded_at = at }) m own
                  (their_cert c (get by_id fp m.certs) f own))
          | inr e ↦ rw e (same_store u m)
        ]

  stamped_own : (c : Certificate) {d : Certificate} → stamp_certificate t c ≡ ok d → d.tenant_id ≡ t
  unfolding stamp_certificate
  stamped_own c e = elim (Bool-cases (str_eq c.tenant_id "")) [
    | inl f ↦ sym (ap (λ x. x.tenant_id) (ok_inj (rw f at e)))
    | inr f ↦ elim (Bool-cases (str_eq c.tenant_id t)) [
      | inl g ↦ sym (ap (λ x. x.tenant_id) (ok_inj (rw (f, g) at e))) ∙ (eq_iff c.tenant_id t).0 g
      | inr g ↦ absurd (cc (rw (f, g) at e))
    ]
  ]

  pub add_stamped-Undisturbed :
      (c : Certificate) (m : Memory) (r : Result StoreError Certificate)
      → stamp_certificate t c ≡ r
      → Undisturbed u m (add_stamped t m r).0
  unfolding add_stamped
  add_stamped-Undisturbed c m (err e) f = same_store u m
  add_stamped-Undisturbed c m (ok d) f =
      either_way u m (is_some (find_host t d.host_id m)) _ _
        (insert_certificate-Undisturbed d m (stamped_own c f)) (same_store u m)

  renew_stamped-Undisturbed :
      (r : Renewal) (m : Memory) (x : Certificate) (c : Result StoreError Certificate)
      → stamp_certificate t x ≡ c
      → Undisturbed u m (renew_stamped t r m c).0
  unfolding renew_stamped supersede_certificate
  renew_stamped-Undisturbed r m x (err e) f = same_store u m
  renew_stamped-Undisturbed r m x (ok c) f =
      let n = insert_certificate c m in
      Undisturbed-trans u m n _ (insert_certificate-Undisturbed c m (stamped_own x f)) (
        supersede_found-Undisturbed r.presented r.supersede_at n (get by_id r.presented n.certs)
          refl)

  pub renew_certificate-Undisturbed :
      (r : Renewal) (m : Memory) → Undisturbed u m (renew_certificate t r m).0
  unfolding renew_certificate
  renew_certificate-Undisturbed r m =
      either_way u m (not (is_some (find_host t r.replacement.host_id m))) _ _ (same_store u m) (
        either_way u m
          (not (ltb_ℤ (pos (count_live_certificates t r.replacement.host_id r.now m)) r.max_live)) _
          _ (same_store u m)
          (renew_stamped-Undisturbed r m r.replacement (stamp_certificate t r.replacement) refl))

  put_host-Undisturbed :
      (id : String) (h : Host) (m : Memory) (cs : List (String × Certificate))
      → owned tenant_of u (get by_id id m.hosts) ≡ none
      → ((i : String) → owned bearer u (get by_id i cs) ≡ owned bearer u (get by_id i m.certs))
      → Undisturbed u m
          (record m { hosts = put by_id id (record { host = h; tenant = t }) m.hosts; certs = cs })
  put_host-Undisturbed id h m cs e c =
      row_tables u m m.tenants m.tokens _ cs refl (λ i. refl)
        (λ i. owned-put tenant_of t u ne id (record { host = h; tenant = t }) m.hosts i refl e) c

  enrol_stamped-Undisturbed :
      (h : Host) (m : Memory) (c : Certificate) (r : Result StoreError Certificate)
      → stamp_certificate t c ≡ r
      → Undisturbed u m (enrol_stamped t h m r).0
  unfolding enrol_stamped
  enrol_stamped-Undisturbed h m c (err e) f = same_store u m
  enrol_stamped-Undisturbed h m c (ok cert) f =
      elim (Bool-cases (is_some (get by_id h.id m.hosts))) [
        | inl a ↦ rw a (same_store u m)
        | inr a ↦ elim (Bool-cases (is_some (get by_id cert.fingerprint m.certs))) [
          | inl b ↦ rw (a, b) (same_store u m)
          | inr b ↦
              rw (a, b)
                (either_way u m (machine_taken t h m.hosts) _ _ (same_store u m) (
                  put_host-Undisturbed h.id h m _
                    (none_there tenant_of u (get by_id h.id m.hosts) a)
                    (λ i.
                      owned-put bearer t u ne cert.fingerprint cert m.certs i (stamped_own c f)
                        (none_there bearer u (get by_id cert.fingerprint m.certs) b))))
        ]
      ]

  pub enrol_in-Undisturbed :
      (h : Host) (c : Certificate) (m : Memory) (o : Option TenantRow)
      → Undisturbed u m (enrol_in t h c m o).0
  unfolding enrol_in
  enrol_in-Undisturbed h c m none = same_store u m
  enrol_in-Undisturbed h c m (some row) =
      either_way u m (not (has_room row.host_limit (active_hosts t m))) _ _ (same_store u m) (
        either_way u m (not (str_eq c.host_id h.id)) _ _ (same_store u m)
          (enrol_stamped-Undisturbed h m c (stamp_certificate t c) refl))

  pub update_found-Undisturbed :
      (id : String) (f : Host → Host) (m : Memory) (o : Option Host)
      → of_tenant t (get by_id id m.hosts) ≡ o
      → Undisturbed u m (update_found t id f m o).0
  unfolding update_found
  update_found-Undisturbed id f m none e = same_store u m
  update_found-Undisturbed id f m (some h) e =
      put_host-Undisturbed id (f h) m m.certs (found_not_theirs (get by_id id m.hosts) e)
        (λ i. refl)

  revoked_certs :
      (id : String) (now : Time) (cs : List (String × Certificate)) (i : String)
      → owned bearer u (get by_id i (map (revoke_cert t id now) cs))
        ≡ owned bearer u (get by_id i cs)
  unfolding get
  revoked_certs id now [] i = refl
  revoked_certs id now ((fp, c) ∷ cs) i = elim (Bool-cases (owns_cert t id (fp, c))) [
    | inr e ↦ elim (Bool-cases (str_eq fp i)) [
      | inl f ↦ rw (e, f) refl
      | inr f ↦ rw (e, f) (revoked_certs id now cs i)
    ]
    | inl e ↦ elim (Bool-cases (str_eq fp i)) [
      | inl f ↦
          let own : c.tenant_id ≡ t = (eq_iff c.tenant_id t).0 (ground arith) in
          rw (e, f, own, differ t u ne) refl
      | inr f ↦ rw (e, f) (revoked_certs id now cs i)
    ]
  ]

  pub revoke_found-Undisturbed :
      (id : String) (now : Time) (m : Memory) (o : Option Host)
      → of_tenant t (get by_id id m.hosts) ≡ o
      → Undisturbed u m (revoke_found t id now m o).0
  unfolding revoke_found
  revoke_found-Undisturbed id now m none e = same_store u m
  revoke_found-Undisturbed id now m (some h) e =
      put_host-Undisturbed id (record h { revoked = true }) m _
        (found_not_theirs (get by_id id m.hosts) e) (λ i. revoked_certs id now m.certs i)
