-- ===== src/Store/Deletion.antt =====
-- internal/store/memory.go: a host that one tenant removes disturbs no other tenant.
use hostseal.Base.{
  ◌≡◌, ◌≢◌, refl, sym, subst, inl, inr, String, true, false, not, Option, none, some, List, [],
  Bool-cases, str_eq, eq_iff, arith, keep, if◌then◌else◌,
}
use hostseal.Base.Assoc.{get, delete, get-keep_all, get-keep_keys}
use hostseal.Store.State.{Tenant, Host, scoped, by_id, JobRecord, Certificate, Memory}
use hostseal.Store.Jobs.{is_some, of_tenant, find_host}
use hostseal.Store.Hosts.{owns_cert, is_cert_of, owns_job, is_job_of, forget_host, delete_host}
use hostseal.Store.Apart.{Undisturbed, same_store, differ, owned, set-apart}
use hostseal.Store.Separation.{tenant_of, bearer, row_tables, found_not_theirs}

find_host-some :
    (t : Tenant) (id : String) (m : Memory)
    → is_some (find_host t id m) ≡ true
    → (h : Host) × (of_tenant t (get by_id id m.hosts) ≡ some h)
unfolding find_host
find_host-some t id m e = present (of_tenant t (get by_id id m.hosts)) e
  where
    present : (o : Option Host) → is_some o ≡ true → (h : Host) × (o ≡ some h)
    present none e = cc
    present (some h) e = (h, refl)

-- A host that goes was not the other tenant's.
owned-delete :
    {V : Type 0} (owner : V → Tenant) (u : Tenant) (a : String) (rows : List (String × V))
    (i : String)
    → owned owner u (get by_id a rows) ≡ none
    → owned owner u (get by_id i (delete by_id a rows)) ≡ owned owner u (get by_id i rows)
unfolding delete
owned-delete owner u a rows i e =
    rw (get-keep_keys by_id (λ k. not (str_eq k a)) i rows) (elim (Bool-cases (str_eq i a)) [
      | inr f ↦ rw f refl
      | inl f ↦
          rw f
            (sym (subst (λ k. owned owner u (get by_id k rows) ≡ none) (sym ((eq_iff i a).0 f)) e))
    ])

module _ (t u : Tenant) (ne : t ≢ u) where
  other_result : (id i : String) (o : Option JobRecord) → is_job_of t id (u, i) o ≡ false
  unfolding is_job_of
  other_result id i none = refl
  other_result id i (some rec) = rw (differ u t (λ e. ne (sym e))) refl

  forgotten_cert :
      (id i : String) (o : Option Certificate)
      → owned bearer u (if not (is_cert_of t id i o) then o else none) ≡ owned bearer u o
  unfolding is_cert_of
  forgotten_cert id i none = refl
  forgotten_cert id i (some c) = elim (Bool-cases (owns_cert t id (i, c))) [
    | inr e ↦ rw e refl
    | inl e ↦
        let own : c.tenant_id ≡ t = (eq_iff c.tenant_id t).0 (ground arith) in
        rw (e, own, differ t u ne) refl
  ]

  forgotten_certs :
      (id : String) (cs : List (String × Certificate)) (i : String)
      → owned bearer u (get by_id i (keep (λ e. not (is_cert_of t id e.0 (get by_id e.0 cs))) cs))
        ≡ owned bearer u (get by_id i cs)
  forgotten_certs id cs i =
      rw (get-keep_keys by_id (λ k. not (is_cert_of t id k (get by_id k cs))) i cs)
        (forgotten_cert id i (get by_id i cs))

  forget_host-Undisturbed :
      (id : String) (m : Memory) {h : Host}
      → of_tenant t (get by_id id m.hosts) ≡ some h
      → Undisturbed u m (forget_host t id m)
  unfolding forget_host
  forget_host-Undisturbed id m e =
      let apart =
        row_tables u m m.tenants m.tokens (delete by_id id m.hosts) m.certs refl (λ i. refl)
          (λ i.
            owned-delete tenant_of u id m.hosts i
              (found_not_theirs t u ne (get by_id id m.hosts) e))
          (λ i. refl) in
      record {
        row = refl;
        token = λ i. refl;
        host = unfold find_host in apart.host;
        cert = forgotten_certs id m.certs;
        queue = λ i. set-apart t u ne id [] m.jobs i;
        job = λ i.
            get-keep_all scoped (λ e. not (owns_job t id e)) (u, i) m.records
              (λ v. rw (differ u t (λ e. ne (sym e))) refl);
        result = λ i. rw (other_result id i (get scoped (u, i) m.records)) refl;
      }

  pub delete_host-Undisturbed : (id : String) (m : Memory) → Undisturbed u m (delete_host t id m).0
  unfolding delete_host
  delete_host-Undisturbed id m = elim (Bool-cases (is_some (find_host t id m))) [
    | inr e ↦ rw e (same_store u m)
    | inl e ↦ let (h, f) = find_host-some t id m e in rw e (forget_host-Undisturbed id m f)
  ]
