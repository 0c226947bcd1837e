-- ===== src/Store/Removal.antt =====
-- internal/store/memory.go: the operations on hosts and certificates keep the invariant of the jobs.
use hostseal.Base.{
  ◌≡◌, ◌≢◌, inl, inr, refl, sym, ◌∙◌, subst, subst₂, String, Bool, true, false, not, Option, none,
  some, some_inj, [], All, All-map, keep, Bool-cases, arith, eq_iff, str_eq, if◌then◌else◌, List,
}
use hostseal.Base.Assoc.{get, get-keep, All-keep}
use hostseal.Agent.Job.{Job}
use hostseal.Store.State.{Tenant, ScopedKey, scoped, by_id, JobRecord, Memory}
use hostseal.Store.Jobs.{is_some, find_host}
use hostseal.Store.Hosts.{owns_job, is_job_of, forget_host, delete_host}
use hostseal.Store.Tenants.{forget_tenant, delete_tenant}
use hostseal.Store.Sound.{Rows, InOrder, Ready, Distinct, IsSound, set-elim}

module _ (t : Tenant) (id : String) where
  abbrev stays : ScopedKey × JobRecord → Bool
  stays e = not (owns_job t id e)

  owns_job_lem :
      (k : ScopedKey) (rec : JobRecord)
      → owns_job t id (k, rec) ≡ true
      → (k.0 ≡ t) × (rec.host_id ≡ id)
  owns_job_lem k rec h = (ground (arith, eq_iff k.0 t), ground (arith, eq_iff rec.host_id id))

  other_stays :
      (q : ScopedKey) (i : String) (rec : JobRecord)
      → (t, id) ≢ q
      → rec.host_id ≡ q.1
      → stays ((q.0, i), rec) ≡ true
  other_stays q i rec ne e = elim (Bool-cases (owns_job t id ((q.0, i), rec))) [
    | inl o ↦
        let (a, b) = owns_job_lem (q.0, i) rec o in
        absurd (ne (subst₂ (λ x y. ◌≡◌ {A = ScopedKey} (t, id) (x, y)) (sym a) (sym b ∙ e) refl))
    | inr o ↦ rw o refl
  ]

  keep-Ready :
      (rows : Rows) (q : ScopedKey) (j : Job)
      → (t, id) ≢ q
      → Ready rows q.0 q.1 j
      → Ready (keep stays rows) q.0 q.1 j
  keep-Ready rows q j ne r = record {
    rec = r.rec;
    found = get-keep scoped stays (q.0, j.id) rows r.found (other_stays q j.id r.rec ne r.its_host);
    its_job = r.its_job;
    its_host = r.its_host;
    released = r.released;
    unclaimed = r.unclaimed;
  }

  is_job_of-some :
      (k : ScopedKey) (o : Option JobRecord) {rec : JobRecord}
      → o ≡ some rec
      → is_job_of t id k o ≡ false
      → stays (k, rec) ≡ true
  unfolding is_job_of
  is_job_of-some k none e h = cc
  is_job_of-some k (some x) e h = subst (λ y. stays (k, y) ≡ true) (some_inj e) (rw h refl)

  forget_host-IsSound : (m : Memory) → IsSound m → IsSound (forget_host t id m)
  unfolding forget_host
  forget_host-IsSound m s = record {
    queued =
        set-elim (λ q js. All (Ready (keep stays m.records) q.0 q.1) js) (t, id) [] m.jobs tt
          (λ q ne.
            All-map (Ready m.records q.0 q.1) (Ready (keep stays m.records) q.0 q.1)
              (λ j r. keep-Ready m.records q j ne r) (m.jobs q) (s.queued q));
    apart = set-elim (λ q js. Distinct js) (t, id) [] m.jobs tt (λ q ne. s.apart q);
    approvals = All-keep InOrder stays m.records s.approvals;
    reported = λ k {r = x} h. elim (Bool-cases (is_job_of t id k (get scoped k m.records))) [
      | inl e ↦ absurd (cc (rw e at h))
      | inr e ↦
          let (rec, f, c) = s.reported k (rw e at h) in
          (
            rec,
            get-keep scoped stays k m.records f (is_job_of-some k (get scoped k m.records) f e),
            c,
          )
    ];
  }

  pub delete_host-IsSound : (m : Memory) → IsSound m → IsSound (delete_host t id m).0
  unfolding delete_host
  delete_host-IsSound m s = elim (Bool-cases (is_some (find_host t id m))) [
    | inl e ↦ rw e (forget_host-IsSound m s)
    | inr e ↦ rw e s
  ]

module _ (t : Tenant) where
  abbrev others : ScopedKey × JobRecord → Bool
  others e = not (str_eq e.0.0 t)

  forget_tenant-Ready :
      (rows : Rows) (q : ScopedKey) (j : Job)
      → str_eq q.0 t ≡ false
      → Ready rows q.0 q.1 j
      → Ready (keep others rows) q.0 q.1 j
  forget_tenant-Ready rows q j ne r = record {
    rec = r.rec;
    found = get-keep scoped others (q.0, j.id) rows r.found (rw ne refl);
    its_job = r.its_job;
    its_host = r.its_host;
    released = r.released;
    unclaimed = r.unclaimed;
  }

  -- A queue of another tenant stays, and one of this tenant is empty.
  forget-elim :
      (P : ScopedKey → List Job → Type 0) (f : ScopedKey → List Job)
      → ((q : ScopedKey) → P q [])
      → ((q : ScopedKey) → str_eq q.0 t ≡ false → P q (f q))
      → (q : ScopedKey) → P q (if str_eq q.0 t then [] else f q)
  forget-elim P f h hs q = elim (Bool-cases (str_eq q.0 t)) [
    | inl e ↦ rw e (h q)
    | inr e ↦ rw e (hs q e)
  ]

  forget_tenant-IsSound : (m : Memory) → IsSound m → IsSound (forget_tenant t m)
  unfolding forget_tenant
  forget_tenant-IsSound m s = record {
    queued =
        forget-elim (λ q js. All (Ready (keep others m.records) q.0 q.1) js) m.jobs (λ q. tt)
          (λ q ne.
            All-map (Ready m.records q.0 q.1) (Ready (keep others m.records) q.0 q.1)
              (λ j r. forget_tenant-Ready m.records q j ne r) (m.jobs q) (s.queued q));
    apart = forget-elim (λ q js. Distinct js) m.jobs (λ q. tt) (λ q ne. s.apart q);
    approvals = All-keep InOrder others m.records s.approvals;
    reported = λ k {r = x} h. elim (Bool-cases (str_eq k.0 t)) [
      | inl e ↦ absurd (cc (rw e at h))
      | inr e ↦
          let (rec, f, c) = s.reported k (rw e at h) in
          (rec, get-keep scoped others k m.records f (rw e refl), c)
    ];
  }

  pub delete_tenant-IsSound : (m : Memory) → IsSound m → IsSound (delete_tenant t m).0
  unfolding delete_tenant
  delete_tenant-IsSound m s = elim (Bool-cases (is_some (get by_id t m.tenants))) [
    | inl e ↦ rw e (forget_tenant-IsSound m s)
    | inr e ↦ rw e s
  ]
