-- ===== src/Store/Claims.antt =====
-- internal/store/memory.go: `ClaimJobs` keeps the invariant.
use hostseal.Base.{
  ℕ, zero, suc, ◌≡◌, ◌≢◌, inl, inr, refl, sym, ◌∙◌, ap, subst, subst₂, String, Option, none, some,
  some_inj, List, [], ◌∷◌, All, All-map, Bool-cases, leb,
}
use hostseal.Base.Int.{ℤ}
use hostseal.Base.Assoc.{get, put, get-put, get-put_other, All-get}
use hostseal.Policy.Time.{Time}
use hostseal.Agent.Job.{Job}
use hostseal.Store.State.{Tenant, ScopedKey, scoped, JobRecord, Memory, set}
use hostseal.Store.Jobs.{page, take_due, stamp_found, stamp, claim_taken, claim_jobs}
use hostseal.Store.Sound.{
  Rows, Released, InOrder, Ready, Distinct, IsSound, Unqueued, put-IsSound, set-elim,
}

-- What holds of every job of the queue holds of those that are taken and of those that are left.
pub take_due-All :
    (P : Job → Type 0) (now : Time) (k : ℕ) (js : List Job)
    → All P js
    → let (taken, left) = take_due now k js in All P taken × All P left
unfolding take_due
take_due-All P now k [] h = (tt, tt)
take_due-All P now zero (j ∷ js) h = (tt, h)
take_due-All P now (suc k) (j ∷ js) (h, hs) =
    let (a, b) = take_due-All P now k js hs in
    let (c, d) = take_due-All P now (suc k) js hs in
    elim (Bool-cases (leb j.not_before now)) [ inl e ↦ rw e ((h, a), b) | inr e ↦ rw e (c, (h, d)) ]

abbrev pub Apart : List Job → Job → Type 0
Apart left c = All (λ d. d.id ≢ c.id) left

add-Apart :
    (j : Job) (left taken : List Job)
    → All (λ c. c.id ≢ j.id) taken
    → All (Apart left) taken
    → All (Apart (j ∷ left)) taken
add-Apart j left [] n a = tt
add-Apart j left (c ∷ taken) (n, ns) (a, as') = ((λ e. n (sym e), a), add-Apart j left taken ns as')

pub take_due-Distinct :
    (now : Time) (k : ℕ) (js : List Job)
    → Distinct js
    → let (taken, left) = take_due now k js in Distinct left × All (Apart left) taken
unfolding take_due
take_due-Distinct now k [] h = (tt, tt)
take_due-Distinct now zero (j ∷ js) h = (h, tt)
take_due-Distinct now (suc k) (j ∷ js) (h, hs) =
    let (a, b) = take_due-Distinct now k js hs in
    let (c, d) = take_due-Distinct now (suc k) js hs in
    let (e, f) = take_due-All (λ i. i.id ≢ j.id) now k js h in
    let (g, i) = take_due-All (λ i. i.id ≢ j.id) now (suc k) js h in
    elim (Bool-cases (leb j.not_before now)) [
      | inl due ↦ rw due (a, (f, b))
      | inr later ↦
          rw later ((i, c), add-Apart j (take_due now (suc k) js).1 (take_due now (suc k) js).0 g d)
    ]

-- What the record of this key says is released.
abbrev Open : Rows → ScopedKey → Type 0
Open rows k = (rec : JobRecord) → get scoped k rows ≡ some rec → Released rec

Ready-Open :
    (rows : Rows) (t : Tenant) (host : String) (j : Job) → Ready rows t host j → Open rows (t, j.id)
Ready-Open rows t host j r rec f = subst Released (some_inj (sym r.found ∙ f)) r.released

stamp_found-Open :
    (k b : ScopedKey) (now : Time) (rows : Rows) (o : Option JobRecord)
    → get scoped k rows ≡ o
    → Open rows b
    → Open (stamp_found k now rows o) b
unfolding stamp_found
stamp_found-Open k b now rows none f h = h
stamp_found-Open k b now rows (some rec) f h = elim (Bool-cases (scoped.same k b)) [
  | inl e ↦
      let d : k ≡ b = (scoped.same_iff k b).0 e in
      let v : JobRecord = record rec { claimed_at = now } in
      λ x g.
        subst Released
          (some_inj (
            sym (get-put scoped k v rows)
            ∙ subst (λ c. get scoped c (put scoped k v rows) ≡ some x) (sym d) g))
          (h rec (subst (λ c. get scoped c rows ≡ some rec) d f))
  | inr e ↦
      let v : JobRecord = record rec { claimed_at = now } in
      λ x g.
        h x (sym (get-put_other scoped k b v rows (λ d. cc ((scoped.same_iff k b).1 d, e))) ∙ g)
]

stamp_found-IsSound :
    (k : ScopedKey) (now : Time) (m : Memory) (o : Option JobRecord)
    → now ≢ 0
    → get scoped k m.records ≡ o
    → IsSound m
    → Unqueued k m
    → Open m.records k
    → IsSound (record m { records = stamp_found k now m.records o })
unfolding stamp_found
stamp_found-IsSound k now m none ne f s free opened = s
stamp_found-IsSound k now m (some rec) ne f s free opened =
    let (eyes, same, _) = All-get scoped InOrder k m.records s.approvals f in
    put-IsSound k (record rec { claimed_at = now }) m s free (eyes, same, inr (opened rec f))
      (λ r e. ne)

stamp-IsSound :
    (t : Tenant) (now : Time) (js : List Job) (m : Memory)
    → now ≢ 0
    → IsSound m
    → All (λ c. Unqueued (t, c.id) m) js
    → All (λ c. Open m.records (t, c.id)) js
    → IsSound (record m { records = stamp t now js m.records })
unfolding stamp
stamp-IsSound t now [] m ne s us os = s
stamp-IsSound t now (c ∷ cs) m ne s (u, us) (o, os) =
    let k : ScopedKey = (t, c.id) in
    let found = get scoped k m.records in
    let m' : Memory = record m { records = stamp_found k now m.records found } in
    stamp-IsSound t now cs m' ne (stamp_found-IsSound k now m found ne refl s u o) us (
      All-map (λ d. Open m.records (t, d.id)) (λ d. Open m'.records (t, d.id))
        (λ d h. stamp_found-Open k (t, d.id) now m.records found refl h) cs os)

module _ (t : Tenant) (host : String) (m : Memory) (s : IsSound m) where
  -- The store whose queue has only these jobs left.
  abbrev pub with_queue : List Job → Memory
  with_queue left = record m { jobs = set (t, host) left m.jobs }

  with_queue-IsSound :
      (left : List Job)
      → All (Ready m.records t host) left
      → Distinct left
      → IsSound (with_queue left)
  with_queue-IsSound left r d = record {
    queued =
        set-elim (λ q js. All (Ready m.records q.0 q.1) js) (t, host) left m.jobs r
          (λ q _. s.queued q);
    apart = set-elim (λ q js. Distinct js) (t, host) left m.jobs d (λ q _. s.apart q);
    approvals = s.approvals;
    reported = s.reported;
  }

  -- Two jobs of one key stand in one queue.
  same_queue :
      (c j : Job) (q : ScopedKey)
      → Ready m.records t host c
      → Ready m.records q.0 q.1 j
      → (t, host) ≢ q
      → ◌≢◌ {A = ScopedKey} (t, c.id) (q.0, j.id)
  same_queue c j q r u ne e =
      let f : r.rec ≡ u.rec =
        some_inj (sym r.found ∙ subst (λ k. get scoped k m.records ≡ some u.rec) (sym e) u.found) in
      ne (
        subst₂ (λ a b. ◌≡◌ {A = ScopedKey} (t, host) (a, b)) (ap (λ k. k.0) e)
          (sym r.its_host ∙ ap (λ x. x.host_id) f ∙ u.its_host) refl)

  with_queue-Unqueued :
      (left : List Job) (c : Job)
      → Ready m.records t host c
      → Apart left c
      → Unqueued (t, c.id) (with_queue left)
  with_queue-Unqueued left c r a =
      set-elim (λ q js. All (λ j. ◌≢◌ {A = ScopedKey} (t, c.id) (q.0, j.id)) js) (t, host) left
        m.jobs
        (All-map (λ d. d.id ≢ c.id) (λ d. ◌≢◌ {A = ScopedKey} (t, c.id) (t, d.id))
          (λ d n e. n (sym (ap (λ k. k.1) e))) left a)
        (λ q ne.
          All-map (Ready m.records q.0 q.1) (λ j. ◌≢◌ {A = ScopedKey} (t, c.id) (q.0, j.id))
            (λ j u. same_queue c j q r u ne) (m.jobs q) (s.queued q))

  taken_lem :
      (left taken : List Job)
      → All (Ready m.records t host) taken
      → All (Apart left) taken
      → All (λ c. Unqueued (t, c.id) (with_queue left)) taken
  taken_lem left [] rs as' = tt
  taken_lem left (c ∷ taken) (r, rs) (a, as') =
      (with_queue-Unqueued left c r a, taken_lem left taken rs as')

  claim_taken-IsSound :
      (now : Time) (taken left : List Job)
      → now ≢ 0
      → All (Ready m.records t host) taken
      → All (Ready m.records t host) left
      → Distinct left
      → All (Apart left) taken
      → IsSound (claim_taken t host now m (taken, left)).0
  unfolding claim_taken
  claim_taken-IsSound now [] left ne rs ls d as' = s
  claim_taken-IsSound now (c ∷ cs) left ne rs ls d as' =
      stamp-IsSound t now (c ∷ cs) (with_queue left) ne (with_queue-IsSound left ls d)
        (taken_lem left (c ∷ cs) rs as')
        (All-map (Ready m.records t host) (λ j. Open m.records (t, j.id))
          (λ j r. Ready-Open m.records t host j r) (c ∷ cs) rs)

  pub claim_jobs-IsSound :
      (limit : ℤ) (now : Time) → now ≢ 0 → IsSound (claim_jobs t host limit now m).0
  unfolding claim_jobs
  claim_jobs-IsSound limit now ne =
      let js = m.jobs (t, host) in
      let (rs, ls) =
        take_due-All (Ready m.records t host) now (page limit) js (s.queued (t, host)) in
      let (d, as') = take_due-Distinct now (page limit) js (s.apart (t, host)) in
      claim_taken-IsSound now (take_due now (page limit) js).0 (take_due now (page limit) js).1 ne
        rs ls d as'

  claim_taken-taken :
      (now : Time) (taken left : List Job) → (claim_taken t host now m (taken, left)).1 ≡ taken
  unfolding claim_taken
  claim_taken-taken now [] left = refl
  claim_taken-taken now (c ∷ cs) left = refl

  -- Every job that is claimed was ready for this host.
  pub claim_jobs-Ready :
      (limit : ℤ) (now : Time) → All (Ready m.records t host) (claim_jobs t host limit now m).1
  unfolding claim_jobs
  claim_jobs-Ready limit now =
      let js = m.jobs (t, host) in
      let (rs, ls) =
        take_due-All (Ready m.records t host) now (page limit) js (s.queued (t, host)) in
      subst (All (Ready m.records t host))
        (sym
          (claim_taken-taken now (take_due now (page limit) js).0 (take_due now (page limit) js).1))
        rs
