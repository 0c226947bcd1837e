-- ===== src/Store/AtMostOnce.antt =====
-- internal/store/memory.go: a job is delivered at most once.
use hostseal.Base.{◌≢◌, refl, sym, subst, String, List, [], ◌∷◌, All, All-map}
use hostseal.Base.Int.{ℤ}
use hostseal.Base.Assoc.{get}
use hostseal.Policy.Time.{Time}
use hostseal.Agent.Job.{Job}
use hostseal.Store.State.{TenantRow, Tenant, ScopedKey, scoped, Memory}
use hostseal.Store.Jobs.{approve_job, record_result, page, take_due, claim_taken, claim_jobs}
use hostseal.Store.Sound.{Ready}
use hostseal.Store.Claims.{claim_jobs-Ready, claim_jobs-IsSound}
use hostseal.Store.Quiet.{step-HostsOnly}
use hostseal.Store.Machine.{
  Op, create, approve, claim, report, remove, dissolve, step, steps, Timely, fresh, fresh-IsSound,
}
use hostseal.Store.Reachable.{steps-IsSound}
use hostseal.Store.Delivery.{
  Has, Claimed, create_job-Claimed, approve_found-Claimed, record_found-Claimed, stamp-Has,
  claim_jobs-new, Ready-unclaimed,
}

claim_taken-Claimed :
    (t : Tenant) (host : String) (now : Time) (m : Memory) (taken left : List Job) (b : ScopedKey)
    → now ≢ 0
    → Has Claimed b m.records
    → Has Claimed b (claim_taken t host now m (taken, left)).0.records
unfolding claim_taken
claim_taken-Claimed t host now m [] left b ne h = h
claim_taken-Claimed t host now m (j ∷ js) left b ne h =
    stamp-Has Claimed t b now (j ∷ js) m.records (λ v. ne) h

-- The removal of a host or of a tenant takes its jobs away, and their ids are free again.
abbrev pub Lasting : Tenant × Op → Type 0
Lasting (t, remove host) = Unit → ⊥
Lasting (t, dissolve) = Unit → ⊥
Lasting _ = Unit

pub step-Claimed :
    (op : Tenant × Op) (m : Memory) (b : ScopedKey)
    → Timely op
    → Lasting op
    → Has Claimed b m.records
    → Has Claimed b (step op m).records
unfolding step approve_job claim_jobs record_result
step-Claimed (t, create n) m b i l h = create_job-Claimed t n m b h
step-Claimed (t, approve id by now) m b i l h =
    approve_found-Claimed t id by now m (get scoped (t, id) m.records) b refl h
step-Claimed (t, claim host limit now) m b i l h =
    let js = take_due now (page limit) (m.jobs (t, host)) in
    claim_taken-Claimed t host now m js.0 js.1 b i h
step-Claimed (t, report host r now) m b i l h =
    record_found-Claimed t host r now m (get scoped (t, r.job_id) m.records) b refl h
step-Claimed (t, remove host) m b i l h = absurd (l tt)
step-Claimed (t, dissolve) m b i l h = absurd (l tt)
step-Claimed (t, op) m b i l h =
    let (ts, ks, hs, cs, e) = step-HostsOnly t op m tt in
    subst (λ n. Has Claimed b n.records) (sym e) h

steps-Claimed :
    (ops : List (Tenant × Op)) (m : Memory) (b : ScopedKey)
    → All Timely ops
    → All Lasting ops
    → Has Claimed b m.records
    → Has Claimed b (steps m ops).records
unfolding steps
steps-Claimed [] m b i l h = h
steps-Claimed (op ∷ ops) m b (i, is) (l, ls) h =
    steps-Claimed ops (step op m) b is ls (step-Claimed op m b i l h)

-- In a store that began with nothing but tenants, where no release and no claim was dated at the
-- zero time: after a claim, and whatever is done since, short of the removal of a host or of a
-- tenant, no host of the tenant is given a job again whose id was in that claim.
pub claim_jobs-once :
    (ts : List (Tenant × TenantRow)) (before later : List (Tenant × Op)) (t : Tenant)
    (host other : String) (limit limit' : ℤ) (now now' : Time)
    → now ≢ 0
    → All Timely before
    → All Timely later
    → All Lasting later
    → let (m, first) = claim_jobs t host limit now (steps (fresh ts) before) in
      All (λ j. All (λ i. i.id ≢ j.id) (claim_jobs t other limit' now' (steps m later)).1) first
claim_jobs-once ts before later t host other limit limit' now now' ne i i' l =
    let m0 = steps (fresh ts) before in
    let s0 = steps-IsSound before (fresh ts) i (fresh-IsSound ts) in
    let m1 = (claim_jobs t host limit now m0).0 in
    let m2 = steps m1 later in
    let s2 = steps-IsSound later m1 i' (claim_jobs-IsSound t host m0 s0 limit now ne) in
    All-map (λ j. Has Claimed (t, j.id) m1.records)
      (λ j. All (λ i. i.id ≢ j.id) (claim_jobs t other limit' now' m2).1)
      (λ j h.
        All-map (Ready m2.records t other) (λ i. i.id ≢ j.id)
          (λ i r.
            Ready-unclaimed m2.records t other i j (steps-Claimed later m1 (t, j.id) i' l h) r)
          (claim_jobs t other limit' now' m2).1 (claim_jobs-Ready t other m2 s2 limit' now'))
      (claim_jobs t host limit now m0).1 (claim_jobs-new Claimed now (λ v. ne) t host limit m0 s0)
