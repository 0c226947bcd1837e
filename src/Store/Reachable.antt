-- ===== src/Store/Reachable.antt =====
-- internal/store/memory.go: the invariant holds after any operations of any tenants, and what it says
-- of a claimed job.
use hostseal.Base.{
  ◌≡◌, ◌≢◌, ◌⊎◌, inl, inr, sym, ◌∙◌, ap, refl, subst, All-both, String, false, List, [], ◌∷◌, All,
  All-map, some,
}
use hostseal.Base.Int.{ℤ}
use hostseal.Base.Assoc.{get, All-get}
use hostseal.Policy.Time.{Time}
use hostseal.Agent.Job.{Job}
use hostseal.Store.State.{Tenant, ScopedKey, scoped, JobRecord, Memory}
use hostseal.Store.Jobs.{claim_jobs}
use hostseal.Store.Sound.{IsSound, Unqueued, InOrder, Ready, Rows}
use hostseal.Store.Delivery.{Has, Claimed, claim_jobs-new, Ready-unclaimed}
use hostseal.Store.Keeps.{create_job-IsSound, approve_job-IsSound, record_result-IsSound}
use hostseal.Store.Claims.{claim_jobs-IsSound, claim_jobs-Ready}
use hostseal.Store.Removal.{delete_host-IsSound, delete_tenant-IsSound}
use hostseal.Store.Quiet.{HostsOnly, step-HostsOnly}
use hostseal.Store.Machine.{
  Op, create, approve, claim, report, remove, dissolve, step, steps, Timely, fresh, fresh-IsSound,
}

HostsOnly-IsSound : (m n : Memory) → HostsOnly m n → IsSound m → IsSound n
HostsOnly-IsSound m n (ts, ks, hs, cs, e) s =
    subst IsSound (sym e) (record {
      queued = s.queued;
      apart = s.apart;
      approvals = s.approvals;
      reported = s.reported;
    })

pub step-IsSound : (op : Tenant × Op) (m : Memory) → Timely op → IsSound m → IsSound (step op m)
unfolding step
step-IsSound (t, create n) m i s = create_job-IsSound t n m s
step-IsSound (t, approve id by now) m i s = approve_job-IsSound t id by now m i s
step-IsSound (t, claim host limit now) m i s = claim_jobs-IsSound t host m s limit now i
step-IsSound (t, report host r now) m i s = record_result-IsSound t host r now m s
step-IsSound (t, remove host) m i s = delete_host-IsSound t host m s
step-IsSound (t, dissolve) m i s = delete_tenant-IsSound t m s
step-IsSound (t, op) m i s = HostsOnly-IsSound m (step (t, op) m) (step-HostsOnly t op m tt) s

pub steps-IsSound :
    (ops : List (Tenant × Op)) (m : Memory) → All Timely ops → IsSound m → IsSound (steps m ops)
unfolding steps
steps-IsSound [] m i s = s
steps-IsSound (op ∷ ops) m (i, is) s = steps-IsSound ops (step op m) is (step-IsSound op m i s)

-- A record that lets this host have its job: it is the job's own, for this host, not claimed before,
-- and it was released by an operator where that was asked for, by one other than its creator where
-- that was asked for too.
pub record Handed (rows : Rows) (t : Tenant) (host : String) (j : Job) : Type 0 where
  pub rec : JobRecord
  pub found : get scoped (t, j.id) rows ≡ some rec
  pub its_job : rec.job ≡ j
  pub its_host : rec.host_id ≡ host
  pub unclaimed : rec.claimed_at ≡ 0
  pub released : (rec.approval_required ≡ false) ⊎ (rec.approved_at ≢ 0)
  pub other_eyes :
      rec.approved_at ≢ 0
      → (rec.approval_distinct_operator ≡ false) ⊎ (rec.created_by ≢ rec.approved_by)

Ready-Handed :
    (m : Memory) (t : Tenant) (host : String) (j : Job)
    → IsSound m
    → Ready m.records t host j
    → Handed m.records t host j
Ready-Handed m t host j s r = record {
  rec = r.rec;
  found = r.found;
  its_job = r.its_job;
  its_host = r.its_host;
  unclaimed = r.unclaimed;
  released = r.released;
  other_eyes = λ ne.
      let (eyes, _, _) = All-get scoped InOrder (t, j.id) m.records s.approvals r.found in
      elim eyes [ inl z ↦ absurd (ne z) | inr (_, e) ↦ e ];
}

-- The claim of a job in the store that it leaves: it stands in the record, and no queue has the job.
pub record Noted (n : Memory) (t : Tenant) (now : Time) (j : Job) : Type 0 where
  pub stamped : Has (λ rec. rec.claimed_at ≡ now) (t, j.id) n.records
  pub unqueued : Unqueued (t, j.id) n

Claimed-Unqueued :
    (n : Memory) (t : Tenant) (j : Job)
    → IsSound n
    → Has Claimed (t, j.id) n.records
    → Unqueued (t, j.id) n
Claimed-Unqueued n t j s h (u, other) =
    All-map (Ready n.records u other) (λ i. ◌≢◌ {A = ScopedKey} (t, j.id) (u, i.id))
      (λ i r e.
        Ready-unclaimed n.records u other i j
          (subst (λ x. Has Claimed (x, j.id) n.records) (ap (λ k. k.0) e) h) r
          (sym (ap (λ k. k.1) e)))
      (n.jobs (u, other)) (s.queued (u, other))

-- In a store that began with nothing but tenants, where no release and no claim was dated at the zero
-- time, a host that claims is given only jobs that were created for it in its own tenant, that were
-- released as their records ask, and whose records show no claim, whatever the tenants did; the claim
-- then stands in each of those records with its time, and the job in no queue.
pub claim_jobs-Handed :
    (ts : _) (ops : List (Tenant × Op)) (t : Tenant) (host : String) (limit : ℤ) (now : Time)
    → now ≢ 0
    → All Timely ops
    → let m = steps (fresh ts) ops in
      let (n, js) = claim_jobs t host limit now m in
      All (λ j. Handed m.records t host j × Noted n t now j) js
claim_jobs-Handed ts ops t host limit now ne i =
    let m = steps (fresh ts) ops in
    let s = steps-IsSound ops (fresh ts) i (fresh-IsSound ts) in
    let (n, js) = claim_jobs t host limit now m in
    let done = claim_jobs-IsSound t host m s limit now ne in
    All-both (Handed m.records t host) (Noted n t now) js
      (All-map (Ready m.records t host) (Handed m.records t host)
        (λ j r. Ready-Handed m t host j s r) js (claim_jobs-Ready t host m s limit now))
      (All-map (λ j. Has (λ rec. rec.claimed_at ≡ now) (t, j.id) n.records) (Noted n t now)
        (λ j h. record {
          stamped = h;
          unqueued = Claimed-Unqueued n t j done (h.0, h.1, λ z. ne (sym h.2 ∙ z));
        })
        js (claim_jobs-new (λ rec. rec.claimed_at ≡ now) now (λ v. refl) t host limit m s))
