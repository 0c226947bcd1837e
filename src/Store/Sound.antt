-- ===== src/Store/Sound.antt =====
-- internal/store/memory.go: the invariant of the job tables, and the two moves that the operations
-- make, a write of one record and an addition to a queue.
use hostseal.Base.{
  ◌≡◌, ◌≢◌, ◌⊎◌, inl, inr, sym, ◌∙◌, ap, subst, String, true, false, some, List, [], ◌∷◌, ◌++◌, All,
  All-append, All-map, Bool-cases,
}
use hostseal.Base.Assoc.{get, put, delete, get-put, get-put_other, All-keep}
use hostseal.Agent.Job.{Job}
use hostseal.Agent.Run.{ResultRequest}
use hostseal.Store.State.{Tenant, ScopedKey, scoped, JobRecord, Memory, set}
use hostseal.Store.Jobs.{enqueue}

abbrev pub Rows : Type 0
Rows = List (ScopedKey × JobRecord)

-- No operator has to release the job, or one has.
abbrev pub Released : JobRecord → Type 0
Released rec = (rec.approval_required ≡ false) ⊎ (rec.approved_at ≢ 0)

-- A release that was given was asked for, and came from somebody else where that was asked for.
abbrev pub FourEyes : ScopedKey × JobRecord → Type 0
FourEyes e =
    (e.1.approved_at ≡ 0)
    ⊎ ((e.1.approval_required ≡ true)
        × ((e.1.approval_distinct_operator ≡ false) ⊎ (e.1.created_by ≢ e.1.approved_by)))

-- A row of the records: the release is in order, the key is that of the job, and no job was claimed
-- that was not released.
abbrev pub InOrder : ScopedKey × JobRecord → Type 0
InOrder e = FourEyes e × (e.1.job.id ≡ e.0.1) × ((e.1.claimed_at ≡ 0) ⊎ Released e.1)

-- A job that may stand in the queue of this host.
pub record Ready (rows : Rows) (t : Tenant) (host : String) (j : Job) : Type 0 where
  pub rec : JobRecord
  pub found : get scoped (t, j.id) rows ≡ some rec
  pub its_job : rec.job ≡ j
  pub its_host : rec.host_id ≡ host
  pub released : Released rec
  pub unclaimed : rec.claimed_at ≡ 0

-- No two jobs have one id.
abbrev pub Distinct : List Job → Type 0
Distinct [] = Unit
Distinct (j ∷ js) = All (λ k. k.id ≢ j.id) js × Distinct js

pub record IsSound (m : Memory) : Type 0 where
  pub queued : (q : ScopedKey) → All (Ready m.records q.0 q.1) (m.jobs q)
  pub apart : (q : ScopedKey) → Distinct (m.jobs q)
  pub approvals : All InOrder m.records
  pub reported :
      (k : ScopedKey) {r : ResultRequest}
      → m.results k ≡ some r
      → (rec : JobRecord) × (get scoped k m.records ≡ some rec) × (rec.claimed_at ≢ 0)

-- No job in a queue has this key.
abbrev pub Unqueued : ScopedKey → Memory → Type 0
Unqueued k m = (q : ScopedKey) → All (λ j. k ≢ (q.0, j.id)) (m.jobs q)

pub set-elim :
    {V : Type 0} (P : ScopedKey → V → Type 0) (a : ScopedKey) (v : V) (f : ScopedKey → V)
    → P a v
    → ((b : ScopedKey) → a ≢ b → P b (f b))
    → (b : ScopedKey) → P b (set a v f b)
unfolding set
set-elim P a v f h hs b = elim (Bool-cases (scoped.same a b)) [
  | inl e ↦ rw e (subst (λ c. P c v) ((scoped.same_iff a b).0 e) h)
  | inr e ↦ rw e (hs b (λ d. cc ((scoped.same_iff a b).1 d, e)))
]

-- A record that bars its job from the queue.
pub IsSound-Unqueued :
    {m : Memory} (k : ScopedKey)
    → IsSound m
    → ((rec : JobRecord) → get scoped k m.records ≡ some rec → Released rec → rec.claimed_at ≢ 0)
    → Unqueued k m
IsSound-Unqueued {m} k s bar q =
    All-map (Ready m.records q.0 q.1) (λ j. k ≢ (q.0, j.id))
      (λ j r e.
        bar r.rec (subst (λ c. get scoped c m.records ≡ some r.rec) (sym e) r.found) r.released
          r.unclaimed)
      (m.jobs q) (s.queued q)

put-Ready :
    (t : Tenant) (host : String) (k : ScopedKey) (v : JobRecord) (rows : Rows) (js : List Job)
    → All (λ j. k ≢ (t, j.id)) js
    → All (Ready rows t host) js
    → All (Ready (put scoped k v rows) t host) js
put-Ready t host k v rows [] ne rs = tt
put-Ready t host k v rows (j ∷ js) (n, ne) (r, rs) = (
  record {
    rec = r.rec;
    found = get-put_other scoped k (t, j.id) v rows n ∙ r.found;
    its_job = r.its_job;
    its_host = r.its_host;
    released = r.released;
    unclaimed = r.unclaimed;
  },
  put-Ready t host k v rows js ne rs,
)

abbrev pub with_record : ScopedKey → JobRecord → Memory → Memory
with_record k v m = record m { records = put scoped k v m.records }

-- A record may be written whose job is in no queue.
pub put-IsSound :
    (k : ScopedKey) (v : JobRecord) (m : Memory)
    → IsSound m
    → Unqueued k m
    → InOrder (k, v)
    → ((r : ResultRequest) → m.results k ≡ some r → v.claimed_at ≢ 0)
    → IsSound (with_record k v m)
put-IsSound k v m s free order claimed = record {
  queued = λ q. put-Ready q.0 q.1 k v m.records (m.jobs q) (free q) (s.queued q);
  apart = s.apart;
  approvals = unfold put delete in (order, All-keep InOrder _ m.records s.approvals);
  reported = λ b {r} h. elim (Bool-cases (scoped.same k b)) [
    | inl e ↦
        let d : k ≡ b = (scoped.same_iff k b).0 e in
        (
          v,
          subst (λ c. get scoped c (put scoped k v m.records) ≡ some v) d
              (get-put scoped k v m.records),
          claimed r (subst (λ c. m.results c ≡ some r) (sym d) h),
        )
    | inr e ↦
        let (rec, f, c) = s.reported b h in
        (rec, get-put_other scoped k b v m.records (λ d. cc ((scoped.same_iff k b).1 d, e)) ∙ f, c)
  ];
}

Distinct-snoc :
    (js : List Job) (j : Job) → Distinct js → All (λ k. j.id ≢ k.id) js → Distinct (js ++ (j ∷ []))
Distinct-snoc [] j d ne = (tt, tt)
Distinct-snoc (k ∷ js) j (n, d) (e, ne) =
    (All-append (λ i. i.id ≢ k.id) js (j ∷ []) n (e, tt), Distinct-snoc js j d ne)

-- A ready job that is in no queue may be added to its host's queue.
pub enqueue-IsSound :
    (t : Tenant) (host : String) (j : Job) (m : Memory)
    → IsSound m
    → Unqueued (t, j.id) m
    → Ready m.records t host j
    → IsSound (enqueue t host j m)
unfolding enqueue
enqueue-IsSound t host j m s free ready = record {
  queued =
      set-elim (λ q js. All (Ready m.records q.0 q.1) js) (t, host) _ m.jobs
        (All-append (Ready m.records t host) (m.jobs (t, host)) (j ∷ []) (s.queued (t, host))
          (ready, tt))
        (λ q ne. s.queued q);
  apart =
      set-elim (λ q js. Distinct js) (t, host) _ m.jobs
        (Distinct-snoc (m.jobs (t, host)) j (s.apart (t, host)) (
          All-map (λ k. (t, j.id) ≢ (t, k.id)) (λ k. j.id ≢ k.id)
            (λ k ne e. ne (ap (λ i. (t, i)) e)) (m.jobs (t, host)) (free (t, host))))
        (λ q ne. s.apart q);
  approvals = s.approvals;
  reported = s.reported;
}
