-- ===== src/Store/Delivery.antt =====
-- internal/store/memory.go: a job that was claimed stays claimed, and a result stays recorded, until
-- the host is removed.
use hostseal.Base.{
  ◌≡◌, ◌≢◌, inl, inr, refl, sym, ◌∙◌, ap, subst, String, Bool, true, false, not, ◌&&◌, Option, none,
  some, some_inj, List, [], ◌∷◌, All, All-map, Bool-cases, str_eq,
}
use hostseal.Base.Assoc.{get, put, get-put, get-put_other}
use hostseal.Policy.Time.{Time}
use hostseal.Agent.Job.{Job}
use hostseal.Agent.Run.{ResultRequest}
use hostseal.Store.State.{Tenant, ScopedKey, scoped, JobRecord, NewJob, Memory}
use hostseal.Store.Jobs.{
  is_some, find_host, nonce_taken, new_record, enqueue, created, offered, create_job,
  is_unapprovable, approved, approve_found, is_foreign, record_found, stamp_found, stamp, page,
  take_due, claim_taken, claim_jobs,
}
use hostseal.Base.Int.{ℤ}
use hostseal.Store.Sound.{Rows, Ready, IsSound}
use hostseal.Store.Claims.{take_due-All}

-- There is a record of this key, and it has the property.
abbrev pub Has : (JobRecord → Type 0) → ScopedKey → Rows → Type 0
Has P k rows = (rec : JobRecord) × (get scoped k rows ≡ some rec) × P rec

abbrev pub Claimed : JobRecord → Type 0
Claimed rec = rec.claimed_at ≢ 0

put-Has :
    (P : JobRecord → Type 0) (k b : ScopedKey) (v : JobRecord) (rows : Rows)
    → Has P b rows
    → (k ≡ b → P v)
    → Has P b (put scoped k v rows)
put-Has P k b v rows (rec, f, p) h = elim (Bool-cases (scoped.same k b)) [
  | inl e ↦
      let d : k ≡ b = (scoped.same_iff k b).0 e in
      (v, subst (λ c. get scoped c (put scoped k v rows) ≡ some v) d (get-put scoped k v rows), h d)
  | inr e ↦ (rec, get-put_other scoped k b v rows (λ d. cc ((scoped.same_iff k b).1 d, e)) ∙ f, p)
]

-- A record that takes the place of one that is claimed is claimed itself.
pub put-Claimed :
    (k b : ScopedKey) (v rec : JobRecord) (rows : Rows)
    → get scoped k rows ≡ some rec
    → v.claimed_at ≡ rec.claimed_at
    → Has Claimed b rows
    → Has Claimed b (put scoped k v rows)
put-Claimed k b v rec rows f same (x, g, c) =
    put-Has Claimed k b v rows (x, g, c)
      (λ d z. c (
        ap (λ r. r.claimed_at) (some_inj (sym g ∙ subst (λ e. get scoped e rows ≡ some rec) d f))
        ∙ sym same
        ∙ z))

offered-Claimed :
    (t : Tenant) (n : NewJob) (m : Memory) (b : ScopedKey) (c : Bool)
    → is_some (get scoped (t, n.job.id) m.records) ≡ false
    → Has Claimed b m.records
    → Has Claimed b (offered t n m c).0.records
unfolding offered created enqueue
offered-Claimed t n m b c free (rec, f, h) =
    let new =
      put-Has Claimed (t, n.job.id) b (new_record n) m.records (rec, f, h)
        (λ d.
          let g : is_some (get scoped (t, n.job.id) m.records) ≡ true =
            ap is_some (subst (λ k. get scoped k m.records ≡ some rec) (sym d) f) in
          absurd (cc (g, free))) in
    elim c as (λ x. Has Claimed b (offered t n m x).0.records) [ true ↦ new | false ↦ new ]

pub create_job-Claimed :
    (t : Tenant) (n : NewJob) (m : Memory) (b : ScopedKey)
    → Has Claimed b m.records
    → Has Claimed b (create_job t n m).0.records
unfolding create_job
create_job-Claimed t n m b h = elim (Bool-cases (is_some (find_host t n.host_id m))) [
  | inr e ↦ rw e h
  | inl e ↦ elim (Bool-cases (is_some (get scoped (t, n.job.id) m.records))) [
    | inl f ↦ rw (e, f) h
    | inr f ↦ elim (Bool-cases (not (str_eq n.job.signature "") && nonce_taken t n m.records)) [
      | inl g ↦ rw (e, f, g) h
      | inr g ↦ rw (e, f, g) (offered-Claimed t n m b n.approval_required f h)
    ]
  ]
]

pub approve_found-Claimed :
    (t : Tenant) (id approver : String) (now : Time) (m : Memory) (o : Option JobRecord)
    (b : ScopedKey)
    → get scoped (t, id) m.records ≡ o
    → Has Claimed b m.records
    → Has Claimed b (approve_found t id approver now m o).0.records
unfolding approve_found enqueue
approve_found-Claimed t id approver now m none b f h = h
approve_found-Claimed t id approver now m (some rec) b f h =
    elim (Bool-cases (is_unapprovable approver rec)) [
      | inl e ↦ rw e h
      | inr e ↦ rw e (put-Claimed (t, id) b (approved approver now rec) rec m.records f refl h)
    ]

pub record_found-Claimed :
    (t : Tenant) (host : String) (r : ResultRequest) (now : Time) (m : Memory)
    (o : Option JobRecord) (b : ScopedKey)
    → get scoped (t, r.job_id) m.records ≡ o
    → Has Claimed b m.records
    → Has Claimed b (record_found t host r now m o).0.records
unfolding record_found
record_found-Claimed t host r now m none b f h = h
record_found-Claimed t host r now m (some rec) b f h = elim (Bool-cases (is_foreign host rec)) [
  | inl e ↦ rw e h
  | inr e ↦ elim (Bool-cases (is_some (m.results (t, r.job_id)))) [
    | inl d ↦ rw (e, d) h
    | inr d ↦
        rw (e, d)
          (put-Claimed (t, r.job_id) b (record rec { completed_at = now }) rec m.records f refl h)
  ]
]

stamp_found-Has :
    (P : JobRecord → Type 0) (k b : ScopedKey) (now : Time) (rows : Rows) (o : Option JobRecord)
    → ((v : JobRecord) → P (record v { claimed_at = now }))
    → Has P b rows
    → Has P b (stamp_found k now rows o)
unfolding stamp_found
stamp_found-Has P k b now rows none ne h = h
stamp_found-Has P k b now rows (some rec) ne h =
    put-Has P k b (record rec { claimed_at = now }) rows h (λ d. ne rec)

pub stamp-Has :
    (P : JobRecord → Type 0) (t : Tenant) (b : ScopedKey) (now : Time) (js : List Job) (rows : Rows)
    → ((v : JobRecord) → P (record v { claimed_at = now }))
    → Has P b rows
    → Has P b (stamp t now js rows)
unfolding stamp
stamp-Has P t b now [] rows ne h = h
stamp-Has P t b now (j ∷ js) rows ne h =
    let o = get scoped (t, j.id) rows in
    stamp-Has P t b now js (stamp_found (t, j.id) now rows o) ne
      (stamp_found-Has P (t, j.id) b now rows o ne h)

module _ (P : JobRecord → Type 0) (now : Time)
    (new : (v : JobRecord) → P (record v { claimed_at = now })) where
  stamp_found-new :
      (k : ScopedKey) (rows : Rows) (o : Option JobRecord) {rec : JobRecord}
      → o ≡ some rec
      → Has P k (stamp_found k now rows o)
  unfolding stamp_found
  stamp_found-new k rows none e = absurd (cc e)
  stamp_found-new k rows (some v) e =
      (record v { claimed_at = now }, get-put scoped k (record v { claimed_at = now }) rows, new v)

  -- Every job that is stamped has a record with the stamp then.
  stamp-new :
      (t : Tenant) (js : List Job) (rows : Rows)
      → All (λ j. Has (λ _. Unit) (t, j.id) rows) js
      → All (λ j. Has P (t, j.id) (stamp t now js rows)) js
  unfolding stamp
  stamp-new t [] rows h = tt
  stamp-new t (j ∷ js) rows ((rec, f, _), hs) =
      let o = get scoped (t, j.id) rows in
      let rows' = stamp_found (t, j.id) now rows o in
      (
        stamp-Has P t (t, j.id) now js rows' new (stamp_found-new (t, j.id) rows o f),
        stamp-new t js rows' (
            All-map (λ i. Has (λ _. Unit) (t, i.id) rows) (λ i. Has (λ _. Unit) (t, i.id) rows')
              (λ i h. stamp_found-Has (λ _. Unit) (t, j.id) (t, i.id) now rows o (λ v. tt) h) js
              hs),
      )

  claim_taken-new :
      (t : Tenant) (host : String) (m : Memory) (taken left : List Job)
      → All (Ready m.records t host) taken
      → let (m', js) = claim_taken t host now m (taken, left) in
        All (λ j. Has P (t, j.id) m'.records) js
  unfolding claim_taken
  claim_taken-new t host m [] left rs = tt
  claim_taken-new t host m (j ∷ js) left rs = stamp-new t (j ∷ js) m.records (
      All-map (Ready m.records t host) (λ i. Has (λ _. Unit) (t, i.id) m.records)
        (λ i r. (r.rec, r.found, tt)) (j ∷ js) rs)

  pub claim_jobs-new :
      (t : Tenant) (host : String) (limit : ℤ) (m : Memory)
      → IsSound m
      → let (m', js) = claim_jobs t host limit now m in All (λ j. Has P (t, j.id) m'.records) js
  unfolding claim_jobs
  claim_jobs-new t host limit m s =
      let js = m.jobs (t, host) in
      let (rs, ls) =
        take_due-All (Ready m.records t host) now (page limit) js (s.queued (t, host)) in
      claim_taken-new t host m (take_due now (page limit) js).0 (take_due now (page limit) js).1 rs

-- A job whose record shows a claim is not one that may stand in a queue.
pub Ready-unclaimed :
    (rows : Rows) (t : Tenant) (host : String) (i j : Job)
    → Has Claimed (t, j.id) rows
    → Ready rows t host i
    → i.id ≢ j.id
Ready-unclaimed rows t host i j (rec, f, c) r e = c (
    ap (λ x. x.claimed_at)
      (some_inj (sym f ∙ subst (λ k. get scoped (t, k) rows ≡ some r.rec) e r.found))
    ∙ r.unclaimed)
