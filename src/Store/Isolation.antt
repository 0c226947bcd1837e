-- ===== src/Store/Isolation.antt =====
-- internal/store/memory.go: no operation of one tenant disturbs another.
use hostseal.Base.{
  ℕ, ◌≡◌, ◌≢◌, refl, ◌∙◌, String, Bool, true, false, not, ◌&&◌, Option, none, some, List, [], ◌∷◌,
  str_eq, if◌then◌else◌,
}
use hostseal.Base.Int.{ℤ}
use hostseal.Base.Assoc.{get, put, get-put_other}
use hostseal.Policy.Time.{Time}
use hostseal.Agent.Job.{Job}
use hostseal.Agent.Run.{ResultRequest}
use hostseal.Store.State.{Tenant, ScopedKey, scoped, JobRecord, NewJob, Memory}
use hostseal.Store.Jobs.{
  is_some, find_host, nonce_taken, new_record, enqueue, created, offered, create_job,
  is_unapprovable, approved, approve_found, page, take_due, stamp_found, stamp, claim_taken,
  claim_jobs, is_foreign, record_found,
}
use hostseal.Store.Apart.{Undisturbed, same_store, Undisturbed-trans, apart_keys, set-apart}

-- One branch of a test or the other.
pub either_way :
    {A : Type 0} (u : Tenant) (m : Memory) (b : Bool) (x y : Memory × A)
    → Undisturbed u m x.0
    → Undisturbed u m y.0
    → Undisturbed u m (if b then x else y).0
either_way u m true x y p q = p
either_way u m false x y p q = q

-- A change of the tables of jobs.
job_tables :
    (u : Tenant) (m : Memory) (js : ScopedKey → List Job) (rows : List (ScopedKey × JobRecord))
    (rs : ScopedKey → Option ResultRequest) (ws : String → List ℕ)
    → ((i : String) → js (u, i) ≡ m.jobs (u, i))
    → ((i : String) → get scoped (u, i) rows ≡ get scoped (u, i) m.records)
    → ((i : String) → rs (u, i) ≡ m.results (u, i))
    → Undisturbed u m (record m { jobs = js; records = rows; results = rs; waiters = ws })
unfolding find_host
job_tables u m js rows rs ws q j r = record {
  row = refl;
  token = λ h. refl;
  host = λ i. refl;
  cert = λ i. refl;
  queue = q;
  job = j;
  result = r;
}

module _ (t u : Tenant) (ne : t ≢ u) where
  put_record-Undisturbed :
      (id : String) (v : JobRecord) (m : Memory)
      → Undisturbed u m (record m { records = put scoped (t, id) v m.records })
  put_record-Undisturbed id v m =
      job_tables u m m.jobs _ m.results m.waiters (λ i. refl)
        (λ i. get-put_other scoped (t, id) (u, i) v m.records (apart_keys t u ne id i)) (λ i. refl)

  enqueue-Undisturbed :
      (host : String) (j : Job) (m : Memory) → Undisturbed u m (enqueue t host j m)
  unfolding enqueue
  enqueue-Undisturbed host j m =
      job_tables u m _ m.records m.results _ (λ i. set-apart t u ne host _ m.jobs i) (λ i. refl)
        (λ i. refl)

  pub create_job-Undisturbed : (n : NewJob) (m : Memory) → Undisturbed u m (create_job t n m).0
  unfolding create_job
  create_job-Undisturbed n m =
      either_way u m (not (is_some (find_host t n.host_id m))) _ _ (same_store u m) (
        either_way u m (is_some (get scoped (t, n.job.id) m.records)) _ _ (same_store u m) (
          either_way u m (not (str_eq n.job.signature "") && nonce_taken t n m.records) _ _
            (same_store u m) (offer n.approval_required)))
    where
      offer : (b : Bool) → Undisturbed u m (offered t n m b).0
      offer true = unfold offered created in put_record-Undisturbed n.job.id (new_record n) m
      offer false =
          unfold offered created in
          Undisturbed-trans u m _ _ (put_record-Undisturbed n.job.id (new_record n) m) (
            enqueue-Undisturbed n.host_id n.job
              (record m { records = put scoped (t, n.job.id) (new_record n) m.records }))

  pub approve_found-Undisturbed :
      (id approver : String) (now : Time) (m : Memory) (o : Option JobRecord)
      → Undisturbed u m (approve_found t id approver now m o).0
  unfolding approve_found
  approve_found-Undisturbed id approver now m none = same_store u m
  approve_found-Undisturbed id approver now m (some rec) =
      either_way u m (is_unapprovable approver rec) _ _ (same_store u m) (
        Undisturbed-trans u m _ _ (put_record-Undisturbed id (approved approver now rec) m) (
          enqueue-Undisturbed rec.host_id rec.job
            (record m { records = put scoped (t, id) (approved approver now rec) m.records })))

  stamp_found-apart :
      (id : String) (now : Time) (rows : List (ScopedKey × JobRecord)) (o : Option JobRecord)
      (i : String)
      → get scoped (u, i) (stamp_found (t, id) now rows o) ≡ get scoped (u, i) rows
  unfolding stamp_found
  stamp_found-apart id now rows none i = refl
  stamp_found-apart id now rows (some rec) i =
      get-put_other scoped (t, id) (u, i) _ rows (apart_keys t u ne id i)

  stamp-apart :
      (now : Time) (js : List Job) (rows : List (ScopedKey × JobRecord)) (i : String)
      → get scoped (u, i) (stamp t now js rows) ≡ get scoped (u, i) rows
  unfolding stamp
  stamp-apart now [] rows i = refl
  stamp-apart now (j ∷ js) rows i =
      stamp-apart now js (stamp_found (t, j.id) now rows (get scoped (t, j.id) rows)) i
      ∙ stamp_found-apart j.id now rows (get scoped (t, j.id) rows) i

  claim_taken-Undisturbed :
      (host : String) (now : Time) (m : Memory) (taken left : List Job)
      → Undisturbed u m (claim_taken t host now m (taken, left)).0
  unfolding claim_taken
  claim_taken-Undisturbed host now m [] left = same_store u m
  claim_taken-Undisturbed host now m (j ∷ js) left =
      job_tables u m _ _ m.results m.waiters (λ i. set-apart t u ne host left m.jobs i)
        (λ i. stamp-apart now (j ∷ js) m.records i) (λ i. refl)

  pub record_found-Undisturbed :
      (host : String) (r : ResultRequest) (now : Time) (m : Memory) (o : Option JobRecord)
      → Undisturbed u m (record_found t host r now m o).0
  unfolding record_found
  record_found-Undisturbed host r now m none = same_store u m
  record_found-Undisturbed host r now m (some rec) =
      either_way u m (is_foreign host rec) _ _ (same_store u m) (
        either_way u m (is_some (m.results (t, r.job_id))) _ _ (same_store u m) (
          job_tables u m m.jobs _ _ m.waiters (λ i. refl)
            (λ i.
              get-put_other scoped (t, r.job_id) (u, i) (record rec { completed_at = now })
                m.records (apart_keys t u ne r.job_id i))
            (λ i. set-apart t u ne r.job_id (some r) m.results i)))

  -- What a tenant does to its jobs.
  pub claim_jobs-Undisturbed :
      (host : String) (limit : ℤ) (now : Time) (m : Memory)
      → Undisturbed u m (claim_jobs t host limit now m).0
  unfolding claim_jobs
  claim_jobs-Undisturbed host limit now m =
      let (taken, left) = take_due now (page limit) (m.jobs (t, host)) in
      claim_taken-Undisturbed host now m taken left
