-- ===== src/Store/Outcomes.antt =====
-- internal/store/memory.go: when the operations on jobs succeed, and what a claim takes.
use Prim.Native.Nat.{min}
use hostseal.Base.{
  ℕ, zero, suc, ◌⊎◌, ◌≤◌, ◌≡◌, ◌≢◌, ◌↔◌, inl, inr, refl, sym, subst, String, Bool, true, false,
  Option, none, some, some_inj, List, [], ◌∷◌, All, Bool-cases, eq_iff, arith, ok, leb, length,
  count_if,
}
use hostseal.Base.Int.{ℤ}
use hostseal.Base.Assoc.{get, get-put}
use hostseal.Policy.Time.{Time}
use hostseal.Agent.Job.{Job}
use hostseal.Agent.Run.{ResultRequest}
use hostseal.Store.State.{Tenant, scoped, JobRecord, Memory, set}
use hostseal.Store.Jobs.{
  is_some, is_unapprovable, approve_found, approve_job, is_foreign, record_found, record_result,
  page, take_due, claim_taken, claim_jobs,
}

-- A record that takes a result from this host.
abbrev pub Answerable : String → Option JobRecord → Type 0
Answerable host o = (rec : JobRecord) × (o ≡ some rec) × (rec.host_id ≡ host) × (rec.claimed_at ≢ 0)

record_found_iff :
    (t : Tenant) (host : String) (r : ResultRequest) (now : Time) (m : Memory)
    (o : Option JobRecord)
    → ((record_found t host r now m o).1 ≡ ok true)
      ↔ (Answerable host o × (m.results (t, r.job_id) ≡ none))
unfolding record_found is_foreign
record_found_iff t host r now m none = (λ h. cc, λ (a, e). cc (a.1))
record_found_iff t host r now m (some rec) = (
  λ h. ((rec, refl, ground (arith, eq_iff rec.host_id host), ground arith), ground arith),
  λ ((x, e, f, g), n). let d = some_inj e in ground (arith, eq_iff rec.host_id host),
)

-- The record of a job whose result has been taken.
abbrev pub Taken : Tenant → ResultRequest → Time → Memory → Memory → Type 0
Taken t r now m n =
    (n.results (t, r.job_id) ≡ some r)
    × ((rec : JobRecord) × (get scoped (t, r.job_id) m.records ≡ some rec)
        × (get scoped (t, r.job_id) n.records ≡ some (record rec { completed_at = now })))

record_found-Taken :
    (t : Tenant) (host : String) (r : ResultRequest) (now : Time) (m : Memory)
    (o : Option JobRecord)
    → get scoped (t, r.job_id) m.records ≡ o
    → let (n, done) = record_found t host r now m o in
      ((done ≡ ok true) × Taken t r now m n) ⊎ ((done ≢ ok true) × (n ≡ m))
unfolding record_found set
record_found-Taken t host r now m none f = inr (λ e. cc, refl)
record_found-Taken t host r now m (some rec) f = elim (Bool-cases (is_foreign host rec)) [
  | inl e ↦ rw e (inr (λ h. cc, refl))
  | inr e ↦ elim (Bool-cases (is_some (m.results (t, r.job_id)))) [
    | inl g ↦ rw (e, g) (inr (λ h. cc, refl))
    | inr g ↦
        rw (e, g)
          (inl (
            refl,
            (
              rw ((scoped.same_iff (t, r.job_id) (t, r.job_id)).1 refl) refl,
              (rec, f, get-put scoped (t, r.job_id) (record rec { completed_at = now }) m.records),
            ),
          ))
  ]
]

-- A result is recorded exactly if the job's record is for the host that reports, the job was claimed,
-- and no result of it is recorded yet. Then the store holds the result under the job, and the job's
-- record, otherwise as it was, has the time of completion; in every other case the store is left as
-- it is.
pub record_result_iff :
    (t : Tenant) (host : String) (r : ResultRequest) (now : Time) (m : Memory)
    → let (n, done) = record_result t host r now m in
      ((done ≡ ok true)
        ↔ (Answerable host (get scoped (t, r.job_id) m.records) × (m.results (t, r.job_id) ≡ none)))
      × (((done ≡ ok true) × Taken t r now m n) ⊎ ((done ≢ ok true) × (n ≡ m)))
unfolding record_result
record_result_iff t host r now m =
    let o = get scoped (t, r.job_id) m.records in
    (record_found_iff t host r now m o, record_found-Taken t host r now m o refl)

-- A record that this operator may release.
abbrev pub Approvable : String → Option JobRecord → Type 0
Approvable approver o =
    (rec : JobRecord) × (o ≡ some rec)
    × (rec.approval_required ≡ true)
    × (rec.approved_at ≡ 0)
    × ((rec.approval_distinct_operator ≡ true) → (rec.created_by ≢ approver))

releasable :
    (approver : String) (rec : JobRecord)
    → is_unapprovable approver rec ≡ false
    → (rec.approval_required ≡ true)
      × (rec.approved_at ≡ 0)
      × (rec.approval_distinct_operator ≡ true → rec.created_by ≢ approver)
unfolding is_unapprovable
releasable approver rec h =
    (ground arith, ground arith, λ d e. ground (arith, eq_iff rec.created_by approver))

approvable :
    (approver : String) (rec : JobRecord)
    → (rec.approval_required ≡ true)
      × (rec.approved_at ≡ 0)
      × (rec.approval_distinct_operator ≡ true → rec.created_by ≢ approver)
    → is_unapprovable approver rec ≡ false
unfolding is_unapprovable
approvable approver rec (req, waiting, other) = elim (Bool-cases rec.approval_distinct_operator) [
  | inl d ↦ let ne = other d in ground (arith, eq_iff rec.created_by approver)
  | inr d ↦ ground arith
]

approve_found_ok :
    (t : Tenant) (id approver : String) (now : Time) (m : Memory) (rec : JobRecord) {w : List ℕ}
    → (approve_found t id approver now m (some rec)).1 ≡ ok w
    → is_unapprovable approver rec ≡ false
unfolding approve_found
approve_found_ok t id approver now m rec h = elim (Bool-cases (is_unapprovable approver rec)) [
  | inl e ↦ absurd (cc (rw e at h))
  | inr e ↦ e
]

approve_found_iff :
    (t : Tenant) (id approver : String) (now : Time) (m : Memory) (o : Option JobRecord)
    → ((w : List ℕ) × ((approve_found t id approver now m o).1 ≡ ok w)) ↔ Approvable approver o
unfolding approve_found
approve_found_iff t id approver now m none = (λ (w, h). cc, λ (rec, e, _, _, _). cc)
approve_found_iff t id approver now m (some rec) = (
  λ (w, h).
      let (a, b, c) = releasable approver rec (approve_found_ok t id approver now m rec h) in
      (rec, refl, a, b, c),
  λ (x, e, f, g, n).
      let good = approvable approver rec (
        subst
          (λ y.
            (y.approval_required ≡ true)
            × (y.approved_at ≡ 0)
            × (y.approval_distinct_operator ≡ true → y.created_by ≢ approver))
          (sym (some_inj e)) (f, g, n)) in
      rw good (m.waiters rec.host_id, refl),
)

-- A release succeeds exactly if the job waits for one, and where another operator is asked for, it
-- comes from an operator who did not create the job.
pub approve_job_iff :
    (t : Tenant) (id approver : String) (now : Time) (m : Memory)
    → ((w : List ℕ) × ((approve_job t id approver now m).1 ≡ ok w))
      ↔ Approvable approver (get scoped (t, id) m.records)
unfolding approve_job
approve_job_iff t id approver now m =
    approve_found_iff t id approver now m (get scoped (t, id) m.records)

abbrev pub is_due : Time → Job → Bool
is_due now j = leb j.not_before now

take_due-length :
    (now : Time) (k : ℕ) (js : List Job)
    → length (take_due now k js).0 ≡ min k (count_if (is_due now) js)
unfolding take_due
take_due-length now k [] = omega arith
take_due-length now zero (j ∷ js) = omega arith
take_due-length now (suc k) (j ∷ js) = elim (Bool-cases (leb j.not_before now)) [
  | inl e ↦ rw e (omega (arith, take_due-length now k js))
  | inr e ↦ rw e (omega (arith, take_due-length now (suc k) js))
]

take_due-due :
    (now : Time) (k : ℕ) (js : List Job) → All (λ j. j.not_before ≤ now) (take_due now k js).0
unfolding take_due
take_due-due now k [] = tt
take_due-due now zero (j ∷ js) = tt
take_due-due now (suc k) (j ∷ js) = elim (Bool-cases (leb j.not_before now)) [
  | inl e ↦ rw e (ground arith, take_due-due now k js)
  | inr e ↦ rw e (take_due-due now (suc k) js)
]

claim_taken_lem :
    (t : Tenant) (host : String) (now : Time) (m : Memory) (p : List Job × List Job)
    → (claim_taken t host now m p).1 ≡ p.0
unfolding claim_taken
claim_taken_lem t host now m ([], left) = refl
claim_taken_lem t host now m (j ∷ js, left) = refl

-- A claim gives no job whose window has not opened, and of the others in the queue as many as the
-- page holds.
pub claim_jobs-fills :
    (t : Tenant) (host : String) (limit : ℤ) (now : Time) (m : Memory)
    → let taken = (claim_jobs t host limit now m).1 in
      All (λ j. j.not_before ≤ now) taken
      × (length taken ≡ min (page limit) (count_if (is_due now) (m.jobs (t, host))))
unfolding claim_jobs
claim_jobs-fills t host limit now m =
    let js = m.jobs (t, host) in
    let e = sym (claim_taken_lem t host now m (take_due now (page limit) js)) in
    (
      subst (All (λ j. j.not_before ≤ now)) e (take_due-due now (page limit) js),
      subst (λ l. length l ≡ min (page limit) (count_if (is_due now) js)) e
          (take_due-length now (page limit) js),
    )
