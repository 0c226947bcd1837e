-- ===== src/Store/Keeps.antt =====
-- internal/store/memory.go: the operations on jobs keep the invariant.
use hostseal.Base.{
  ◌≡◌, ◌≢◌, ◌⊎◌, inl, inr, refl, sym, ◌∙◌, subst, String, Bool, true, false, not, ◌&&◌, Option,
  none, some, some_inj, Bool-cases, arith, str_eq, eq_iff,
}
use hostseal.Base.Assoc.{get, put, get-put, All-get}
use hostseal.Policy.Time.{Time}
use hostseal.Agent.Run.{ResultRequest}
use hostseal.Store.State.{Tenant, ScopedKey, scoped, JobRecord, NewJob, Memory, set}
use hostseal.Store.Jobs.{
  is_some, find_host, nonce_taken, new_record, enqueue, created, offered, create_job,
  is_unapprovable, approved, approve_found, approve_job, is_foreign, record_found, record_result,
}
use hostseal.Store.Sound.{
  Released, InOrder, IsSound, Unqueued, IsSound-Unqueued, with_record, put-IsSound, enqueue-IsSound,
  set-elim,
}

is_some-none : {A : Type 0} (o : Option A) → is_some o ≡ false → o ≡ none
is_some-none none h = refl
is_some-none (some a) h = cc

absent-Unqueued :
    (k : ScopedKey) (m : Memory) → IsSound m → get scoped k m.records ≡ none → Unqueued k m
absent-Unqueued k m s h = IsSound-Unqueued k s (λ rec f. absurd (cc (h, f)))

created-IsSound :
    (t : Tenant) (n : NewJob) (m : Memory)
    → IsSound m
    → get scoped (t, n.job.id) m.records ≡ none
    → IsSound (created t n m)
unfolding created
created-IsSound t n m s h =
    put-IsSound (t, n.job.id) (new_record n) m s (absent-Unqueued (t, n.job.id) m s h)
      (inl refl, refl, inl refl)
      (λ r e. let (rec, f, c) = s.reported (t, n.job.id) e in absurd (cc (h, f)))

queued-IsSound :
    (t : Tenant) (n : NewJob) (m : Memory)
    → IsSound m
    → get scoped (t, n.job.id) m.records ≡ none
    → n.approval_required ≡ false
    → IsSound (enqueue t n.host_id n.job (created t n m))
queued-IsSound t n m s h free =
    enqueue-IsSound t n.host_id n.job (created t n m) (created-IsSound t n m s h)
      (unfold created in absent-Unqueued (t, n.job.id) m s h)
      (record {
        rec = new_record n;
        found = unfold created in get-put scoped (t, n.job.id) (new_record n) m.records;
        its_job = refl;
        its_host = refl;
        released = inl free;
        unclaimed = refl;
      })

offered-IsSound :
    (t : Tenant) (n : NewJob) (m : Memory) (b : Bool)
    → IsSound m
    → get scoped (t, n.job.id) m.records ≡ none
    → n.approval_required ≡ b
    → IsSound (offered t n m b).0
unfolding offered
offered-IsSound t n m true s h e = created-IsSound t n m s h
offered-IsSound t n m false s h e = queued-IsSound t n m s h e

pub create_job-IsSound :
    (t : Tenant) (n : NewJob) (m : Memory) → IsSound m → IsSound (create_job t n m).0
unfolding create_job
create_job-IsSound t n m s = elim (Bool-cases (is_some (find_host t n.host_id m))) [
  | inr a ↦ rw a s
  | inl a ↦ elim (Bool-cases (is_some (get scoped (t, n.job.id) m.records))) [
    | inl b ↦ rw (a, b) s
    | inr b ↦
        let h = is_some-none (get scoped (t, n.job.id) m.records) b in
        elim (Bool-cases (not (str_eq n.job.signature "") && nonce_taken t n m.records)) [
          | inl c ↦ rw (a, b, c) s
          | inr c ↦ rw (a, b, c) (offered-IsSound t n m n.approval_required s h refl)
        ]
  ]
]

-- The conditions under which `ApproveJob` releases a record.
is_unapprovable_lem :
    (approver : String) (rec : JobRecord)
    → is_unapprovable approver rec ≡ false
    → (rec.approval_required ≡ true)
      × (rec.approved_at ≡ 0)
      × ((rec.approval_distinct_operator ≡ false) ⊎ (rec.created_by ≢ approver))
unfolding is_unapprovable
is_unapprovable_lem approver rec h = (
  ground arith,
  ground arith,
  elim (Bool-cases rec.approval_distinct_operator) [
    | inl d ↦ inr (λ e. ground (arith, eq_iff rec.created_by approver))
    | inr d ↦ inl d
  ],
)

released-IsSound :
    (t : Tenant) (id approver : String) (now : Time) (m : Memory) (rec : JobRecord)
    → now ≢ 0
    → IsSound m
    → get scoped (t, id) m.records ≡ some rec
    → (rec.approval_required ≡ true)
      × (rec.approved_at ≡ 0)
      × ((rec.approval_distinct_operator ≡ false) ⊎ (rec.created_by ≢ approver))
    → IsSound (enqueue t rec.host_id rec.job (with_record (t, id) (approved approver now rec) m))
released-IsSound t id approver now m rec ne s f (req, waiting, other) =
    let (eyes, same, claims) = All-get scoped InOrder (t, id) m.records s.approvals f in
    let pending : Released rec → ⊥ = λ rel. elim rel [ inl a ↦ cc (a, req) | inr b ↦ b waiting ] in
    let free : Unqueued (t, id) m =
      IsSound-Unqueued (t, id) s
        (λ r g rel. absurd (pending (subst Released (some_inj (sym g ∙ f)) rel))) in
    enqueue-IsSound t rec.host_id rec.job (with_record (t, id) (approved approver now rec) m)
      (put-IsSound (t, id) (approved approver now rec) m s free
        (inr (req, other), same, inr (inr ne))
        (λ r e.
          let (rec', f', c) = s.reported (t, id) e in
          subst (λ x. x.claimed_at ≢ 0) (some_inj (sym f' ∙ f)) c))
      (subst (λ i. Unqueued (t, i) m) (sym same) free)
      (record {
        rec = approved approver now rec;
        found =
            subst
              (λ i.
                get scoped (t, i) (put scoped (t, id) (approved approver now rec) m.records)
                ≡ some (approved approver now rec))
              (sym same) (get-put scoped (t, id) (approved approver now rec) m.records);
        its_job = refl;
        its_host = refl;
        released = inr ne;
        unclaimed = elim claims [ inl c ↦ c | inr rel ↦ absurd (pending rel) ];
      })

approve_found-IsSound :
    (t : Tenant) (id approver : String) (now : Time) (m : Memory) (o : Option JobRecord)
    → now ≢ 0
    → IsSound m
    → get scoped (t, id) m.records ≡ o
    → IsSound (approve_found t id approver now m o).0
unfolding approve_found
approve_found-IsSound t id approver now m none ne s f = s
approve_found-IsSound t id approver now m (some rec) ne s f =
    elim (Bool-cases (is_unapprovable approver rec)) [
      | inl e ↦ rw e s
      | inr e ↦
          rw e
            (released-IsSound t id approver now m rec ne s f (is_unapprovable_lem approver rec e))
    ]

pub approve_job-IsSound :
    (t : Tenant) (id approver : String) (now : Time) (m : Memory)
    → now ≢ 0
    → IsSound m
    → IsSound (approve_job t id approver now m).0
unfolding approve_job
approve_job-IsSound t id approver now m ne s =
    approve_found-IsSound t id approver now m (get scoped (t, id) m.records) ne s refl

is_foreign_lem :
    (host : String) (rec : JobRecord)
    → is_foreign host rec ≡ false
    → (rec.host_id ≡ host) × (rec.claimed_at ≢ 0)
unfolding is_foreign
is_foreign_lem host rec h = (ground (arith, eq_iff rec.host_id host), ground arith)

reported-IsSound :
    (t : Tenant) (host : String) (r : ResultRequest) (now : Time) (m : Memory) (rec : JobRecord)
    → IsSound m
    → get scoped (t, r.job_id) m.records ≡ some rec
    → (rec.host_id ≡ host) × (rec.claimed_at ≢ 0)
    → IsSound (record m {
      results = set (t, r.job_id) (some r) m.results;
      records = put scoped (t, r.job_id) (record rec { completed_at = now }) m.records;
    })
reported-IsSound t host r now m rec s f (mine, claimed) =
    let k : ScopedKey = (t, r.job_id) in
    let done : JobRecord = record rec { completed_at = now } in
    let s' =
      put-IsSound k done m s
        (IsSound-Unqueued k s
          (λ x g rel. subst (λ y. y.claimed_at ≢ 0) (some_inj (sym f ∙ g)) claimed))
        (All-get scoped InOrder k m.records s.approvals f) (λ x e. claimed) in
    record {
      queued = s'.queued;
      apart = s'.apart;
      approvals = s'.approvals;
      reported = λ b {r = x} h.
          set-elim
            (λ c v.
              v ≡ some x
              → (y : JobRecord) × (get scoped c (put scoped k done m.records) ≡ some y)
                × (y.claimed_at ≢ 0))
            k (some r) m.results (λ _. (done, get-put scoped k done m.records, claimed))
            (λ c _ e. s'.reported c e) b h;
    }

record_found-IsSound :
    (t : Tenant) (host : String) (r : ResultRequest) (now : Time) (m : Memory)
    (o : Option JobRecord)
    → IsSound m
    → get scoped (t, r.job_id) m.records ≡ o
    → IsSound (record_found t host r now m o).0
unfolding record_found
record_found-IsSound t host r now m none s f = s
record_found-IsSound t host r now m (some rec) s f = elim (Bool-cases (is_foreign host rec)) [
  | inl e ↦ rw e s
  | inr e ↦ elim (Bool-cases (is_some (m.results (t, r.job_id)))) [
    | inl d ↦ rw (e, d) s
    | inr d ↦ rw (e, d) (reported-IsSound t host r now m rec s f (is_foreign_lem host rec e))
  ]
]

pub record_result-IsSound :
    (t : Tenant) (host : String) (r : ResultRequest) (now : Time) (m : Memory)
    → IsSound m
    → IsSound (record_result t host r now m).0
unfolding record_result
record_result-IsSound t host r now m s =
    record_found-IsSound t host r now m (get scoped (t, r.job_id) m.records) s refl
