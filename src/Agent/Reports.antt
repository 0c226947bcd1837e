-- ===== src/Agent/Reports.antt =====
-- internal/server/agentapi.go: what the report of a result leaves in the store.
use hostseal.Base.{
  ◌≡◌, ◌≢◌, ◌⊎◌, refl, sym, ◌∙◌, subst, inl, inr, String, Bool, true, false, Option, none, some,
  some_inj, Result, ok, err, str_eq, eq_iff, Bool-cases, arith,
}
use hostseal.Base.Assoc.{get, get-put, get-put_other}
use hostseal.Policy.Time.{Time}
use hostseal.Agent.Job.{Status}
use hostseal.Agent.Run.{ResultRequest}
use hostseal.Agent.Spool.{accepted}
use hostseal.Agent.Delivery.{answer_of, report_result}
use hostseal.Store.State.{Tenant, ScopedKey, scoped, JobRecord, Memory, StoreError, not_found, set}
use hostseal.Store.Jobs.{is_some, is_foreign, record_found, record_result}
use hostseal.Store.Outcomes.{Answerable}
use hostseal.Server.Results.{received, result_recorded, handle_result}
use hostseal.Server.Beats.{Fate, unsent, unanswered, delivered}

set_other : {V : Type 0} (a b : ScopedKey) (v : V) (f : ScopedKey → V) → a ≢ b → set a v f b ≡ f b
unfolding set
set_other a b v f ne = elim (Bool-cases (scoped.same a b)) [
  | inl e ↦ absurd (ne ((scoped.same_iff a b).0 e))
  | inr e ↦ rw e refl
]

set_own : {V : Type 0} (a : ScopedKey) (v : V) (f : ScopedKey → V) → set a v f a ≡ v
unfolding set
set_own a v f = rw ((scoped.same_iff a a).1 refl) refl

result_recorded-store :
    (st : Status) (p : Memory × Result StoreError Bool) → (result_recorded st p).0 ≡ p.0
unfolding result_recorded
result_recorded-store st (m, ok b) = refl
result_recorded-store st (m, err not_found) = refl
result_recorded-store st (m, err _) = refl

module _ (t : Tenant) (host : String) where
  -- What a report of another job leaves.
  abbrev pub Same : ScopedKey → Memory → Memory → Type 0
  Same k m n = (n.results k ≡ m.results k) × (get scoped k n.records ≡ get scoped k m.records)

  recorded-Same :
      (k : ScopedKey) (r : ResultRequest) (now : Time) (m : Memory) (o : Option JobRecord)
      → (t, r.job_id) ≢ k
      → Same k m (record_found t host r now m o).0
  unfolding record_found
  recorded-Same k r now m none ne = (refl, refl)
  recorded-Same k r now m (some rec) ne = elim (Bool-cases (is_foreign host rec)) [
    | inl e ↦ rw e (refl, refl)
    | inr e ↦ elim (Bool-cases (is_some (m.results (t, r.job_id)))) [
      | inl f ↦ rw (e, f) (refl, refl)
      | inr f ↦
          rw (e, f)
            (
              set_other (t, r.job_id) k (some r) m.results ne,
              get-put_other scoped (t, r.job_id) k _ m.records ne,
            )
    ]
  ]

  handle_result-Same :
      (k : ScopedKey) (r : ResultRequest) (now : Time) (m : Memory)
      → (t, r.job_id) ≢ k
      → Same k m (handle_result t host r.job_id r now m).0
  unfolding handle_result record_result
  handle_result-Same k r now m ne = elim (Bool-cases (str_eq r.job_id "")) [
    | inl e ↦ rw e (refl, refl)
    | inr e ↦
        rw (e, (eq_iff r.job_id r.job_id).1 refl)
          (subst (λ n. Same k m n)
            (sym
              (result_recorded-store r.status (record_result t host (received r.job_id r) now m)))
            (recorded-Same k (received r.job_id r) now m (get scoped (t, r.job_id) m.records) ne))
  ]

  -- The job was claimed by this host, and its result is not recorded yet, or is this one.
  abbrev pub Awaiting : ResultRequest → Memory → Type 0
  Awaiting r m =
      Answerable host (get scoped (t, r.job_id) m.records)
      × ((m.results (t, r.job_id) ≡ none) ⊎ (m.results (t, r.job_id) ≡ some (received r.job_id r)))

  abbrev pub Recorded : ResultRequest → Memory → Type 0
  Recorded r m =
      Answerable host (get scoped (t, r.job_id) m.records)
      × (m.results (t, r.job_id) ≡ some (received r.job_id r))

  own-Recorded :
      (r : ResultRequest) (now : Time) (m : Memory) (o : Option JobRecord)
      → get scoped (t, r.job_id) m.records ≡ o
      → Answerable host o
      → (m.results (t, r.job_id) ≡ none) ⊎ (m.results (t, r.job_id) ≡ some (received r.job_id r))
      → Recorded r (record_found t host (received r.job_id r) now m o).0
        × ((first : Bool) × ((record_found t host (received r.job_id r) now m o).1 ≡ ok first))
  unfolding record_found
  own-Recorded r now m none g (rec, e, _, _) h = absurd (cc (e))
  own-Recorded r now m (some rec) g (rec', e, a, b) h =
      let same : rec' ≡ rec = some_inj (sym e) in
      let mine : rec.host_id ≡ host = subst (λ x. x.host_id ≡ host) same a in
      let claimed : rec.claimed_at ≢ 0 = subst (λ x. x.claimed_at ≢ 0) same b in
      let own : str_eq rec.host_id host ≡ true = (eq_iff rec.host_id host).1 mine in
      let taken : is_foreign host rec ≡ false = unfold is_foreign in ground arith in
      elim h [
        | inl n ↦
            rw (taken, n)
              (
                (
                  (
                    record rec { completed_at = now },
                    get-put scoped (t, r.job_id) _ m.records,
                    mine,
                    claimed,
                  ),
                  set_own (t, r.job_id) (some (received r.job_id r)) m.results,
                ),
                (true, refl),
              )
        | inr o ↦ rw (taken, o) (((rec, g, mine, claimed), o), (false, refl))
      ]

  result_recorded-accepted :
      (st : Status) (p : Memory × Result StoreError Bool) (first : Bool)
      → p.1 ≡ ok first
      → answer_of (result_recorded st p).1 ≡ accepted
  unfolding result_recorded
  result_recorded-accepted st (m, ok b) first e = refl
  result_recorded-accepted st (m, err x) first e = absurd (cc (e))

  pub handle_result-Recorded :
      (r : ResultRequest) (now : Time) (m : Memory)
      → r.job_id ≢ ""
      → Awaiting r m
      → Recorded r (handle_result t host r.job_id r now m).0
        × (answer_of (handle_result t host r.job_id r now m).1 ≡ accepted)
  unfolding handle_result record_result
  handle_result-Recorded r now m ne (a, h) =
      let p = record_result t host (received r.job_id r) now m in
      let (b, (first, e)) = own-Recorded r now m (get scoped (t, r.job_id) m.records) refl a h in
      let named : str_eq r.job_id "" ≡ false = ground (arith, eq_iff r.job_id "") in
      rw (named, (eq_iff r.job_id r.job_id).1 refl)
        (
          subst (Recorded r) (sym (result_recorded-store r.status p)) b,
          result_recorded-accepted r.status p first e,
        )

  pub Awaiting-Same :
      (r : ResultRequest) (m n : Memory) → Same (t, r.job_id) m n → Awaiting r m → Awaiting r n
  Awaiting-Same r m n (e, f) (a, h) = (
    subst (Answerable host) (sym f) a,
    subst (λ x. (x ≡ none) ⊎ (x ≡ some (received r.job_id r))) (sym e) h,
  )

  pub Recorded-Same :
      (r : ResultRequest) (m n : Memory) → Same (t, r.job_id) m n → Recorded r m → Recorded r n
  Recorded-Same r m n (e, f) (a, h) = (subst (Answerable host) (sym f) a, e ∙ h)

  pub Recorded-Awaiting : (r : ResultRequest) (m : Memory) → Recorded r m → Awaiting r m
  Recorded-Awaiting r m (a, h) = (a, inr h)

  pub report-Same :
      (k : ScopedKey) (f : Fate) (x : ResultRequest) (m : Memory)
      → (t, x.job_id) ≢ k
      → Same k m (report_result t host f x m).0
  unfolding report_result
  report-Same k unsent x m ne = (refl, refl)
  report-Same k (unanswered now) x m ne = handle_result-Same k x now m ne
  report-Same k (delivered now) x m ne = handle_result-Same k x now m ne

  pub own-Recorded_report :
      (r : ResultRequest) (f : Fate) (m : Memory)
      → r.job_id ≢ ""
      → Recorded r m
      → Recorded r (report_result t host f r m).0
  unfolding report_result
  own-Recorded_report r unsent m ne c = c
  own-Recorded_report r (unanswered now) m ne c =
      (handle_result-Recorded r now m ne (Recorded-Awaiting r m c)).0
  own-Recorded_report r (delivered now) m ne c =
      (handle_result-Recorded r now m ne (Recorded-Awaiting r m c)).0
