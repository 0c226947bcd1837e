-- ===== src/Agent/Kept.antt =====
-- internal/agent/results.go with internal/server/agentapi.go: a result that is on disk is not lost.
use hostseal.Base.{
  ◌≡◌, ◌≢◌, sym, ◌∙◌, ap, subst, inl, inr, String, Bool, false, ◌&&◌, some, List, [], ◌∷◌, str_eq,
  eq_iff, Bool-cases, All, In, length, ◌≤◌, arith,
}
use hostseal.Base.Assoc.{get, delete, get-delete_other, All-keep}
use hostseal.Policy.Time.{Time}
use hostseal.Agent.Run.{ResultRequest}
use hostseal.Agent.Spool.{
  File, holds, unreadable, unavailable, Spool, pending_results, Answer, accepted, refused,
  undelivered, remove_file, settle_file,
}
use hostseal.Agent.Delivery.{answer_of, World, Try, report_result, deliver_one, deliver_all}
use hostseal.Store.State.{Tenant, by_id, Memory}
use hostseal.Server.Jobs.{valid_job_id}
use hostseal.Server.Results.{handle_result}
use hostseal.Server.Beats.{unsent, unanswered, delivered}
use hostseal.Agent.Reports.{
  Same, Awaiting, Recorded, handle_result-Recorded, Awaiting-Same, Recorded-Same, Recorded-Awaiting,
  report-Same, own-Recorded_report,
}

module _ (t : Tenant) (host : String) where
  -- The file of the result is there.
  abbrev pub OnDisk : ResultRequest → Spool → Type 0
  OnDisk r s = get by_id r.job_id s ≡ some (holds r)

  -- Every record is in the file of its own job, and one file is that of the result.
  abbrev pub Filed : ResultRequest → String × File → Type 0
  Filed r (k, holds x) = (x.job_id ≡ k) × ((k ≡ r.job_id) → x ≡ r)
  Filed r (k, unreadable) = k ≢ r.job_id
  Filed r (k, unavailable) = k ≢ r.job_id

  pub data Stage (r : ResultRequest) : World → Type 0 where
    waits : {s : Spool} {m : Memory} → OnDisk r s → Awaiting t host r m → Stage r (s, m)
    sent : {s : Spool} {m : Memory} → Recorded t host r m → Stage r (s, m)

  abbrev pub Safe : ResultRequest → World → Type 0
  Safe r w = All (Filed r) w.0 × Stage r w

  remove_file-Filed :
      (r : ResultRequest) (b : Bool) (id : String) (s : Spool)
      → All (Filed r) s
      → All (Filed r) (remove_file b id s)
  unfolding delete
  remove_file-Filed r b id s h = elim (Bool-cases (valid_job_id id && b)) [
    | inl e ↦ rw e (All-keep (Filed r) _ s h)
    | inr e ↦ rw e h
  ]

  settle_file-Filed :
      (r x : ResultRequest) (a : Answer) (b : Bool) (s : Spool)
      → All (Filed r) s
      → All (Filed r) (settle_file (a, b) x s)
  unfolding settle_file
  settle_file-Filed r x undelivered b s h = h
  settle_file-Filed r x accepted b s h = remove_file-Filed r b x.job_id s h
  settle_file-Filed r x refused b s h = remove_file-Filed r b x.job_id s h

  remove_file-OnDisk :
      (r : ResultRequest) (b : Bool) (id : String) (s : Spool)
      → id ≢ r.job_id
      → OnDisk r s
      → OnDisk r (remove_file b id s)
  remove_file-OnDisk r b id s ne h = elim (Bool-cases (valid_job_id id && b)) [
    | inl e ↦ rw e (get-delete_other by_id id r.job_id s ne ∙ h)
    | inr e ↦ rw e h
  ]

  settle_file-OnDisk :
      (r x : ResultRequest) (a : Answer) (b : Bool) (s : Spool)
      → x.job_id ≢ r.job_id
      → OnDisk r s
      → OnDisk r (settle_file (a, b) x s)
  unfolding settle_file
  settle_file-OnDisk r x undelivered b s ne h = h
  settle_file-OnDisk r x accepted b s ne h = remove_file-OnDisk r b x.job_id s ne h
  settle_file-OnDisk r x refused b s ne h = remove_file-OnDisk r b x.job_id s ne h

  pub Stage-Same :
      (r : ResultRequest) (s u : Spool) (m n : Memory)
      → (OnDisk r s → OnDisk r u)
      → Same t host (t, r.job_id) m n
      → Stage r (s, m)
      → Stage r (u, n)
  Stage-Same r s u m n f e (waits d a) = waits (f d) (Awaiting-Same t host r m n e a)
  Stage-Same r s u m n f e (sent c) = sent (Recorded-Same t host r m n e c)

  Stage-Awaiting :
      (r : ResultRequest) (s : Spool) (m : Memory) → Stage r (s, m) → Awaiting t host r m
  Stage-Awaiting r s m (waits d a) = a
  Stage-Awaiting r s m (sent c) = Recorded-Awaiting t host r m c

  -- A report of another result.
  other-Safe :
      (r x : ResultRequest) (f : Try) (w : World)
      → x.job_id ≢ r.job_id
      → Safe r w
      → Safe r (deliver_one t host f x w)
  unfolding deliver_one
  other-Safe r x (f, b) (s, m) ne (h, st) =
      let p = report_result t host f x m in
      let same = report-Same t host (t, r.job_id) f x m (λ e. ne (ap (λ k. k.1) e)) in
      (
        settle_file-Filed r x p.1 b s h,
        Stage-Same r s (settle_file (p.1, b) x s) m p.0 (settle_file-OnDisk r x p.1 b s ne) same st,
      )

  -- A report of the result itself: it is recorded as soon as it arrives.
  own-Safe :
      (r : ResultRequest) (f : Try) (w : World)
      → r.job_id ≢ ""
      → Safe r w
      → Safe r (deliver_one t host f r w)
  unfolding deliver_one report_result settle_file
  own-Safe r (unsent, b) (s, m) ne (h, st) = (h, st)
  own-Safe r (unanswered now, b) (s, m) ne (h, st) =
      let (c, e) = handle_result-Recorded t host r now m ne (Stage-Awaiting r s m st) in (h, sent c)
  own-Safe r (delivered now, b) (s, m) ne (h, st) =
      let (c, e) = handle_result-Recorded t host r now m ne (Stage-Awaiting r s m st) in
      (settle_file-Filed r r (answer_of (handle_result t host r.job_id r now m).1) b s h, sent c)

  -- What is delivered from the spool is the result, or another job's.
  abbrev pub Listed : ResultRequest → ResultRequest → Type 0
  Listed r x = (x.job_id ≡ r.job_id) → x ≡ r

  pub deliver_one-Safe :
      (r x : ResultRequest) (f : Try) (w : World)
      → r.job_id ≢ ""
      → Listed r x
      → Safe r w
      → Safe r (deliver_one t host f x w)
  deliver_one-Safe r x f w ne l h = elim (Bool-cases (str_eq x.job_id r.job_id)) [
    | inl e ↦
        let same = l ((eq_iff x.job_id r.job_id).0 e) in
        subst (λ y. Safe r (deliver_one t host f y w)) (sym same) (own-Safe r f w ne h)
    | inr e ↦ other-Safe r x f w (ground (arith, eq_iff x.job_id r.job_id)) h
  ]

  pub deliver_all-Safe :
      (r : ResultRequest) (fs : List Try) (xs : List ResultRequest) (w : World)
      → r.job_id ≢ ""
      → All (Listed r) xs
      → Safe r w
      → Safe r (deliver_all t host fs xs w)
  unfolding deliver_all
  deliver_all-Safe r [] xs w ne l h = h
  deliver_all-Safe r (f ∷ fs) [] w ne l h = h
  deliver_all-Safe r (f ∷ fs) (x ∷ xs) w ne (l, ls) h =
      deliver_all-Safe r fs xs (deliver_one t host f x w) ne ls (deliver_one-Safe r x f w ne l h)

  pub pending-Listed :
      (r : ResultRequest) (s : Spool)
      → All (Filed r) s
      → All (Listed r) (pending_results s).0 × All (Filed r) (pending_results s).1
  unfolding pending_results
  pending-Listed r [] h = (tt, tt)
  pending-Listed r ((k, holds x) ∷ s) ((a, b), h) =
      let (p, q) = pending-Listed r s h in (((λ e. b (sym a ∙ e)), p), ((a, b), q))
  pending-Listed r ((k, unreadable) ∷ s) (a, h) = pending-Listed r s h
  pending-Listed r ((k, unavailable) ∷ s) (a, h) = let (p, q) = pending-Listed r s h in (p, (a, q))

  pub pending-OnDisk :
      (r : ResultRequest) (s : Spool)
      → All (Filed r) s
      → OnDisk r s
      → OnDisk r (pending_results s).1 × In r (pending_results s).0
  unfolding pending_results get
  pending-OnDisk r [] h e = absurd (cc (e))
  pending-OnDisk r ((k, holds x) ∷ s) ((a, b), h) e = elim (Bool-cases (by_id.same k r.job_id)) [
    | inl f ↦ rw f (rw f at e, inl (b ((by_id.same_iff k r.job_id).0 f)))
    | inr f ↦ let (p, q) = pending-OnDisk r s h (rw f at e) in (rw f p, inr q)
  ]
  pending-OnDisk r ((k, unreadable) ∷ s) (a, h) e =
      let f : by_id.same k r.job_id ≡ false = ground (arith, by_id.same_iff k r.job_id) in
      pending-OnDisk r s h (rw f at e)
  pending-OnDisk r ((k, unavailable) ∷ s) (a, h) e =
      let f : by_id.same k r.job_id ≡ false = ground (arith, by_id.same_iff k r.job_id) in
      let (p, q) = pending-OnDisk r s h (rw f at e) in (rw f p, q)

  arrived-Recorded :
      (r : ResultRequest) (now : Time) (b : Bool) (s : Spool) (m : Memory)
      → r.job_id ≢ ""
      → Stage r (s, m)
      → Recorded t host r (deliver_one t host (delivered now, b) r (s, m)).1
  unfolding deliver_one report_result
  arrived-Recorded r now b s m ne st =
      (handle_result-Recorded t host r now m ne (Stage-Awaiting r s m st)).0

  pub deliver_one-Recorded :
      (r x : ResultRequest) (f : Try) (w : World)
      → r.job_id ≢ ""
      → Listed r x
      → Recorded t host r w.1
      → Recorded t host r (deliver_one t host f x w).1
  unfolding deliver_one
  deliver_one-Recorded r x (f, b) (s, m) ne l c = elim (Bool-cases (str_eq x.job_id r.job_id)) [
    | inl e ↦
        let same = l ((eq_iff x.job_id r.job_id).0 e) in
        subst (λ y. Recorded t host r (report_result t host f y m).0) (sym same)
          (own-Recorded_report t host r f m ne c)
    | inr e ↦
        let other : x.job_id ≢ r.job_id = ground (arith, eq_iff x.job_id r.job_id) in
        Recorded-Same t host r m (report_result t host f x m).0
          (report-Same t host (t, r.job_id) f x m (λ e. other (ap (λ k. k.1) e))) c
  ]

  pub deliver_all-Recorded :
      (r : ResultRequest) (fs : List Try) (xs : List ResultRequest) (w : World)
      → r.job_id ≢ ""
      → All (Listed r) xs
      → Recorded t host r w.1
      → Recorded t host r (deliver_all t host fs xs w).1
  unfolding deliver_all
  deliver_all-Recorded r [] xs w ne l c = c
  deliver_all-Recorded r (f ∷ fs) [] w ne l c = c
  deliver_all-Recorded r (f ∷ fs) (x ∷ xs) w ne (l, ls) c =
      deliver_all-Recorded r fs xs (deliver_one t host f x w) ne ls
        (deliver_one-Recorded r x f w ne l c)

  abbrev pub Arrives : Try → Type 0
  Arrives (delivered now, b) = Unit
  Arrives _ = Unit → ⊥

  pub deliver_all-Arrives :
      (r : ResultRequest) (fs : List Try) (xs : List ResultRequest) (w : World)
      → r.job_id ≢ ""
      → All (Listed r) xs
      → In r xs
      → All Arrives fs
      → length xs ≤ length fs
      → Safe r w
      → Recorded t host r (deliver_all t host fs xs w).1
  unfolding deliver_all
  deliver_all-Arrives r fs [] w ne l i a n h = absurd (i tt)
  deliver_all-Arrives r [] (x ∷ xs) w ne l i a n h = absurd (omega arith)
  deliver_all-Arrives r ((unsent, b) ∷ fs) (x ∷ xs) w ne l i (a, as') n h = absurd (a tt)
  deliver_all-Arrives r ((unanswered now, b) ∷ fs) (x ∷ xs) w ne l i (a, as') n h = absurd (a tt)
  deliver_all-Arrives r ((delivered now, b) ∷ fs) (x ∷ xs) (s, m) ne (l, ls) (inl e) (a, as') n
        (h, st) =
      deliver_all-Recorded r fs xs (deliver_one t host (delivered now, b) x (s, m)) ne ls (
        subst (λ y. Recorded t host r (deliver_one t host (delivered now, b) y (s, m)).1) (sym e)
          (arrived-Recorded r now b s m ne st))
  deliver_all-Arrives r ((delivered now, b) ∷ fs) (x ∷ xs) w ne (l, ls) (inr i) (a, as') n h =
      deliver_all-Arrives r fs xs (deliver_one t host (delivered now, b) x w) ne ls i as'
        (omega arith) (deliver_one-Safe r x (delivered now, b) w ne l h)
