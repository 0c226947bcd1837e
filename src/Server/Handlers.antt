-- ===== src/Server/Handlers.antt =====
-- internal/server/jobsapi.go: what the two handlers leave in the store.
use hostseal.Base.{
  ℕ, ◌≡◌, ◌↔◌, refl, sym, ap, subst, String, Bool, true, false, not, ◌&&◌, Option, none, some, List,
  Result, ok, err, ok_inj, if◌then◌else◌, str_eq, arith,
}
use hostseal.Base.Assoc.{get, get-put}
use hostseal.Policy.Time.{Time}
use hostseal.Store.State.{
  Tenant, JobRecord, NewJob, Memory, StoreError, scoped, conflict, not_found,
}
use hostseal.Store.Jobs.{
  is_some, find_host, nonce_taken, new_record, created, enqueue, offered, create_job,
  is_unapprovable, approve_found, approve_job, with_result, get_job,
}
use hostseal.Server.Jobs.{
  JobRequest, Config, NewIds, Refusal, prepare, written, stored, handle_create_job, approve_refusal,
  released, approve_unless, approve_read, handle_approve_job,
}
use hostseal.Server.Created.{Lawful, prepare-Lawful}

module _ (t : Tenant) (n : NewJob) where
  -- The record of this job is in the store.
  abbrev IsRecorded : Memory × Result StoreError (List ℕ) → Type 0
  IsRecorded x =
      (w : List ℕ) → x.1 ≡ ok w → get scoped (t, n.job.id) x.0.records ≡ some (new_record n)

  branch-IsRecorded :
      (b : Bool) (m : Memory) (e : StoreError) (x : Memory × Result StoreError (List ℕ))
      → IsRecorded x
      → IsRecorded (if b then (m, err e) else x)
  branch-IsRecorded true m e x r w h = cc
  branch-IsRecorded false m e x r w h = r w h

  offered-IsRecorded : (m : Memory) (b : Bool) → IsRecorded (offered t n m b)
  unfolding offered created enqueue
  offered-IsRecorded m true w h = get-put scoped (t, n.job.id) (new_record n) m.records
  offered-IsRecorded m false w h = get-put scoped (t, n.job.id) (new_record n) m.records

  create_job-IsRecorded : (m : Memory) → IsRecorded (create_job t n m)
  unfolding create_job
  create_job-IsRecorded m =
      branch-IsRecorded (not (is_some (find_host t n.host_id m))) m not_found _ (
        branch-IsRecorded (is_some (get scoped (t, n.job.id) m.records)) m conflict _ (
          branch-IsRecorded (not (str_eq n.job.signature "") && nonce_taken t n m.records) m
            conflict _ (offered-IsRecorded m n.approval_required)))

  written-ok :
      (x : Memory × Result StoreError (List ℕ)) {k : NewJob}
      → (written t n x).1 ≡ ok k
      → (n ≡ k) × ((w : List ℕ) × (x.1 ≡ ok w)) × ((written t n x).0 ≡ x.0)
  unfolding written
  written-ok (m, err e) h = cc
  written-ok (m, ok w) h = (ok_inj h, (w, refl), refl)

module _ (c : Config) (t : Tenant) (by : String) (r : JobRequest) (now : Time) (ids : NewIds)
    (m : Memory) where
  stored-Lawful :
      (p : Result Refusal NewJob) {n : NewJob}
      → prepare c t by r now ids m ≡ p
      → (stored t m p).1 ≡ ok n
      → Lawful c t by r now m n
        × (get scoped (t, n.job.id) (stored t m p).0.records ≡ some (new_record n))
  unfolding stored
  stored-Lawful (err e) f h = cc
  stored-Lawful (ok k) {n} f h =
      let (same, (w, o), kept) = written-ok t k (create_job t k m) h in
      let recorded = create_job-IsRecorded t k m w o in
      let law = prepare-Lawful c t by r now ids m f in
      (
        subst (Lawful c t by r now m) same law,
        subst
            (λ x.
              get scoped (t, x.job.id) (written t k (create_job t k m)).0.records
              ≡ some (new_record x))
            same
            (subst (λ s. get scoped (t, k.job.id) s.records ≡ some (new_record k)) (sym kept)
              recorded),
      )

  -- A job that the control plane takes from an operator is for a host of the operator's tenant that is
  -- not revoked, and its operation is one that agents execute, with parameters that decode. If it is
  -- destructive it carries the signature of the request, unchanged as everything is that it covers,
  -- under an id that the host can take and with a window that is not empty, and it waits for a release
  -- exactly as the tenant's mode says; if it is routine the server's own key signed it for this host;
  -- if it only reads it carries no signature. The store then holds its record.
  pub handle_create_job-Lawful :
      (n : NewJob)
      → (handle_create_job c t by r now ids m).1 ≡ ok n
      → Lawful c t by r now m n
        × (get scoped (t, n.job.id) (handle_create_job c t by r now ids m).0.records
            ≡ some (new_record n))
  unfolding handle_create_job
  handle_create_job-Lawful n h = stored-Lawful (prepare c t by r now ids m) refl h

module _ (t : Tenant) (id by : String) (now : Time) (m : Memory) where
  -- The handler and the store end alike.
  abbrev Agrees : Memory × Result Refusal (List ℕ) → Memory × Result StoreError (List ℕ) → Type 0
  Agrees x y = (x.0 ≡ y.0) × ((w : List ℕ) → (x.1 ≡ ok w) ↔ (y.1 ≡ ok w))

  released-Agrees : (y : Memory × Result StoreError (List ℕ)) → Agrees (released y) y
  unfolding released
  released-Agrees (k, ok w) = (refl, λ v. (λ e. ap ok (ok_inj e), λ e. ap ok (ok_inj e)))
  released-Agrees (k, err conflict) = (refl, λ w. (λ e. cc, λ e. cc))
  released-Agrees (k, err not_found) = (refl, λ w. (λ e. cc, λ e. cc))
  released-Agrees (k, err _) = (refl, λ w. (λ e. cc, λ e. cc))

  refusal-unapprovable :
      (rec : JobRecord) {e : Refusal}
      → approve_refusal by rec ≡ some e
      → is_unapprovable by rec ≡ true
  unfolding approve_refusal is_unapprovable
  refusal-unapprovable rec h = ground arith

  approve_unless-Agrees :
      (rec : JobRecord) (o : Option Refusal)
      → approve_refusal by rec ≡ o
      → get scoped (t, id) m.records ≡ some rec
      → Agrees (approve_unless t id by now m o) (approve_job t id by now m)
  unfolding approve_unless approve_job approve_found
  approve_unless-Agrees rec none e f = released-Agrees (approve_job t id by now m)
  approve_unless-Agrees rec (some x) e f =
      rw (f, refusal-unapprovable rec e) (refl, λ w. (λ e. cc, λ e. cc))

  approve_read-Agrees :
      (o : Option JobRecord)
      → get scoped (t, id) m.records ≡ o
      → Agrees
          (approve_read t id by now m (with_result (m.results (t, id)) o))
          (approve_job t id by now m)
  unfolding approve_read with_result approve_job approve_found
  approve_read-Agrees none e = rw e (refl, λ w. (λ e. cc, λ e. cc))
  approve_read-Agrees (some rec) e = approve_unless-Agrees rec (approve_refusal by rec) refl e

  -- The handler of a release leaves the store as the store's own operation does, and succeeds exactly
  -- if that one does: what it tests before, to say why it refuses, refuses nothing that the store
  -- would have released.
  pub handle_approve_job-agrees :
      ((handle_approve_job t id by now m).0 ≡ (approve_job t id by now m).0)
      × ((w : List ℕ)
          → ((handle_approve_job t id by now m).1 ≡ ok w) ↔ ((approve_job t id by now m).1 ≡ ok w))
  unfolding handle_approve_job get_job
  handle_approve_job-agrees = approve_read-Agrees (get scoped (t, id) m.records) refl
