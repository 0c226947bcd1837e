-- ===== src/Store/SameTokens.antt =====
-- internal/store/memory.go: the operations that touch no token.
use hostseal.Base.{
  ◌≡◌, ◌∙◌, refl, String, Option, none, some, List, [], ◌∷◌, arith, Result, ok, err,
}
use hostseal.Base.Assoc.{get}
use hostseal.Policy.Time.{Time}
use hostseal.Agent.Job.{Job}
use hostseal.Agent.Run.{ResultRequest}
use hostseal.Store.State.{
  Tenant, Host, Certificate, TenantRow, ApprovalMode, JobRecord, by_id, Memory, StoreError, NewJob,
}
use hostseal.Store.Jobs.{
  approve_found, create_job, offered, created, enqueue, claim_taken, record_found,
}
use hostseal.Store.Hosts.{
  delete_host, forget_host, insert_certificate, supersede_found, supersede_certificate, add_stamped,
  stamp_certificate, Renewal, renew_stamped, renew_certificate, enrol_stamped, enrol_in,
  update_found, revoke_found,
}
use hostseal.Store.Tenants.{
  TenantPatch, insert_tenant, create_tenant, normalise_approval_mode, update_row,
  update_found_tenant, patched_mode,
}

pub create_job-tokens :
    (t : Tenant) (n : NewJob) (m : Memory) → (create_job t n m).0.tokens ≡ m.tokens
unfolding create_job offered created enqueue
create_job-tokens t n m = ground arith

pub approve_found-tokens :
    (t : Tenant) (id by : String) (now : Time) (m : Memory) (o : Option JobRecord)
    → (approve_found t id by now m o).0.tokens ≡ m.tokens
unfolding approve_found enqueue
approve_found-tokens t id by now m none = refl
approve_found-tokens t id by now m (some rec) = ground arith

pub claim_taken-tokens :
    (t : Tenant) (host : String) (now : Time) (m : Memory) (js left : List Job)
    → (claim_taken t host now m (js, left)).0.tokens ≡ m.tokens
unfolding claim_taken
claim_taken-tokens t host now m [] left = refl
claim_taken-tokens t host now m (j ∷ js) left = refl

pub delete_host-tokens :
    (t : Tenant) (id : String) (m : Memory) → (delete_host t id m).0.tokens ≡ m.tokens
unfolding delete_host forget_host
delete_host-tokens t id m = ground arith

pub insert_certificate-tokens :
    (c : Certificate) (m : Memory) → (insert_certificate c m).tokens ≡ m.tokens
unfolding insert_certificate
insert_certificate-tokens c m = ground arith

pub supersede_found-tokens :
    (t : Tenant) (fp : String) (at : Time) (m : Memory) (o : Option Certificate)
    → (supersede_found t fp at m o).tokens ≡ m.tokens
unfolding supersede_found
supersede_found-tokens t fp at m none = refl
supersede_found-tokens t fp at m (some c) = ground arith

pub add_stamped-tokens :
    (t : Tenant) (m : Memory) (r : Result StoreError Certificate)
    → (add_stamped t m r).0.tokens ≡ m.tokens
unfolding add_stamped
add_stamped-tokens t m (err e) = refl
add_stamped-tokens t m (ok c) = let e = insert_certificate-tokens c m in ground (arith, e)

pub renew_stamped-tokens :
    (t : Tenant) (r : Renewal) (m : Memory) (c : Result StoreError Certificate)
    → (renew_stamped t r m c).0.tokens ≡ m.tokens
unfolding renew_stamped supersede_certificate
renew_stamped-tokens t r m (err e) = refl
renew_stamped-tokens t r m (ok c) =
    let n = insert_certificate c m in
    supersede_found-tokens t r.presented r.supersede_at n (get by_id r.presented n.certs)
    ∙ insert_certificate-tokens c m

pub renew_certificate-tokens :
    (t : Tenant) (r : Renewal) (m : Memory) → (renew_certificate t r m).0.tokens ≡ m.tokens
unfolding renew_certificate
renew_certificate-tokens t r m =
    let e = renew_stamped-tokens t r m (stamp_certificate t r.replacement) in ground (arith, e)

pub enrol_stamped-tokens :
    (t : Tenant) (h : Host) (m : Memory) (c : Result StoreError Certificate)
    → (enrol_stamped t h m c).0.tokens ≡ m.tokens
unfolding enrol_stamped
enrol_stamped-tokens t h m (err e) = refl
enrol_stamped-tokens t h m (ok c) = ground arith

pub enrol_in-tokens :
    (t : Tenant) (h : Host) (c : Certificate) (m : Memory) (o : Option TenantRow)
    → (enrol_in t h c m o).0.tokens ≡ m.tokens
unfolding enrol_in
enrol_in-tokens t h c m none = refl
enrol_in-tokens t h c m (some row) =
    let e = enrol_stamped-tokens t h m (stamp_certificate t c) in ground (arith, e)

pub update_found-tokens :
    (t : Tenant) (id : String) (f : Host → Host) (m : Memory) (o : Option Host)
    → (update_found t id f m o).0.tokens ≡ m.tokens
unfolding update_found
update_found-tokens t id f m none = refl
update_found-tokens t id f m (some h) = refl

pub revoke_found-tokens :
    (t : Tenant) (id : String) (now : Time) (m : Memory) (o : Option Host)
    → (revoke_found t id now m o).0.tokens ≡ m.tokens
unfolding revoke_found
revoke_found-tokens t id now m none = refl
revoke_found-tokens t id now m (some h) = refl

pub insert_tenant-tokens :
    (t : Tenant) (row : TenantRow) (now : Time) (m : Memory) (r : Result StoreError ApprovalMode)
    → (insert_tenant t row now m r).0.tokens ≡ m.tokens
unfolding insert_tenant
insert_tenant-tokens t row now m (err e) = refl
insert_tenant-tokens t row now m (ok mode) = ground arith

pub create_tenant-tokens :
    (t : Tenant) (row : TenantRow) (now : Time) (m : Memory)
    → (create_tenant t row now m).0.tokens ≡ m.tokens
unfolding create_tenant
create_tenant-tokens t row now m =
    let e = insert_tenant-tokens t row now m (normalise_approval_mode row.approval_mode) in
    ground (arith, e)

pub update_row-tokens :
    (t : Tenant) (p : TenantPatch) (m : Memory) (r : Result StoreError TenantRow)
    → (update_row t p m r).0.tokens ≡ m.tokens
unfolding update_row
update_row-tokens t p m (err e) = refl
update_row-tokens t p m (ok row) = refl

pub update_found_tenant-tokens :
    (t : Tenant) (p : TenantPatch) (m : Memory) (o : Option TenantRow)
    → (update_found_tenant t p m o).0.tokens ≡ m.tokens
unfolding update_found_tenant
update_found_tenant-tokens t p m none = refl
update_found_tenant-tokens t p m (some row) =
    update_row-tokens t p m (patched_mode row p.approval_mode)

pub record_found-tokens :
    (t : Tenant) (host : String) (r : ResultRequest) (now : Time) (m : Memory)
    (o : Option JobRecord)
    → (record_found t host r now m o).0.tokens ≡ m.tokens
unfolding record_found
record_found-tokens t host r now m none = refl
record_found-tokens t host r now m (some rec) = ground arith
