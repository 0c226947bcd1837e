-- ===== src/Server/Jobs.antt =====
-- internal/server/jobsapi.go: what `handleCreateJob` and `handleApproveJob` do to the store. The
-- messages, the log and the notifications are not kept; Build has the tests and the job itself.
mod Build
unfoldable pub use Build.*
use hostseal.Base.{
  ℕ, ◌+◌, ◌-◌, ◌*◌, String, Bool, true, false, not, ◌&&◌, ◌||◌, Option, none, some, List, Result,
  ok, err, ◌>>=◌, ◌>>◌, require, str_eq, leb, ltb, if◌then◌else◌, Bytes, codes, length, all,
  is_alnum,
}
use hostseal.Json.{Json, Raw}
use hostseal.Intent.Names.{Class, read, routine, destructive}
use hostseal.Intent.Params.{Params}
use hostseal.Intent.Catalogue.{Spec, decode, DecodeError}
use hostseal.Policy.Time.{Time, is_zero, second}
use hostseal.Agent.Job.{Job, Codec, signed_payload}
use hostseal.Agent.Accept.{max_skew}
use hostseal.Agent.Run.{ResultRequest}
use hostseal.Store.State.{
  Tenant, TenantRow, Host, JobRecord, NewJob, Memory, StoreError, not_found, conflict,
}
use hostseal.Store.Jobs.{find_host, create_job, get_job, approve_job}
use hostseal.Store.Tenants.{get_tenant, requires_approval, requires_distinct_operator}
use hostseal.Canonical.Signed.{or_empty}

unfoldable pub reachable_host : Option Host → Result Refusal Host
reachable_host none = err unknown_host
reachable_host (some h) = if h.revoked then err revoked else ok h

unfoldable pub or_internal : {A : Type 0} → Option A → Result Refusal A
or_internal none = err internal
or_internal (some a) = ok a

unfoldable pub tenant_read : Result StoreError TenantRow → Result Refusal TenantRow
tenant_read (err e) = err internal
tenant_read (ok t) = ok t

-- Everything up to the write: the record that is to be created.
unfoldable pub prepare :
    Config → Tenant → String → JobRequest → Time → NewIds → Memory → Result Refusal NewJob
unfolding reachable_host or_internal tenant_read
prepare c t by r now ids m = do
  found ← validate_job_request c r
  host ← reachable_host (find_host t r.host_id m)
  job ← or_internal (build_job c r found.0 r.host_id now ids)
  tenant ← tenant_read (get_tenant t m)
  ok (new_job r found.0 by tenant job)

unfoldable pub create_refusal : StoreError → Refusal
create_refusal conflict = duplicate
create_refusal not_found = unknown_host
create_refusal _ = internal

unfoldable pub written :
    Tenant → NewJob → Memory × Result StoreError (List ℕ) → Memory × Result Refusal NewJob
unfolding create_refusal
written t n (m, err e) = (m, err (create_refusal e))
written t n (m, ok woken) = (m, ok n)

unfoldable pub stored : Tenant → Memory → Result Refusal NewJob → Memory × Result Refusal NewJob
unfolding written
stored t m (err e) = (m, err e)
stored t m (ok n) = written t n (create_job t n m)

-- `handleCreateJob`, with the record that it created.
unfoldable pub handle_create_job :
    Config → Tenant → String → JobRequest → Time → NewIds → Memory → Memory × Result Refusal NewJob
unfolding stored prepare
handle_create_job c t by r now ids m = stored t m (prepare c t by r now ids m)

-- Why `handleApproveJob` refuses, before it asks the store.
unfoldable pub approve_refusal : String → JobRecord → Option Refusal
approve_refusal by rec =
    if not rec.approval_required
    then some no_approval_required
    else if not (is_zero rec.approved_at)
    then some already_approved
    else if rec.approval_distinct_operator && str_eq rec.created_by by
    then some self_approval
    else none

unfoldable pub released : Memory × Result StoreError (List ℕ) → Memory × Result Refusal (List ℕ)
released (m, err conflict) = (m, err not_approvable)
released (m, err not_found) = (m, err not_approvable)
released (m, err _) = (m, err internal)
released (m, ok woken) = (m, ok woken)

unfoldable pub approve_unless :
    Tenant → String → String → Time → Memory → Option Refusal → Memory × Result Refusal (List ℕ)
unfolding released
approve_unless t id by now m (some e) = (m, err e)
approve_unless t id by now m none = released (approve_job t id by now m)

unfoldable pub approve_read :
    Tenant
    → String
    → String
    → Time
    → Memory
    → Result StoreError (JobRecord × Option ResultRequest)
    → Memory × Result Refusal (List ℕ)
unfolding approve_unless
approve_read t id by now m (err not_found) = (m, err unknown_job)
approve_read t id by now m (err _) = (m, err internal)
approve_read t id by now m (ok (rec, _)) = approve_unless t id by now m (approve_refusal by rec)

-- `handleApproveJob`
unfoldable pub handle_approve_job :
    Tenant → String → String → Time → Memory → Memory × Result Refusal (List ℕ)
unfolding approve_read
handle_approve_job t id by now m = approve_read t id by now m (get_job t id m)
