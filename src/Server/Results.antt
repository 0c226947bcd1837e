-- ===== src/Server/Results.antt =====
-- internal/server/agentapi.go: `handleResult`. A body that does not parse is not modelled, and a status
-- is one of the seven; of the notifications only which one it is is kept.
use hostseal.Base.{
  String, Bool, true, false, not, ◌&&◌, List, [], ◌∷◌, Result, ok, err, str_eq, if◌then◌else◌,
}
use hostseal.Policy.Time.{Time}
use hostseal.Agent.Job.{Status, failed, expired}
use hostseal.Agent.Run.{ResultRequest, truncate_output}
use hostseal.Store.State.{Tenant, Memory, StoreError, not_found}
use hostseal.Store.Jobs.{record_result}
use hostseal.Server.Jobs.{Refusal, malformed, unknown_job, internal}

pub data Notice : Type 0 where
  job_failed job_expired : Notice

unfoldable pub notices : Bool → Status → List Notice
notices false st = []
notices true failed = job_failed ∷ []
notices true expired = job_expired ∷ []
notices true _ = []

-- What is recorded of the request: the job of the path, and the end of the output.
abbrev pub received : String → ResultRequest → ResultRequest
received job_id r =
    let (output, cut) = truncate_output r.output in
    record r { job_id = job_id; output = output; output_truncated = cut }

unfoldable pub result_recorded :
    Status → Memory × Result StoreError Bool → Memory × Result Refusal (List Notice)
unfolding notices
result_recorded st (m, err not_found) = (m, err unknown_job)
result_recorded st (m, err _) = (m, err internal)
result_recorded st (m, ok first) = (m, ok (notices first st))

unfoldable pub handle_result :
    Tenant → String → String → ResultRequest → Time → Memory → Memory × Result Refusal (List Notice)
unfolding result_recorded truncate_output
handle_result t host job_id r now m =
    if str_eq job_id ""
    then (m, err malformed)
    else if not (str_eq r.job_id "") && not (str_eq r.job_id job_id)
    then (m, err malformed)
    else result_recorded r.status (record_result t host (received job_id r) now m)
