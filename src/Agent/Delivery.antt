-- ===== src/Agent/Delivery.antt =====
-- internal/agent/results.go and internal/agent/agent.go with `handleResult` of
-- internal/server/agentapi.go: the delivery of results over a network that loses requests and answers.
use hostseal.Base.{String, Bool, List, [], ◌∷◌, Result, ok, err}
use hostseal.Agent.Run.{ResultRequest}
use hostseal.Agent.Spool.{
  Spool, spool_result, pending_results, Answer, accepted, refused, undelivered, settle_file,
}
use hostseal.Store.State.{Tenant, Memory}
use hostseal.Store.Machine.{Op, step}
use hostseal.Server.Jobs.{Refusal, malformed, unknown_job}
use hostseal.Server.Results.{Notice, handle_result}
use hostseal.Server.Beats.{Fate, unsent, unanswered, delivered}

-- 400 and 404 are permanent; 500 is not.
abbrev pub answer_of : Result Refusal (List Notice) → Answer
answer_of (ok notices) = accepted
answer_of (err malformed) = refused
answer_of (err unknown_job) = refused
answer_of (err _) = undelivered

abbrev pub World : Type 0
World = Spool × Memory

-- Whether the file can be removed afterwards.
abbrev pub Try : Type 0
Try = Fate × Bool

module _ (t : Tenant) (host : String) where
  -- `ReportResult`
  unfoldable pub report_result : Fate → ResultRequest → Memory → Memory × Answer
  report_result unsent r m = (m, undelivered)
  report_result (unanswered now) r m = ((handle_result t host r.job_id r now m).0, undelivered)
  report_result (delivered now) r m =
      let (n, a) = handle_result t host r.job_id r now m in (n, answer_of a)

  -- One result: the report, and what becomes of the file.
  unfoldable pub deliver_one : Try → ResultRequest → World → World
  unfolding report_result settle_file
  deliver_one (f, removable) r (s, m) =
      let (n, a) = report_result f r m in (settle_file (a, removable) r s, n)

  unfoldable pub deliver_all : List Try → List ResultRequest → World → World
  unfolding deliver_one
  deliver_all [] rs w = w
  deliver_all (f ∷ fs) [] w = w
  deliver_all (f ∷ fs) (r ∷ rs) w = deliver_all fs rs (deliver_one f r w)

  -- `DeliverPending`
  unfoldable pub deliver_pending : List Try → World → World
  unfolding deliver_all
  deliver_pending fs (s, m) = let (rs, kept) = pending_results s in deliver_all fs rs (kept, m)

  -- A job of `pollAndRun`, behind its run.
  unfoldable pub finish_job : Bool → Try → ResultRequest → World → World
  unfolding deliver_one
  finish_job written f r (s, m) = deliver_one f r ((spool_result written r s).0, m)

  -- What happens: a pass over the spool, the end of a job, and whatever others do to the store.
  pub data Event : Type 0 where
    pass : List Try → Event
    finishes : Bool → Try → ResultRequest → Event
    elsewhere : Tenant × Op → Event

  unfoldable pub happen : Event → World → World
  unfolding deliver_pending finish_job
  happen (pass fs) w = deliver_pending fs w
  happen (finishes written f r) w = finish_job written f r w
  happen (elsewhere op) (s, m) = (s, step op m)

  unfoldable pub happens : List Event → World → World
  unfolding happen
  happens [] w = w
  happens (e ∷ es) w = happens es (happen e w)
