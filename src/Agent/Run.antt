-- ===== src/Agent/Run.antt =====
-- internal/agent/execute.go: `Runner.Run`, `elevate` and `statusForExit`; `TruncateOutput` of
-- internal/protocol/protocol.go. Texts for people (errors, the note of a provisional result) and
-- the typed result of a report are not kept.
use hostseal.Base.{
  ℕ, ◌-◌, String, Bool, true, false, ◌||◌, Option, none, some, List, [], ◌∷◌, Result, ok, err, leb,
  ◌==◌, if◌then◌else◌, Bytes, length, drop,
}
use hostseal.Base.Int.{ℤ, pos, negsuc}
use hostseal.Json.{Raw}
use hostseal.Intent.Names.{Name, privileged}
use hostseal.Intent.Params.{may_not_return}
use hostseal.Policy.Time.{Time}
use hostseal.Agent.Job.{Job, Status, succeeded, failed, refused_by_policy, unsupported_intent}
use hostseal.Agent.Nonces.{NonceStore}
use hostseal.Agent.Accept.{Agent, Moment, Accepted, effective_issue_time, accept}

-- `protocol.ResultRequest`
pub record ResultRequest : Type 0 where
  pub job_id : String
  pub status : Status
  pub started_at : Time
  pub finished_at : Time
  pub exit_code : ℤ
  pub output : Bytes
  pub output_truncated : Bool

-- `privsep.Request` and `privsep.Response`
pub record Request : Type 0 where
  pub job_id : String
  pub intent : Name
  pub params : Raw
  pub issued_at : Time

pub record Response : Type 0 where
  pub exit_code : ℤ
  pub output : Bytes
  pub output_truncated : Bool

-- What `Run` does to the world, in order.
pub data Effect : Type 0 where
  spool : ResultRequest → Effect
  invoke : Request → Effect
  execute : Accepted → Effect

-- The answers of the world: whether there is a spool and it takes a record, whether there is a
-- route to the helpers and what they answer (`none` for an error), whether a report succeeds, and
-- the clock at the end.
pub record World : Type 0 where
  pub spool_ok : Option Bool
  pub helper : Option (Request → Option Response)
  pub report_ok : Accepted → Bool
  pub finish : Time

abbrev pub max_output : ℕ
max_output = 65536

-- `TruncateOutput`: the end of a long text is kept.
unfoldable pub truncate_output : Bytes → Bytes × Bool
truncate_output s =
    if leb (length s) max_output then (s, false) else (drop (length s - max_output) s, true)

-- `statusForExit`
unfoldable pub status_for_exit : ℤ → Status
status_for_exit (negsuc _) = failed
status_for_exit (pos code) =
    if code == 0
    then succeeded
    else if code == 3
    then refused_by_policy
    else if code == 4
    then unsupported_intent
    else failed

abbrev pub started : Job → Moment → Status → ResultRequest
started j m st = record {
  job_id = j.id;
  status = st;
  started_at = m.now;
  finished_at = m.now;
  exit_code = pos 0;
  output = [];
  output_truncated = false;
}

abbrev pub finished : Job → Moment → World → Status → ResultRequest
finished j m w st = record (started j m st) { finished_at = w.finish }

-- The record that is written before an operation that may not return.
abbrev pub provisional : Job → Moment → ResultRequest
provisional j m = started j m succeeded

abbrev pub request_of : Job → Accepted → Request
request_of j a = record {
  job_id = j.id;
  intent = a.spec.name;
  params = a.raw;
  issued_at = effective_issue_time j;
}

unfoldable pub answered : Job → Moment → World → Option Response → ResultRequest
unfolding truncate_output
answered j m w none = finished j m w failed
answered j m w (some r) =
    let (output, cut) = truncate_output r.output in
    record (finished j m w (status_for_exit r.exit_code)) {
      exit_code = r.exit_code;
      output = output;
      output_truncated = cut || r.output_truncated;
    }

unfoldable pub elevate_with :
    Job
    → Moment
    → World
    → Accepted
    → Option (Request → Option Response)
    → ResultRequest × List Effect
unfolding answered
elevate_with j m w a none = (finished j m w failed, [])
elevate_with j m w a (some call) =
    (answered j m w (call (request_of j a)), invoke (request_of j a) ∷ [])

unfoldable pub elevate : Job → Moment → World → Accepted → ResultRequest × List Effect
unfolding elevate_with
elevate j m w a = elevate_with j m w a w.helper

-- Behind the provisional record: the helper for a privileged operation, a report for the others.
unfoldable pub perform : Job → Moment → World → Accepted → ResultRequest × List Effect
perform j m w a =
    if privileged a.spec.class
    then elevate j m w a
    else (finished j m w (if w.report_ok a then succeeded else failed), execute a ∷ [])

unfoldable pub after_spool : Effect → ResultRequest × List Effect → ResultRequest × List Effect
after_spool e (r, es) = (r, e ∷ es)

unfoldable pub spooled : Job → Moment → World → Accepted → Option Bool → ResultRequest × List Effect
unfolding after_spool
spooled j m w a none = (finished j m w failed, [])
spooled j m w a (some false) = (finished j m w failed, spool (provisional j m) ∷ [])
spooled j m w a (some true) = after_spool (spool (provisional j m)) (perform j m w a)

unfoldable pub proceed : Job → Moment → World → Accepted → ResultRequest × List Effect
unfolding spooled
proceed j m w a =
    if may_not_return a.spec.may_not_return a.params
    then spooled j m w a w.spool_ok
    else perform j m w a

unfoldable pub decided : Job → Moment → World → Result Status Accepted → ResultRequest × List Effect
decided j m w (err st) = (finished j m w st, [])
decided j m w (ok a) = proceed j m w a

-- `Run`, with the replay store that it leaves.
unfoldable pub run :
    Agent → Job → Moment → World → NonceStore → NonceStore × (ResultRequest × List Effect)
unfolding decided
run g j m w s = let (t, r) = accept g j m s in (t, decided j m w r)
