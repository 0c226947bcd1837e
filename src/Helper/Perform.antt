-- ===== src/Helper/Perform.antt =====
-- internal/helper/helper.go: `Authorise` and `performWith`, and internal/privsep/server.go: `CheckPeer`,
-- `readRequest` and `ServeConn`. The texts of errors are not kept.
use hostseal.Base.{
  ℕ, String, Bool, false, not, ◌||◌, Option, none, some, List, [], ◌∷◌, Result, ok, err, str_eq,
  ltb, ◌==◌, if◌then◌else◌, Bytes, length,
}
use hostseal.Base.Int.{ℤ}
use hostseal.Intent.Names.{Name}
use hostseal.Intent.Params.{Params}
use hostseal.Intent.Catalogue.{Spec, decode, DecodeError}
use hostseal.Policy.Time.{Time}
use hostseal.Policy.Rules.{Host, Policy}
use hostseal.Policy.Decide.{decide, Decision, refuse, unknown_intent, policy_unreadable}
use hostseal.Policy.Load.{Decoder, File, LoadError, no_policy_file, bad_policy, load_from}
use hostseal.Agent.Run.{Request, Response, truncate_output}
use hostseal.Helper.Endpoints.{
  endpoint, exit_ok, exit_usage, exit_refused, exit_not_implemented, exit_failed,
}

-- What a helper reads of its host: the policy file, whether the host is paused, the clock.
pub record Surroundings : Type 0 where
  pub host : Host
  pub toml : Decoder
  pub file : File
  pub paused : Bool
  pub now : Time

-- `Job`, as it is handed to the operation.
pub record Job : Type 0 where
  pub id : String
  pub intent : Name
  pub params : Params

-- An operation gives its output, and whether it succeeded.
abbrev pub Executor : Type 0
Executor = Job → Bytes × Bool

pub record Helper : Type 0 where
  pub socket : String
  pub execute : Option Executor

unfoldable pub ruled : Surroundings → Request → Spec → Params → Policy × Option LoadError → Decision
ruled w req s a (p, some (bad_policy e)) = refuse policy_unreadable
ruled w req s a (p, some no_policy_file) =
    decide w.host p (record { intent = s.name; params = a; issued_at = req.issued_at })
      (record { now = w.now; paused = w.paused })
ruled w req s a (p, none) =
    decide w.host p (record { intent = s.name; params = a; issued_at = req.issued_at })
      (record { now = w.now; paused = w.paused })

unfoldable pub authorise_decoded :
    Surroundings
    → Request
    → Result DecodeError (Spec × Params)
    → Decision × Result DecodeError Params
unfolding ruled
authorise_decoded w req (err e) = (refuse unknown_intent, err e)
authorise_decoded w req (ok (s, a)) = (ruled w req s a (load_from w.host w.toml w.file), ok a)

-- `Authorise`
unfoldable pub authorise : Surroundings → Request → Decision × Result DecodeError Params
unfolding authorise_decoded
authorise w req = authorise_decoded w req (decode req.intent req.params)

-- A response without output.
abbrev pub plain : ℤ → Response
plain code = record { exit_code = code; output = []; output_truncated = false }

abbrev pub job_of : Request → Params → Job
job_of req a = record { id = req.job_id; intent = req.intent; params = a }

unfoldable pub answer : Bytes × Bool → Response
unfolding truncate_output
answer (output, succeeded) =
    let (kept, cut) = truncate_output output in
    record {
      exit_code = if succeeded then exit_ok else exit_failed;
      output = kept;
      output_truncated = cut;
    }

-- The end of `performWith`, with the jobs that are handed to the operation.
unfoldable pub execute_with : Option Executor → Job → Response × List Job
unfolding answer
execute_with none j = (plain exit_not_implemented, [])
execute_with (some f) j = (answer (f j), j ∷ [])

unfoldable pub authorised :
    Helper → Request → Decision × Result DecodeError Params → Response × List Job
unfolding execute_with
authorised h req (d, err e) = (plain exit_usage, [])
authorised h req (d, ok a) =
    if not d.allowed then (plain exit_refused, []) else execute_with h.execute (job_of req a)

unfoldable pub routed : Helper → Surroundings → Request → Option String → Response × List Job
unfolding authorised
routed h w req none = (plain exit_usage, [])
routed h w req (some socket) =
    if not (str_eq socket h.socket)
    then (plain exit_usage, [])
    else authorised h req (authorise w req)

-- `performWith`
unfoldable pub perform_with : Helper → Surroundings → Request → Response × List Job
unfolding routed
perform_with h w req = routed h w req (endpoint req.intent)

-- `CheckPeer`
unfoldable pub check_peer : ℕ → ℕ → Bool
check_peer uid agent_uid = uid == 0 || uid == agent_uid

abbrev pub max_request_bytes : ℕ
max_request_bytes = 65536

-- `readRequest`: the bytes on the connection, and the decoder with its test for a rest.
unfoldable pub read_request : (Bytes → Option Request) → Bytes → Option Request
read_request decoder raw = if ltb max_request_bytes (length raw) then none else decoder raw

unfoldable pub handled : Helper → Surroundings → Option Request → Option Response × List Job
handled h w none = (none, [])
handled h w (some req) = let (r, js) = perform_with h w req in (some r, js)

-- `ServeConn`: no response where it returns an error.
unfoldable pub serve_conn :
    Helper → Surroundings → (Bytes → Option Request) → ℕ → ℕ → Bytes → Option Response × List Job
unfolding handled
serve_conn h w decoder agent_uid uid raw =
    if not (check_peer uid agent_uid) then (none, []) else handled h w (read_request decoder raw)
