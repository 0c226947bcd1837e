-- ===== src/Server/Jobs/Build.antt =====
-- internal/server/jobsapi.go: `validateJobRequest`, `buildJob` and `signRoutine`, and `ValidJobID` of
-- internal/protocol/protocol.go.
use hostseal.Base.{
  ℕ, ◌+◌, ◌-◌, ◌*◌, String, Bool, true, false, not, ◌&&◌, ◌||◌, Option, none, some, Result, ok, err,
  ◌>>=◌, ◌>>◌, require, str_eq, leb, ltb, if◌then◌else◌, Bytes, codes, length, all, is_alnum,
}
use hostseal.Json.{Json, Raw}
use hostseal.Intent.Names.{Class, read, routine, destructive}
use hostseal.Intent.Params.{Params}
use hostseal.Intent.Catalogue.{Spec, decode, DecodeError}
use hostseal.Policy.Time.{Time, is_zero, second}
use hostseal.Agent.Job.{Job, Codec, signed_payload}
use hostseal.Agent.Accept.{max_skew}
use hostseal.Store.State.{TenantRow, NewJob}
use hostseal.Store.Tenants.{requires_approval, requires_distinct_operator}
use hostseal.Canonical.Signed.{or_empty}

pub record JobRequest : Type 0 where
  pub id : String
  pub host_id : String
  pub intent : String
  pub params : Json
  pub not_before : Time
  pub not_after : Time
  pub nonce : String
  pub signature : String
  pub signer_key_id : String
  pub signer_algorithm : String

-- The control plane's own key.
pub record OnlineKey : Type 0 where
  pub key_id : String
  pub algorithm : String
  pub sign : Bytes → Option Bytes

-- What the server holds, and the encodings that it calls; `Codec` is what it shares with an agent.
pub record Config : Type 0 where
  pub online_key : Option OnlineKey
  pub codec : Codec
  pub encode64 : Bytes → String

-- The codes of the refusals.
pub data Refusal : Type 0 where
  malformed unsupported_intent no_online_key unsigned unknown_host revoked : Refusal
  duplicate internal unknown_job no_approval_required already_approved : Refusal
  self_approval not_approvable : Refusal

-- `ValidJobID`
unfoldable pub valid_job_id : String → Bool
valid_job_id id = not (str_eq id "") && leb (length (codes id)) 64 && all is_alnum (codes id)

-- The request carries something that only a signer may choose.
abbrev pub carries_signature : JobRequest → Bool
carries_signature r =
    not (str_eq r.signature "")
    || not (str_eq r.signer_key_id "")
    || not (str_eq r.nonce "")
    || not (str_eq r.id "")

abbrev pub has_key : Config → Bool
has_key c = present c.online_key
  where
    present : Option OnlineKey → Bool
    present none = false
    present (some k) = true

-- The `switch` on the class.
unfoldable pub check_class : Config → JobRequest → Class → Result Refusal (Unit {0})
check_class c r routine =
    if not (has_key c)
    then err no_online_key
    else if carries_signature r
    then err malformed
    else ok tt
check_class c r destructive =
    if str_eq r.signature "" || str_eq r.signer_key_id "" || str_eq r.signer_algorithm ""
    then err unsigned
    else if str_eq r.id "" || str_eq r.nonce "" || is_zero r.not_before || is_zero r.not_after
    then err malformed
    else if not (valid_job_id r.id)
    then err malformed
    else if not (ltb r.not_before r.not_after)
    then err malformed
    else ok tt
check_class c r read = if carries_signature r then err malformed else ok tt

unfoldable pub re_encoded : Option Raw → Result Refusal Raw
re_encoded none = err malformed
re_encoded (some raw) = ok raw

unfoldable pub known : Result DecodeError (Spec × Params) → Result Refusal (Spec × Params)
known (err e) = err unsupported_intent
known (ok r) = ok r

-- `validateJobRequest`
unfoldable pub validate_job_request : Config → JobRequest → Result Refusal (Spec × Params)
unfolding check_class re_encoded known
validate_job_request c r = do
  require (not (str_eq r.host_id "")) malformed
  raw ← re_encoded (c.codec.encode r.params)
  found ← known (decode r.intent raw)
  check_class c r found.0.class
  require found.0.implemented unsupported_intent
  ok found

-- `RoutineJobValidity` and `ReadJobValidity`
abbrev pub routine_job_validity : ℕ
routine_job_validity = 21600 * second

abbrev pub read_job_validity : ℕ
read_job_validity = 86400 * second

unfoldable pub with_signature : Config → OnlineKey → Job → Option Bytes → Option Job
with_signature c k j none = none
with_signature c k j (some sig) = some (record j {
  signature = c.encode64 sig;
  signer_key_id = k.key_id;
  signer_algorithm = k.algorithm;
})

unfoldable pub sign_payload : Config → OnlineKey → Job → Option Bytes → Option Job
unfolding with_signature
sign_payload c k j none = none
sign_payload c k j (some payload) = with_signature c k j (k.sign payload)

abbrev pub routine_window : Job → Job
routine_window j = record j {
  not_before = j.issued_at - max_skew;
  not_after = j.issued_at + routine_job_validity;
}

-- `signRoutine`, which a server without a key does not reach.
unfoldable pub sign_routine : Config → Job → String → Option OnlineKey → Option Job
unfolding sign_payload
sign_routine c j host none = none
sign_routine c j host (some k) =
    sign_payload c k (routine_window j) (c.codec.marshal (signed_payload (routine_window j) host))

-- The job of a request, as the signer wrote it.
abbrev pub copied : JobRequest → Spec → String → Time → Job
copied r s class now = record {
  id = r.id;
  intent = s.name;
  params = or_empty r.params;
  class = class;
  issued_at = now;
  not_before = r.not_before;
  not_after = r.not_after;
  nonce = r.nonce;
  signature = r.signature;
  signer_key_id = r.signer_key_id;
  signer_algorithm = r.signer_algorithm;
}

abbrev pub class_name : Class → String
class_name read = "read"
class_name routine = "routine"
class_name destructive = "destructive"

-- A job without a signature, with a new id and nonce.
abbrev pub numbered : String → String → Job → Job
numbered id nonce j = record j {
  id = id;
  nonce = nonce;
  not_before = 0;
  not_after = j.issued_at + read_job_validity;
}

abbrev is_routine : Class → Bool
is_routine routine = true
is_routine _ = false

abbrev pub is_destructive : Class → Bool
is_destructive destructive = true
is_destructive _ = false

-- The two identifiers that `NewID` gives, in order.
abbrev pub NewIds : Type 0
NewIds = Option String × Option String

unfoldable pub unsigned_job : Config → Spec → String → Job → NewIds → Option Job
unfolding sign_routine
unsigned_job c s host j (some id, some nonce) =
    if is_routine s.class
    then sign_routine c (numbered id nonce j) host c.online_key
    else some (numbered id nonce j)
unsigned_job c s host j (none, _) = none
unsigned_job c s host j (some id, none) = none

-- `buildJob`
unfoldable pub build_job : Config → JobRequest → Spec → String → Time → NewIds → Option Job
unfolding unsigned_job
build_job c r s host now ids =
    let j = copied r s (class_name s.class) now in
    if not (str_eq j.signature "") then some j else unsigned_job c s host j ids

abbrev pub new_job : JobRequest → Spec → String → TenantRow → Job → NewJob
new_job r s by tenant j = record {
  job = j;
  host_id = r.host_id;
  created_by = by;
  approval_required = is_destructive s.class && requires_approval tenant.approval_mode;
  approval_distinct_operator =
      is_destructive s.class && requires_distinct_operator tenant.approval_mode;
}
