-- ===== src/Agent/Accept.antt =====
-- internal/agent/execute.go: `accept` and what it calls. The reason of a refusal is not kept.
use hostseal.Base.{
  ℕ, suc, ◌-◌, ◌*◌, String, Bool, true, false, not, ◌&&◌, ◌||◌, Option, none, some, Result, ok, err,
  ◌>>=◌, ltb, str_eq, if◌then◌else◌, Bytes,
}
use hostseal.Base.Int.{ℤ, pos, negsuc, ltb_ℤ, int64_half}
use hostseal.Json.{Raw}
use hostseal.Intent.Names.{
  Profile, Class, in_profile, privileged, requires_offline_signature, requires_online_signature,
}
use hostseal.Intent.Params.{Params}
use hostseal.Intent.Catalogue.{Spec, decode, DecodeError}
use hostseal.Policy.Time.{Time, is_zero, second}
use hostseal.Policy.Rules.{Policy, Host}
use hostseal.Policy.Decide.{decide, Decision, Code, expired}
use hostseal.Signing.{SignerSet, PublicKey, is_empty, verify}
use hostseal.Agent.Job.{
  Job, signed_payload, Codec, Status, failed, refused_by_policy, refused_unsigned,
  refused_clock_skew, unsupported_intent,
}
use hostseal.Agent.Nonces.{NonceStore, check, NonceError}

-- What the agent holds: its build's profile, its identity, the policy and the key sets it loaded,
-- and its measured offset from the control plane, a `time.Duration`.
pub record Agent : Type 0 where
  pub host : Host
  pub codec : Codec
  pub profile : Profile
  pub host_id : String
  pub policy : Policy
  pub signers : SignerSet
  pub online : SignerSet
  pub clock_offset : ℤ

-- What one call of `accept` reads from its surroundings: its time, the later time that `Check`
-- reads, whether the replay store could be written, and whether the host is paused.
pub record Moment : Type 0 where
  pub now : Time
  pub check_time : Time
  pub written : Bool
  pub paused : Bool

pub record Accepted : Type 0 where
  pub spec : Spec
  pub params : Params
  pub raw : Raw

-- `absDuration`: the least `int64` has no negation, and stays as it is.
unfoldable pub abs_duration : ℤ → ℤ
abs_duration (pos n) = pos n
abs_duration (negsuc n) = if ltb n (int64_half - 1) then pos (suc n) else negsuc n

-- `protocol.MaxClockSkewSeconds * time.Second`
abbrev pub max_skew : ℕ
max_skew = 300 * second

unfoldable pub is_skewed : ℤ → Bool
unfolding abs_duration
is_skewed offset = ltb_ℤ (pos max_skew) (abs_duration offset)

-- `decodeSignature`
unfoldable pub decode_signature : Codec → String → Option Bytes
decode_signature c s = if str_eq s "" then none else c.decode64 s

unfoldable pub names_signer : Job → Option PublicKey → Bool
names_signer j none = false
names_signer j (some k) = str_eq j.signer_key_id "" || str_eq j.signer_key_id k.key_id

unfoldable pub verify_bytes : Codec → SignerSet → Job → Option Bytes → Option Bytes → Bool
unfolding names_signer
verify_bytes c keys j (some payload) (some sig) = names_signer j (verify c.check keys payload sig)
verify_bytes c keys j none (some sig) = false
verify_bytes c keys j (some payload) none = false
verify_bytes c keys j none none = false

-- The body that `verifyOfflineSignature` and `verifyOnlineSignature` share.
unfoldable pub verify_by : Codec → SignerSet → Job → String → Bool
unfolding verify_bytes
verify_by c keys j host =
    not (is_empty keys)
    && verify_bytes c keys j (c.marshal (signed_payload j host)) (decode_signature c j.signature)

unfoldable pub verify_offline_signature : Agent → Job → Bool
verify_offline_signature g j = verify_by g.codec g.signers j g.host_id

unfoldable pub verify_online_signature : Agent → Job → Bool
verify_online_signature g j = verify_by g.codec g.online j g.host_id

-- Step 4: the signature that the class of the operation asks for.
unfoldable pub is_signed : Agent → Job → Class → Bool
is_signed g j c =
    if requires_offline_signature c
    then verify_offline_signature g j
    else if requires_online_signature c
    then verify_online_signature g j
    else true

-- A privileged job that carries a signature, for which steps 4a and 5 are taken.
unfoldable pub is_guarded : Job → Class → Bool
is_guarded j c = not (str_eq j.signature "") && privileged c

unfoldable pub effective_issue_time : Job → Time
effective_issue_time j =
    if not (str_eq j.signature "") && not (is_zero j.not_before) then j.not_before else j.issued_at

unfoldable pub encoded : Option Raw → Result Status Raw
encoded none = err failed
encoded (some raw) = ok raw

unfoldable pub supported : Result DecodeError (Spec × Params) → Result Status (Spec × Params)
supported (ok r) = ok r
supported (err _) = err unsupported_intent

-- Steps 1 to 4a for the operation that was decoded: the first refusal, if there is one.
unfoldable pub refusal : Agent → Job → Time → Spec → Option Status
refusal g j now s =
    if not (in_profile g.profile s.name)
    then some unsupported_intent
    else if not s.implemented
    then some unsupported_intent
    else if privileged s.class && is_skewed g.clock_offset
    then some refused_clock_skew
    else if not (is_zero j.not_before) && ltb now j.not_before
    then some Status.expired
    else if not (is_zero j.not_after) && ltb j.not_after now
    then some Status.expired
    else if not (is_signed g j s.class)
    then some refused_unsigned
    else if is_guarded j s.class && is_zero j.not_before
    then some refused_unsigned
    else if is_guarded j s.class && is_zero j.not_after
    then some refused_unsigned
    else none

unfoldable pub unless_refused : Option Status → Accepted → Result Status Accepted
unless_refused none a = ok a
unless_refused (some st) a = err st

-- Everything that `accept` tests before it consults the replay store.
unfoldable pub vet : Agent → Job → Time → Result Status Accepted
unfolding encoded supported unless_refused
vet g j now = do
  raw ← encoded (g.codec.encode j.params)
  found ← supported (decode j.intent raw)
  unless_refused (refusal g j now found.0) (record { spec = found.0; params = found.1; raw = raw })

-- Step 6, and the end.
is_expired : Code → Bool
is_expired expired = true
is_expired _ = false

unfoldable pub ruled : Accepted → Decision → Result Status Accepted
unfolding is_expired
ruled a d =
    if d.allowed
    then ok a
    else if is_expired d.code
    then err Status.expired
    else err refused_by_policy

unfoldable pub rule : Agent → Job → Moment → Accepted → Result Status Accepted
unfolding ruled
rule g j m a = ruled a (
    decide g.host g.policy
      (record { intent = a.spec.name; params = a.params; issued_at = effective_issue_time j })
      (record { now = m.now; paused = m.paused }))

-- Step 5.
unfoldable pub admit :
    Agent → Job → Moment → Accepted → Result NonceError Bool → Result Status Accepted
admit g j m a (err _) = err failed
admit g j m a (ok true) = err refused_unsigned
admit g j m a (ok false) = rule g j m a

unfoldable pub replay :
    Agent → Job → Moment → NonceStore → Accepted → NonceStore × Result Status Accepted
unfolding admit
replay g j m s a =
    let r = check j.nonce j.not_after m.check_time m.written s in
    if is_guarded j a.spec.class then (r.0, admit g j m a r.1) else (s, rule g j m a)

unfoldable pub after_vet :
    Agent → Job → Moment → NonceStore → Result Status Accepted → NonceStore × Result Status Accepted
unfolding replay
after_vet g j m s (err e) = (s, err e)
after_vet g j m s (ok a) = replay g j m s a

unfoldable pub accept : Agent → Job → Moment → NonceStore → NonceStore × Result Status Accepted
unfolding after_vet
accept g j m s = after_vet g j m s (vet g j m.now)
