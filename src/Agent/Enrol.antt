-- ===== src/Agent/Enrol.antt =====
-- internal/agent/enroll.go and bootstrap.go: `Enroll`, `verifyBootstrap` and `applyBootstrap`. What the
-- host reads and writes is an argument; a crash is a write that fails. The files that an operator
-- hands over, the online key and the texts for people are not kept; names and bodies are bytes.
use hostseal.Base.{
  String, Bool, true, false, not, ◌&&◌, ◌||◌, Option, none, some, List, [], ◌∷◌, Result, ok, err,
  Bytes, codes, equal, str_eq, if◌then◌else◌,
}
use hostseal.Json.{Json, text, object, field, end}
use hostseal.Signing.{PublicKey, SignerSet, Check, is_empty, verify}
use hostseal.Canonical.Strings.{WriteError}
use hostseal.Canonical.Write.{write}
use hostseal.Server.Jobs.{valid_job_id}

-- The check of a signature, and base64.
pub record Crypto : Type 0 where
  pub check : Check
  pub decode64 : String → Option Bytes

pub record Bootstrap : Type 0 where
  pub name : Bytes
  pub body : Bytes
  pub signature : String
  pub signer_key_id : String

pub record EnrollResponse : Type 0 where
  pub host_id : String
  pub certificate : String
  pub ca_bundle : String
  pub bootstrap : Option Bootstrap

-- `bootstrapRecord`
pub record BootstrapRecord : Type 0 where
  pub name : Bytes
  pub body : Bytes
  pub signer_key_id : String

-- The file that is the record and the interlock.
pub data RecordFile : Type 0 where
  missing : RecordFile
  recorded : BootstrapRecord → RecordFile
  unreadable : RecordFile

pub record Disk : Type 0 where
  pub bootstrap_record : RecordFile
  pub credential : Option String
  pub host_id : Option String

pub data EnrolError : Type 0 where
  anchor_unreadable no_trust_anchor already_applied refused incomplete bad_host_id : EnrolError
  no_template other_template not_signed failed : EnrolError

-- The answers of the world: the trust anchor, the response of the control plane, and what succeeds.
pub record World : Type 0 where
  pub anchor : Option SignerSet
  pub response : Option EnrollResponse
  pub credential_written : Bool
  pub ca_written : Bool
  pub state_written : Bool
  pub adopted : Bool
  pub record_written : Bool
  pub seed_written : Bool
  pub applied : Bool
  pub adopted_again : Bool

-- `checkBootstrapInterlock`, negated: anything but a missing file refuses.
abbrev pub is_missing : RecordFile → Bool
is_missing missing = true
is_missing _ = false

-- `SignedPayload`
abbrev pub template_document : Bytes → Bytes → Json
template_document name body =
    object (field (codes "name") (text name) (field (codes "body") (text body) end))

abbrev pub decoded_signature : Crypto → String → Option Bytes
decoded_signature c s = if str_eq s "" then none else c.decode64 s

unfoldable pub checked_by : Option PublicKey → Result EnrolError PublicKey
checked_by none = err not_signed
checked_by (some key) = ok key

unfoldable pub check_template :
    Crypto → SignerSet → Option Bytes → Result WriteError Bytes → Result EnrolError PublicKey
unfolding checked_by
check_template c ks none payload = err not_signed
check_template c ks (some sig) (err e) = err not_signed
check_template c ks (some sig) (ok payload) = checked_by (verify c.check ks payload sig)

unfoldable pub verify_bootstrap :
    Crypto → Disk → SignerSet → Bootstrap → Result EnrolError PublicKey
unfolding check_template
verify_bootstrap c d ks b =
    if not (is_missing d.bootstrap_record)
    then err already_applied
    else if is_empty ks
    then err no_trust_anchor
    else check_template c ks (decoded_signature c b.signature)
        (write (template_document b.name b.body))

-- What an enrolment leaves: the disk, the outcome, and the templates that cloud-init was run on.
abbrev pub Left : Type 0
Left = Disk × Result EnrolError String × List Bootstrap

-- `applyBootstrap`. The record is written first, where there is none.
unfoldable pub apply_bootstrap : World → Disk → String → Bootstrap → PublicKey → Left
apply_bootstrap w d host b key =
    let d' = record d {
      bootstrap_record =
          recorded (record { name = b.name; body = b.body; signer_key_id = key.key_id });
    } in
    if not w.record_written || not (is_missing d.bootstrap_record)
    then (d, err failed, [])
    else if not (valid_job_id host) || not w.seed_written
    then (d', err failed, [])
    else (d', (if w.applied && w.adopted_again then ok host else err failed), b ∷ [])

-- The end of an enrolment, with the template if there is one.
unfoldable pub conclude : World → Disk → String → Option (Bootstrap × PublicKey) → Left
unfolding apply_bootstrap
conclude w d host none = (d, (if w.adopted_again then ok host else err failed), [])
conclude w d host (some (b, key)) = apply_bootstrap w d host b key

-- The credential, the state and their owner, before any template.
unfoldable pub settle :
    World → Disk → EnrollResponse → Result EnrolError (Option (Bootstrap × PublicKey)) → Left
unfolding conclude
settle w d res (err e) = (d, err e, [])
settle w d res (ok t) =
    let d1 = record d { credential = some res.certificate } in
    let d2 = record d1 { host_id = some res.host_id } in
    if not w.credential_written
    then (d, err failed, [])
    else if not (str_eq res.ca_bundle "") && not w.ca_written
    then (d1, err failed, [])
    else if not w.state_written
    then (d1, err failed, [])
    else if not w.adopted
    then (d2, err failed, [])
    else conclude w d2 res.host_id t

abbrev pub with_template :
    Bootstrap → Result EnrolError PublicKey → Result EnrolError (Option (Bootstrap × PublicKey))
with_template b (err e) = err e
with_template b (ok key) = ok (some (b, key))

-- The template of the response, where one was asked for.
unfoldable pub verified :
    Crypto
    → Bytes
    → Disk
    → SignerSet
    → Option Bootstrap
    → Result EnrolError (Option (Bootstrap × PublicKey))
unfolding verify_bootstrap
verified c want d ks none = if equal want [] then ok none else err no_template
verified c want d ks (some b) =
    if equal want []
    then ok none
    else if not (equal b.name want)
    then err other_template
    else with_template b (verify_bootstrap c d ks b)

unfoldable pub answered : Crypto → Bytes → World → Disk → SignerSet → Option EnrollResponse → Left
unfolding settle verified
answered c want w d ks none = (d, err refused, [])
answered c want w d ks (some res) =
    if str_eq res.host_id "" || str_eq res.certificate ""
    then (d, err incomplete, [])
    else if not (valid_job_id res.host_id)
    then (d, err bad_host_id, [])
    else settle w d res (verified c want d ks res.bootstrap)

-- The trust anchor, and the interlock before the token is spent.
unfoldable pub anchored : Crypto → Bytes → World → Disk → Option SignerSet → Left
unfolding answered
anchored c want w d none = (d, err anchor_unreadable, [])
anchored c want w d (some ks) =
    if is_empty ks
    then (d, err no_trust_anchor, [])
    else if not (is_missing d.bootstrap_record)
    then (d, err already_applied, [])
    else answered c want w d ks w.response

-- `Enroll`, with the template that `--bootstrap` names, or none.
unfoldable pub enroll : Crypto → Bytes → World → Disk → Left
unfolding anchored answered
enroll c want w d =
    if equal want [] then answered c want w d [] w.response else anchored c want w d w.anchor
