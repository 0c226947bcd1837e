-- ===== src/Agent/Job.antt =====
-- internal/protocol/protocol.go: `Job`, what its signature covers, and the statuses of a result.
use hostseal.Base.{String, Option, Bytes}
use hostseal.Json.{Json, Raw}
use hostseal.Policy.Time.{Time}
use hostseal.Signing.{Check}

pub record Job : Type 0 where
  pub id : String
  pub intent : String
  pub params : Json
  pub class : String
  pub issued_at : Time
  pub not_before : Time
  pub not_after : Time
  pub nonce : String
  pub signature : String
  pub signer_key_id : String
  pub signer_algorithm : String

-- `SignedPayload`, with the two instants that it prints to the second.
pub record Payload : Type 0 where
  pub job_id : String
  pub host_id : String
  pub intent : String
  pub params : Json
  pub not_before : Time
  pub not_after : Time
  pub nonce : String

abbrev pub signed_payload : Job → String → Payload
signed_payload j host = record {
  job_id = j.id;
  host_id = host;
  intent = j.intent;
  params = j.params;
  not_before = j.not_before;
  not_after = j.not_after;
  nonce = j.nonce;
}

-- What the agent calls: the check of a signature, `canonical.Marshal` of a payload,
-- `base64.StdEncoding.DecodeString`, and `json.Marshal` of the parameters as `Decode` reads them.
pub record Codec : Type 0 where
  pub check : Check
  pub marshal : Payload → Option Bytes
  pub decode64 : String → Option Bytes
  pub encode : Json → Option Raw

pub data Status : Type 0 where
  succeeded failed refused_by_policy refused_unsigned refused_clock_skew : Status
  unsupported_intent expired : Status
