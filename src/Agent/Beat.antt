-- ===== src/Agent/Beat.antt =====
-- internal/agent/agent.go: `buildHeartbeat`, and how `cycle` takes the answer. What the host gathers,
-- its view of the policy and of the signers, and the entries that `SignerSet.Digest` sorts are given.
use hostseal.Base.{
  String, Bool, ◌||◌, Option, none, some, Result, ok, err, Bytes, ◌>>=◌, if◌then◌else◌,
}
use hostseal.Json.{Json}
use hostseal.Canonical.Strings.{WriteError}
use hostseal.Canonical.Write.{write}
use hostseal.Server.Heartbeat.{HeartbeatRequest, HeartbeatResponse}

pub record Documents : Type 0 where
  pub facts : Json
  pub policy : Json
  pub signers : Json
  pub signer_entries : Json
  pub paused : Bool

abbrev digest_of_written : (Bytes → String) → Result WriteError Bytes → Result WriteError String
digest_of_written digest (err e) = err e
digest_of_written digest (ok b) = ok (digest b)

-- `canonical.Digest`
abbrev pub digest_of : (Bytes → String) → Json → Result WriteError String
digest_of digest d = digest_of_written digest (write d)

-- A document that is sent only in a full report.
abbrev pub reported : Bool → Json → Option Json
reported full d = if full then some d else none

unfoldable pub build_heartbeat :
    (Bytes → String) → Documents → Bool → Result WriteError HeartbeatRequest
build_heartbeat digest d full = do
  facts ← digest_of digest d.facts
  policy ← digest_of digest d.policy
  signers ← digest_of digest d.signer_entries
  ok record {
    facts_digest = facts;
    policy_digest = policy;
    signers_digest = signers;
    paused = d.paused;
    facts = reported full d.facts;
    policy = reported full d.policy;
    signers = reported full d.signers;
  }

-- Whether the next heartbeat carries a full report.
abbrev pub asked : HeartbeatResponse → Bool
asked r = r.want_full_report || r.want_facts || r.want_policy || r.want_signers
