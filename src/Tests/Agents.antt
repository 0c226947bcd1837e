-- ===== src/Tests/Agents.antt =====
-- internal/agent on a concrete host, with a signed job that restarts a service.
use hostseal.Base.{
  equal, strip_suffix, contains, has_prefix, ◌+◌, ◌-◌, ◌*◌, ◌<◌, ◌≡◌, ◌≢◌, ◌↔◌, refl, true, false,
  some, [], ◌∷◌, ok, codes, arith,
}
use hostseal.Base.Int.{sub_saturating, mul_int64, int64_of_bits, pos, negsuc, abs, int64_half}
use hostseal.Json.{fold_name, is_field, Json, text, object, field, end}
use hostseal.Intent.Names.{
  profile_members, requires_online_signature, requires_offline_signature, in_profile,
  service_restart, linux, privileged,
}
use hostseal.Intent.Params.{stem_fits, any_stem_fits, matches_unit, validate_unit, unit_params}
use hostseal.Policy.Time.{minute, second}
use hostseal.Signing.{verify, PublicKey}
use hostseal.Agent.Job.{Job, Codec}
use hostseal.Agent.Nonces.{remove, prune, is_seen, check, NonceStore}
use hostseal.Agent.Accept.{
  verify_online_signature, verify_offline_signature, verify_bytes, verify_by, unless_refused,
  supported, ruled, rule, replay, names_signer, is_guarded, encoded, effective_issue_time,
  decode_signature, after_vet, admit, abs_duration, refusal, vet, is_signed, Agent, Moment,
  Accepted, accept, is_skewed, max_skew,
}
use hostseal.Agent.Sound.{is_skewed_iff}
use hostseal.Agent.Replay.{IsAuthorised, accept-IsAuthorised}
use hostseal.Agent.Once.{restart, after, accept_once}
use hostseal.Agent.Run.{World}
use hostseal.Agent.Orderly.{Orderly}
use hostseal.Tests.Intents.{doc, nginx, restart_spec}
use hostseal.Tests.Policies.{plain_host, open_rules, sunday_at_one}
use hostseal.Intent.Catalogue.{decoded, decode_with, lookup, decode}
use hostseal.Intent.Decode.{strict_unmarshal, decode_unit}
use hostseal.Policy.Decide.{too_old, dispatch, decide_unit, decide_spec, decide}
use hostseal.Policy.Rules.{restartable_allows, matched, any_match}

abbrev offline_key : PublicKey
offline_key = record { algorithm = "ed25519"; key_id = "k1"; backend = "file"; key = [] }

abbrev pub restart_params : Json
restart_params = object (field (codes "unit") (text nginx) end)

-- The stand-in for the cryptography takes every signature of the one key.
abbrev pub plain_codec : Codec
plain_codec = record {
  check = λ k payload sig. true;
  marshal = λ p. some (codes "payload");
  decode64 = λ s. some (codes "signature");
  encode = λ p. some (doc (field (codes "unit") (text nginx) end));
}

abbrev pub agent : Agent
agent = record {
  host = plain_host;
  codec = plain_codec;
  profile = linux;
  host_id = "h1";
  policy = open_rules;
  signers = offline_key ∷ [];
  online = [];
  clock_offset = pos 0;
}

abbrev pub restart_job : Job
restart_job = record {
  id = "j1";
  intent = service_restart;
  params = restart_params;
  class = "destructive";
  issued_at = sunday_at_one;
  not_before = sunday_at_one;
  not_after = sunday_at_one + 10 * minute;
  nonce = "n1";
  signature = "sig";
  signer_key_id = "k1";
  signer_algorithm = "ed25519";
}

abbrev pub at_one : Moment
at_one = record { now = sunday_at_one; check_time = sunday_at_one; written = true; paused = false }

abbrev a_minute_later : Moment
a_minute_later = record {
  now = sunday_at_one + minute;
  check_time = sunday_at_one + minute;
  written = true;
  paused = false;
}

abbrev pub empty_store : NonceStore
empty_store = record { seen = []; file = [] }

abbrev pub nginx_restart : Accepted
nginx_restart = record {
  spec = restart_spec;
  params = unit_params service_restart nginx;
  raw = doc (field (codes "unit") (text nginx) end);
}

pub restart_accepted : (accept agent restart_job at_one empty_store).1 ≡ ok nginx_restart
unfolding accept is_skewed is_signed vet refusal abs_duration admit after_vet decode_signature
    effective_issue_time encoded is_guarded names_signer replay rule ruled supported unless_refused
    verify_by verify_bytes verify_offline_signature verify_online_signature decode lookup
    decode_with decoded decode_unit strict_unmarshal is_field fold_name validate_unit matches_unit
    any_stem_fits stem_fits has_prefix contains strip_suffix equal in_profile privileged
    requires_offline_signature requires_online_signature profile_members check is_seen prune remove
    int64_of_bits mul_int64 sub_saturating decide decide_spec decide_unit dispatch too_old any_match
    matched restartable_allows verify
restart_accepted = refl

accept-IsAuthorised_example : IsAuthorised agent restart_job at_one nginx_restart
accept-IsAuthorised_example =
    accept-IsAuthorised agent restart_job at_one empty_store restart_accepted

-- The agent is restarted before the job is delivered once more.
accept_once_example : ¬ (
    (b : Accepted) × ((accept agent restart_job a_minute_later
        (after (accept agent restart_job at_one empty_store).0 (restart sunday_at_one ∷ []))).1
      ≡ ok b)
    × (privileged b.spec.class ≡ true))
accept_once_example =
    accept_once agent agent restart_job at_one a_minute_later empty_store
      (restart sunday_at_one ∷ []) restart_accepted (unfold privileged in refl) (omega arith, tt)

abbrev quiet_world : World
quiet_world = record {
  spool_ok = some true;
  helper = some (λ r. some (record { exit_code = pos 0; output = []; output_truncated = false }));
  report_ok = λ a. true;
  finish = sunday_at_one + second;
}

is_skewed_iff_example :
    (is_skewed (negsuc 300000000000) ≡ true)
    ↔ ((negsuc 300000000000 ≢ negsuc (int64_half - 1)) × (max_skew < abs (negsuc 300000000000)))
is_skewed_iff_example = is_skewed_iff (negsuc 300000000000) (omega arith)
