-- ===== src/Tests/Servers.antt =====
-- internal/server and the tenants of internal/store, on the host of the other tests.
use hostseal.Base.{
  ℕ, ◌+◌, ◌-◌, ◌*◌, ◌≡◌, ◌↔◌, refl, true, some, none, List, [], ◌∷◌, ok, err, arith, codes,
  has_prefix, contains, strip_suffix, equal,
}
use hostseal.Base.Assoc.{get, put, delete}
use hostseal.Json.{object, end, is_field, fold_name}
use hostseal.Canonical.Signed.{or_empty}
use hostseal.Intent.Params.{validate_unit, matches_unit, any_stem_fits, stem_fits}
use hostseal.Intent.Names.{packages_apply_security, service_restart, routine}
use hostseal.Intent.Catalogue.{Spec, spec, decode, decode_with, decoded, lookup}
use hostseal.Intent.Decode.{decode_apply_security, decode_unit, strict_unmarshal}
use hostseal.Policy.Time.{minute, second}
use hostseal.Signing.{PublicKey}
use hostseal.Agent.Job.{Job}
use hostseal.Agent.Accept.{Agent}
use hostseal.Store.State.{Tenant, EnrollmentToken, NewJob, Memory, token_unusable, scoped}
use hostseal.Store.Jobs.{find_host, new_record, approve_job, create_job, nonce_taken, offered}
use hostseal.Store.Hosts.{create_enrolled_host, has_room, machine_taken, stamp_certificate}
use hostseal.Store.Tenants.{
  consumed, consume_enrollment_token, create_enrollment_token, get_tenant, requires_approval,
  requires_distinct_operator,
}
use hostseal.Store.Machine.{Op, settle, dissolve, enrol, step, steps, fresh, issue}
use hostseal.Store.Apart.{Undisturbed}
use hostseal.Store.Tenancy.{steps-Undisturbed}
use hostseal.Store.Tokens.{consume_enrollment_token-once}
use hostseal.Server.Jobs.{
  JobRequest, OnlineKey, Config, prepare, stored, validate_job_request, check_class, valid_job_id,
  build_job, handle_create_job, handle_approve_job,
}
use hostseal.Server.Created.{Lawful}
use hostseal.Server.Handlers.{handle_create_job-Lawful, handle_approve_job-agrees}
use hostseal.Tests.Policies.{sunday_at_one}
use hostseal.Tests.Agents.{agent, plain_codec, restart_params}
use hostseal.Tests.Stores.{default_row, tenants, at_work, enrolled, web_one, web_one_cert}

abbrev token : EnrollmentToken
token = record {
  hash = "t1";
  expires_at = sunday_at_one + minute;
  consumed_at = 0;
  consumed_by_host = "";
}

abbrev issued : Memory
issued = step ("default", issue token) (fresh tenants)

token_redeemed :
    (consume_enrollment_token "default" "t1" "h1" sunday_at_one issued).1
    ≡ ok (consumed sunday_at_one "h1" token)
unfolding consume_enrollment_token step create_enrollment_token get put
token_redeemed = refl

-- In between the tenant issues the token again, which is refused, and another tenant is founded.
abbrev meanwhile : List (Tenant × Op)
meanwhile = ("default", issue token) ∷ ("other", settle default_row sunday_at_one) ∷ []

consume_enrollment_token-once_example :
    (consume_enrollment_token "default" "t1" "h2"
      (sunday_at_one + second)
      (steps (consume_enrollment_token "default" "t1" "h1" sunday_at_one issued).0 meanwhile)).1
    ≡ err token_unusable
consume_enrollment_token-once_example =
    consume_enrollment_token-once "default" "t1" "h1" sunday_at_one issued
      (consumed sunday_at_one "h1" token) token_redeemed (omega arith) meanwhile (tt, (tt, tt))
      "default" "h2" (sunday_at_one + second)

-- Another tenant takes a host of the same name, and is removed.
abbrev elsewhere : List (Tenant × Op)
elsewhere = ("other", enrol web_one web_one_cert) ∷ ("other", dissolve) ∷ []

steps-Undisturbed_example : Undisturbed "default" at_work (steps at_work elsewhere)
steps-Undisturbed_example = steps-Undisturbed "default" elsewhere at_work (λ e. cc, (λ e. cc, tt))

handle_approve_job-agrees_example :
    ((handle_approve_job "default" "j1" "ada" sunday_at_one at_work).0
      ≡ (approve_job "default" "j1" "ada" sunday_at_one at_work).0)
    × ((w : List ℕ)
        → ((handle_approve_job "default" "j1" "ada" sunday_at_one at_work).1 ≡ ok w)
          ↔ ((approve_job "default" "j1" "ada" sunday_at_one at_work).1 ≡ ok w))
handle_approve_job-agrees_example =
    handle_approve_job-agrees "default" "j1" "ada" sunday_at_one at_work

abbrev online : OnlineKey
online = record { key_id = "o1"; algorithm = "ed25519"; sign = λ m. some (codes "signature") }

abbrev config : Config
config = record { online_key = some online; codec = plain_codec; encode64 = λ b. "c2ln" }

-- A signed request, as an operator's tool sends it.
abbrev restart_request : JobRequest
restart_request = record {
  id = "j7";
  host_id = "h1";
  intent = service_restart;
  params = restart_params;
  not_before = sunday_at_one;
  not_after = sunday_at_one + minute;
  nonce = "n7";
  signature = "sig";
  signer_key_id = "k1";
  signer_algorithm = "ed25519";
}

abbrev order : NewJob
order = record {
  job = record {
    id = "j7";
    intent = service_restart;
    params = restart_params;
    class = "destructive";
    issued_at = sunday_at_one;
    not_before = sunday_at_one;
    not_after = sunday_at_one + minute;
    nonce = "n7";
    signature = "sig";
    signer_key_id = "k1";
    signer_algorithm = "ed25519";
  };
  host_id = "h1";
  created_by = "ada";
  approval_required = true;
  approval_distinct_operator = true;
}

order_created :
    (handle_create_job config "default" "ada" restart_request sunday_at_one (none, none) enrolled).1
    ≡ ok order
unfolding handle_create_job prepare stored validate_job_request check_class valid_job_id decode
    lookup decode_with decoded decode_unit strict_unmarshal is_field fold_name validate_unit
    has_prefix contains matches_unit strip_suffix any_stem_fits stem_fits equal find_host get put
    delete create_enrolled_host has_room machine_taken stamp_certificate build_job or_empty
    get_tenant create_job nonce_taken offered requires_approval requires_distinct_operator
order_created = refl

handle_create_job-Lawful_example :
    Lawful config "default" "ada" restart_request sunday_at_one enrolled order
    × (get scoped
          ("default", "j7")
          (handle_create_job config "default" "ada" restart_request sunday_at_one
            (none, none)
            enrolled).0.records
        ≡ some (new_record order))
handle_create_job-Lawful_example =
    handle_create_job-Lawful config "default" "ada" restart_request sunday_at_one (none, none)
      enrolled order order_created

abbrev online_public : PublicKey
online_public = record { algorithm = "ed25519"; key_id = "o1"; backend = ""; key = [] }

abbrev patched_agent : Agent
patched_agent = record agent { online = online_public ∷ [] }

abbrev security_spec : Spec
security_spec = spec packages_apply_security routine decode_apply_security

abbrev security_request : JobRequest
security_request = record restart_request {
  id = "";
  intent = packages_apply_security;
  params = object end;
  not_before = 0;
  not_after = 0;
  nonce = "";
  signature = "";
  signer_key_id = "";
  signer_algorithm = "";
}

abbrev security_job : Job
security_job = record {
  id = "J8";
  intent = packages_apply_security;
  params = object end;
  class = "routine";
  issued_at = sunday_at_one;
  not_before = sunday_at_one - 300 * second;
  not_after = sunday_at_one + 21600 * second;
  nonce = "N8";
  signature = "c2ln";
  signer_key_id = "o1";
  signer_algorithm = "ed25519";
}
