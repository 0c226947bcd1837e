-- ===== src/Tests/Helpers.antt =====
-- internal/helper on the concrete host and the accepted job of the agent's tests.
use hostseal.Base.{
  ap, ◌≡◌, ◌↔◌, refl, inl, true, false, none, some, List, [], ◌∷◌, codes, equal, trim_space, fields,
  split, cut,
}
use hostseal.Intent.Names.{privileged, service_restart}
use hostseal.Intent.Params.{unit_params}
use hostseal.Intent.Catalogue.{lookup, reboot_spec}
use hostseal.Policy.Rules.{validate, valid, unreadable}
use hostseal.Policy.Parse.{parse_window, parse_days}
use hostseal.Policy.Clock.{parse_time_range, parse_clock, atoi}
use hostseal.Policy.Decide.{decide}
use hostseal.Policy.Load.{Decoder, contents, unread, parse, load_from, load_from_refuses}
use hostseal.Agent.Job.{refused_by_policy}
use hostseal.Agent.Run.{Request, status_for_exit, request_of}
use hostseal.Helper.Endpoints.{endpoint, restart_unit_socket}
use hostseal.Helper.Perform.{
  Surroundings, Helper, Executor, Job, job_of, answer, perform_with, check_peer, read_request,
  handled, serve_conn,
}
use hostseal.Helper.Outcome.{Authorised, Declined}
use hostseal.Helper.Sovereignty.{perform_with-Declined_iff}
use hostseal.Helper.Agreement.{host_of, Admitted, accept-perform_with, serve_conn-Authorised}
use hostseal.Tests.Intents.{nginx}
use hostseal.Tests.Policies.{plain_host, open_rules, reboot_now, that_night}
use hostseal.Tests.Agents.{agent, restart_job, at_one, empty_store, nginx_restart, restart_accepted}

load_from_refuses_example :
    (decide plain_host
      (load_from plain_host (λ raw p. none) unread).0
      reboot_now
      that_night).allowed
    ≡ false
load_from_refuses_example =
    load_from_refuses plain_host (λ raw p. none) unread reboot_now that_night {e = unreadable}
      {s = reboot_spec} (unfold load_from in refl) (unfold lookup in refl)
      (unfold privileged in refl)

-- The stand-in for the parser finds the same rules in every file.
abbrev toml : Decoder
toml raw p = some (open_rules, [])

loads_open : load_from plain_host toml (contents []) ≡ (open_rules, none)
unfolding load_from validate parse valid equal trim_space parse_window fields parse_days split cut
    parse_time_range parse_clock atoi
loads_open = refl

abbrev quiet : Executor
quiet j = (codes "done", true)

abbrev restarter : Helper
restarter = record { socket = restart_unit_socket; execute = some quiet }

abbrev request : Request
request = request_of restart_job nginx_restart

accept-perform_with_example :
    perform_with restarter (host_of agent at_one toml (contents [])) request ≡ (
      answer (quiet (job_of request (unit_params service_restart nginx))),
      job_of request (unit_params service_restart nginx) ∷ [],
    )
accept-perform_with_example =
    accept-perform_with agent restart_job at_one empty_store nginx_restart restart_accepted
      restarter (unfold endpoint in refl) toml (contents []) (inl loads_open) quiet refl

abbrev disk : Surroundings
disk = host_of agent at_one toml (contents [])

abbrev nginx_job : Job
nginx_job = job_of request (unit_params service_restart nginx)

restart_served : (serve_conn restarter disk (λ raw. some request) 999 999 []).1 ≡ nginx_job ∷ []
unfolding serve_conn handled check_peer read_request
restart_served =
    ap (λ r. r.1)
      (accept-perform_with agent restart_job at_one empty_store nginx_restart restart_accepted
        restarter (unfold endpoint in refl) toml (contents []) (inl loads_open) quiet refl)

serve_conn-Authorised_example :
    (req : Request) × Admitted 999 999 (λ raw. some request) [] req
    × Authorised disk req restarter nginx_job
    × (◌≡◌ {A = List Job} [] [])
serve_conn-Authorised_example =
    serve_conn-Authorised restarter disk (λ raw. some request) 999 999 [] nginx_job []
      restart_served

perform_with-Declined_iff_example :
    (status_for_exit (perform_with restarter disk request).0.exit_code ≡ refused_by_policy)
    ↔ Declined disk request restarter
perform_with-Declined_iff_example = perform_with-Declined_iff disk request restarter
