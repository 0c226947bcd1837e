-- ===== src/Tests/Deliveries.antt =====
-- One result on its way to the server.
use hostseal.Base.{
  ◌≡◌, ◌≢◌, ◌⊎◌, ◌+◌, ◌*◌, refl, String, true, false, some, List, [], ◌∷◌, codes, arith,
}
use hostseal.Base.Int.{pos}
use hostseal.Base.Assoc.{get}
use hostseal.Policy.Time.{minute}
use hostseal.Agent.Job.{failed}
use hostseal.Agent.Run.{ResultRequest}
use hostseal.Agent.Spool.{holds, pending_results}
use hostseal.Agent.Delivery.{World, Event, pass, elsewhere, happens, deliver_pending}
use hostseal.Agent.Kept.{OnDisk}
use hostseal.Agent.Lossless.{Spooled, happens-kept, deliver_pending-Recorded}
use hostseal.Store.State.{JobRecord}
use hostseal.Store.Machine.{fresh, remove}
use hostseal.Server.Beats.{unsent, unanswered, delivered}
use hostseal.Agent.Run.{truncate_output}
use hostseal.Server.Results.{received}
use hostseal.Tests.Agents.{restart_job}
use hostseal.Tests.Policies.{sunday_at_one}

abbrev failure : ResultRequest
failure = record {
  job_id = "j1";
  status = failed;
  started_at = sunday_at_one;
  finished_at = sunday_at_one + minute;
  exit_code = pos 1;
  output = codes "no such unit";
  output_truncated = false;
}

abbrev taken : JobRecord
taken = record {
  job = restart_job;
  host_id = "h1";
  created_at = sunday_at_one;
  created_by = "ada";
  approval_required = false;
  approval_distinct_operator = false;
  approved_at = 0;
  approved_by = "";
  claimed_at = sunday_at_one;
  completed_at = 0;
}

abbrev world : World
world =
    (("j1", holds failure) ∷ [], record (fresh []) { records = (("default", "j1"), taken) ∷ [] })

-- The first request is lost, and then an answer; another tenant removes a host in between.
abbrev evening : List (Event "default" "h1")
evening =
    pass ((unsent, true) ∷ [])
    ∷ elsewhere ("acme", remove "h7")
    ∷ pass ((unanswered (sunday_at_one + 2 * minute), true) ∷ [])
    ∷ []

named : failure.job_id ≢ ""
named e = cc

elsewhere_apart : ◌≢◌ {A = String} "acme" "default"
elsewhere_apart e = cc

claimed : taken.claimed_at ≢ 0
claimed = omega arith

spooled : Spooled "default" "h1" failure named world
unfolding get
spooled = (((refl, λ e. refl), tt), refl, (taken, refl, refl, claimed), refl)

happens-kept_example :
    (OnDisk "default" "h1" failure (happens "default" "h1" evening world).0)
    ⊎ ((happens "default" "h1" evening world).1.results ("default", "j1")
        ≡ some (received "j1" failure))
happens-kept_example =
    happens-kept "default" "h1" failure named evening world (tt, (elsewhere_apart, (tt, tt)))
      spooled

deliver_pending-Recorded_example :
    (deliver_pending "default" "h1"
        ((delivered (sunday_at_one + 3 * minute), true) ∷ [])
        (happens "default" "h1" [] world)).1.results
      ("default", "j1")
    ≡ some (received "j1" failure)
deliver_pending-Recorded_example =
    deliver_pending-Recorded "default" "h1" failure named []
      ((delivered (sunday_at_one + 3 * minute), true) ∷ []) world tt spooled (tt, tt)
      (unfold happens pending_results in omega arith)

-- Output that the host has cut is recorded as whole.
mark_forgotten :
    (received "j1" (record failure { output_truncated = true })).output_truncated ≡ false
unfolding truncate_output
mark_forgotten = refl
