-- ===== src/Server/Beats.antt =====
-- internal/agent/agent.go and internal/server/agentapi.go together: heartbeats over a network that
-- loses requests and answers.
use hostseal.Base.{
  ◌≡◌, refl, ◌∙◌, ap, String, Bool, Option, none, some, List, [], ◌∷◌, Result, ok, err, eq_iff,
  Bytes,
}
use hostseal.Base.Assoc.{get-put}
use hostseal.Policy.Time.{Time}
use hostseal.Canonical.Strings.{WriteError}
use hostseal.Store.State.{Tenant, Host, Memory, by_id}
use hostseal.Store.Jobs.{of_tenant, find_host}
use hostseal.Store.Hosts.{update_found, update}
use hostseal.Server.Jobs.{Refusal}
use hostseal.Server.Heartbeat.{
  HeartbeatRequest, HeartbeatResponse, decoded_request, handle_heartbeat,
}
use hostseal.Agent.Beat.{Documents, build_heartbeat, asked}

-- What becomes of a heartbeat: it does not arrive, its answer does not, or both do.
pub data Fate : Type 0 where
  unsent : Fate
  unanswered : Time → Fate
  delivered : Time → Fate

-- The store, and whether the agent sends a full report next.
abbrev pub State : Type 0
State = Memory × Bool

abbrev pub next_full : Bool → Result Refusal HeartbeatResponse → Bool
next_full full (err e) = full
next_full full (ok r) = asked r

module _ (digest : Bytes → String) (float : Bytes → Bytes) (t : Tenant) (id : String)
    (d : Documents) where
  abbrev pub landed : Fate → State → Memory × Result Refusal HeartbeatResponse → State
  landed unsent (m, full) r = (m, full)
  landed (unanswered now) (m, full) (n, r) = (n, full)
  landed (delivered now) (m, full) (n, r) = (n, next_full full r)

  abbrev pub time_of : Fate → Time
  time_of unsent = 0
  time_of (unanswered now) = now
  time_of (delivered now) = now

  -- A host that has no row is not let in.
  abbrev pub sent : Fate → State → Option Host → Result WriteError HeartbeatRequest → State
  sent f s none r = s
  sent f s (some h) (err e) = s
  sent f s (some h) (ok req) =
      landed f s (handle_heartbeat digest t h (decoded_request float req) (time_of f) s.0)

  -- One pass of the agent's loop.
  unfoldable pub beat : Fate → State → State
  beat f s = sent f s (find_host t id s.0) (build_heartbeat digest d s.1)

  unfoldable pub beats : List Fate → State → State
  unfolding beat
  beats [] s = s
  beats (f ∷ fs) s = beats fs (beat f s)

of_tenant_own :
    (t : Tenant) (h : Host) → of_tenant t (some (record { host = h; tenant = t })) ≡ some h
unfolding of_tenant
of_tenant_own t h = rw ((eq_iff t t).1 refl) refl

pub update-found :
    (t : Tenant) (id : String) (f : Host → Host) (m : Memory) (h : Host)
    → find_host t id m ≡ some h
    → (find_host t id (update t id f m).0 ≡ some (f h)) × ((update t id f m).1 ≡ ok tt)
unfolding update update_found find_host
update-found t id f m h e = rw e (
  ap (of_tenant t) (get-put by_id id (record { host = f h; tenant = t }) m.hosts)
      ∙ of_tenant_own t (f h),
  refl,
)
