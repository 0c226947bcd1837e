-- ===== src/Agent/Orderly.antt =====
-- internal/agent/execute.go: what `Run` does to the world, and in which order.
use hostseal.Base.{◌≡◌, ◌≢◌, true, false, List, [], ◌∷◌}
use hostseal.Intent.Names.{privileged}
use hostseal.Intent.Params.{Params, may_not_return}
use hostseal.Agent.Job.{Job, succeeded, failed}
use hostseal.Agent.Accept.{Agent, Moment, Accepted}
use hostseal.Agent.Replay.{IsAuthorised}
use hostseal.Agent.Run.{
  ResultRequest, Effect, spool, invoke, execute, World, provisional, request_of,
}

-- The runs that are allowed. Each line says what was done, and what had been established first.
pub data Orderly (g : Agent) (j : Job) (m : Moment) : ResultRequest → List Effect → Type 0 where
  nothing : {r : ResultRequest} → r.status ≢ succeeded → Orderly g j m r []
  report :
      {r : ResultRequest} {a : Accepted}
      → IsAuthorised g j m a
      → privileged a.spec.class ≡ false
      → Orderly g j m r (execute a ∷ [])
  unrecorded :
      {r : ResultRequest} {a : Accepted}
      → IsAuthorised g j m a
      → may_not_return a.spec.may_not_return a.params ≡ true
      → r.status ≡ failed
      → Orderly g j m r (spool (provisional j m) ∷ [])
  elevated :
      {r : ResultRequest} {a : Accepted}
      → IsAuthorised g j m a
      → privileged a.spec.class ≡ true
      → may_not_return a.spec.may_not_return a.params ≡ false
      → Orderly g j m r (invoke (request_of j a) ∷ [])
  recorded :
      {r : ResultRequest} {a : Accepted}
      → IsAuthorised g j m a
      → privileged a.spec.class ≡ true
      → may_not_return a.spec.may_not_return a.params ≡ true
      → Orderly g j m r (spool (provisional j m) ∷ invoke (request_of j a) ∷ [])

module _ (g : Agent) (j : Job) (m : Moment) (w : World) (a : Accepted)
    (auth : IsAuthorised g j m a) where
  abbrev IsOrderly : ResultRequest × List Effect → Type 0
  IsOrderly x = Orderly g j m x.0 x.1
