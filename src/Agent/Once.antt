-- ===== src/Agent/Once.antt =====
-- internal/agent/nonces.go and execute.go: a signed job is accepted once, across any other jobs
-- and restarts of the agent.
use hostseal.Base.{
  ◌≤◌, ◌<◌, ◌≡◌, sym, subst, inl, inr, String, true, List, [], ◌∷◌, Result, ok, err, arith,
  Bool-cases, All,
}
use hostseal.Intent.Names.{privileged}
use hostseal.Policy.Time.{Time}
use hostseal.Agent.Job.{Job, Status}
use hostseal.Agent.Nonces.{NonceStore, Keeps, check-new, check-seen, check-Keeps, load, load-Keeps}
use hostseal.Agent.Accept.{Agent, Moment, Accepted, is_guarded, vet, replay, after_vet, accept}
use hostseal.Agent.Replay.{accept-IsAuthorised, accept-Passed, Authorised-is_guarded}

-- What the agent does between two deliveries. Its policy and its keys may have been reloaded.
pub data Event : Type 0 where
  deliver : Agent → Job → Moment → Event
  restart : Time → Event

unfoldable pub after : NonceStore → List Event → NonceStore
after s [] = s
after s (deliver g j m ∷ es) = after (accept g j m s).0 es
after s (restart t ∷ es) = after (load t s.file) es

-- The clock that the event reads for the replay store shows less than `t`.
abbrev pub Before : Time → Event → Type 0
Before t (deliver g j m) = m.check_time < t
Before t (restart u) = u < t

after_vet-Keeps :
    {n : String} {until : Time} (g : Agent) (j : Job) (m : Moment) (s : NonceStore)
    (v : Result Status Accepted)
    → m.check_time < until
    → Keeps n until s
    → Keeps n until (after_vet g j m s v).0
unfolding after_vet replay
after_vet-Keeps g j m s (err e) lt k = k
after_vet-Keeps g j m s (ok a) lt k = elim (Bool-cases (is_guarded j a.spec.class)) [
  | inl guarded ↦ rw guarded (check-Keeps j.nonce j.not_after m.check_time m.written s lt k)
  | inr plain ↦ rw plain k
]

after-Keeps :
    {n : String} {until : Time} (t : Time) (s : NonceStore) (es : List Event)
    → t ≤ until
    → All (Before t) es
    → Keeps n until s
    → Keeps n until (after s es)
unfolding after accept
after-Keeps t s [] le b k = k
after-Keeps t s (deliver g j m ∷ es) le b k =
    after-Keeps t (accept g j m s).0 es le b.1
      (after_vet-Keeps g j m s (vet g j m.now) (omega (arith, b.0)) k)
after-Keeps t s (restart u ∷ es) le b k =
    after-Keeps t (load u s.file) es le b.1 (load-Keeps u (omega (arith, b.0)) k.on_disk)

-- A privileged job that was accepted is not accepted again, whatever was delivered in between
-- and however often the agent was restarted, as long as the clock has moved on since the last time
-- that the replay store read it.
pub accept_once :
    (g h : Agent) (j : Job) (first again : Moment) (s : NonceStore) (es : List Event) {a : Accepted}
    → (accept g j first s).1 ≡ ok a
    → privileged a.spec.class ≡ true
    → All (Before again.now) es
    → ¬ (
        (b : Accepted) × ((accept h j again (after (accept g j first s).0 es)).1 ≡ ok b)
        × (privileged b.spec.class ≡ true))
accept_once g h j first again s es {a} ok1 priv1 later (b, ok2, priv2) =
    let p = accept-Passed g j first s ok1 in
    let q = accept-Passed h j again (after (accept g j first s).0 es) ok2 in
    let auth1 = accept-IsAuthorised g j first s ok1 in
    let auth2 = accept-IsAuthorised h j again (after (accept g j first s).0 es) ok2 in
    let (new, left) = p.fresh (Authorised-is_guarded g j a.spec.class auth1.authorised priv1) in
    let (new', _) = q.fresh (Authorised-is_guarded h j b.spec.class auth2.authorised priv2) in
    let kept =
      subst (Keeps j.nonce j.not_after) (sym left)
        (check-new j.nonce j.not_after first.check_time first.written s new) in
    let still =
      after-Keeps again.now (accept g j first s).0 es (auth2.in_window priv2).2 later kept in
    check-seen j.nonce j.not_after again.check_time again.written (after (accept g j first s).0 es)
      still.in_memory new'
