-- ===== src/Agent/Lossless.antt =====
-- internal/agent/results.go and agent.go with internal/server/agentapi.go: a result that was written to
-- the spool stays there until the server has it.
use hostseal.Base.{
  ◌≡◌, ◌≢◌, ◌⊎◌, ◌≤◌, refl, ◌∙◌, inl, inr, String, Bool, none, some, List, [], ◌∷◌, Bool-cases, All,
  length,
}
use hostseal.Base.Assoc.{get, put, delete, get-put_other, All-keep}
use hostseal.Agent.Run.{ResultRequest}
use hostseal.Agent.Spool.{holds, Spool, spool_result, pending_results}
use hostseal.Agent.Delivery.{
  World, Try, deliver_pending, finish_job, Event, pass, finishes, elsewhere, happen, happens,
}
use hostseal.Agent.Reports.{Same}
use hostseal.Agent.Kept.{
  OnDisk, Filed, Stage, waits, sent, Safe, Listed, Arrives, Stage-Same, deliver_one-Safe,
  deliver_all-Safe, deliver_all-Recorded, pending-Listed, pending-OnDisk, deliver_all-Arrives,
}
use hostseal.Store.State.{Tenant, by_id, Memory, scoped}
use hostseal.Store.Outcomes.{Answerable}
use hostseal.Store.Machine.{step}
use hostseal.Store.Tenancy.{step-Undisturbed}
use hostseal.Server.Jobs.{valid_job_id}
use hostseal.Server.Results.{received}

module _ (t : Tenant) (host : String) (r : ResultRequest) (named : r.job_id ≢ "") where
  -- Other jobs end, and other tenants use the store.
  abbrev pub Apart : Event t host → Type 0
  Apart (pass fs) = Unit
  Apart (finishes written f x) = x.job_id ≢ r.job_id
  Apart (elsewhere op) = op.0 ≢ t

  spooled-Filed :
      (x : ResultRequest) (b : Bool) (s : Spool)
      → x.job_id ≢ r.job_id
      → All (Filed t host r) s
      → All (Filed t host r) (spool_result b x s).0
  unfolding spool_result put delete
  spooled-Filed x b s ne h = elim (Bool-cases (valid_job_id x.job_id)) [
    | inr e ↦ rw e h
    | inl e ↦ elim (Bool-cases b) [
      | inr f ↦ rw (e, f) h
      | inl f ↦ rw (e, f) ((refl, λ q. absurd (ne q)), All-keep (Filed t host r) _ s h)
    ]
  ]

  spooled-OnDisk :
      (x : ResultRequest) (b : Bool) (s : Spool)
      → x.job_id ≢ r.job_id
      → OnDisk t host r s
      → OnDisk t host r (spool_result b x s).0
  unfolding spool_result
  spooled-OnDisk x b s ne h = elim (Bool-cases (valid_job_id x.job_id)) [
    | inr e ↦ rw e h
    | inl e ↦ elim (Bool-cases b) [
      | inr f ↦ rw (e, f) h
      | inl f ↦ rw (e, f) (get-put_other by_id x.job_id r.job_id (holds x) s ne ∙ h)
    ]
  ]

  unchanged : (m : Memory) → Same t host (t, r.job_id) m m
  unchanged m = (refl, refl)

  pending-Safe :
      (s : Spool) (m : Memory)
      → Safe t host r (s, m)
      → All (Listed t host r) (pending_results s).0 × Safe t host r ((pending_results s).1, m)
  pending-Safe s m (h, st) =
      let (l, k) = pending-Listed t host r s h in
      (
        l,
        (
          k,
          Stage-Same t host r s (pending_results s).1 m m (λ d. (pending-OnDisk t host r s h d).0)
              (unchanged m) st,
        ),
      )

  happen-Safe :
      (e : Event t host) (w : World) → Apart e → Safe t host r w → Safe t host r (happen t host e w)
  unfolding happen deliver_pending finish_job
  happen-Safe (pass fs) (s, m) a h =
      let (l, k) = pending-Safe s m h in
      deliver_all-Safe t host r fs (pending_results s).0 ((pending_results s).1, m) named l k
  happen-Safe (finishes b f x) (s, m) a (h, st) =
      deliver_one-Safe t host r x f ((spool_result b x s).0, m) named (λ e. absurd (a e))
        (
          spooled-Filed x b s a h,
          Stage-Same t host r s (spool_result b x s).0 m m (spooled-OnDisk x b s a) (unchanged m)
              st,
        )
  happen-Safe (elsewhere (u, op)) (s, m) a (h, st) =
      let still = step-Undisturbed u t a op m in
      (
        h,
        Stage-Same t host r s s m (step (u, op) m) (λ d. d)
            (still.result r.job_id, still.job r.job_id) st,
      )

  happens-Safe :
      (es : List (Event t host)) (w : World)
      → All Apart es
      → Safe t host r w
      → Safe t host r (happens t host es w)
  unfolding happens
  happens-Safe [] w a h = h
  happens-Safe (e ∷ es) w (a, as') h = happens-Safe es (happen t host e w) as' (happen-Safe e w a h)

  kept :
      (w : World)
      → Stage t host r w
      → (OnDisk t host r w.0) ⊎ (w.1.results (t, r.job_id) ≡ some (received r.job_id r))
  kept (s, m) (waits d a) = inl d
  kept (s, m) (sent (a, c)) = inr c

  -- The spool holds the result, and every record in the file of its own job; the job was claimed by
  -- this host, and the server has no result of it.
  abbrev pub Spooled : World → Type 0
  Spooled (s, m) =
      All (Filed t host r) s
      × OnDisk t host r s
      × Answerable host (get scoped (t, r.job_id) m.records)
      × (m.results (t, r.job_id) ≡ none)

  -- A result in the spool of a job that this host claimed is not lost: whatever requests and answers
  -- the network loses, whatever files cannot be removed and however often the agent starts again,
  -- it is on disk still, or the server has recorded it: its status, its times and its exit code as
  -- they were reported, and the end of its output, but with a mark of truncation that is the server's
  -- own and forgets what the host had cut. The agent delivers what is on disk and finishes other
  -- jobs, and other tenants use the store.
  pub happens-kept :
      (es : List (Event t host)) (w : World)
      → All Apart es
      → Spooled w
      → (OnDisk t host r (happens t host es w).0)
        ⊎ ((happens t host es w).1.results (t, r.job_id) ≡ some (received r.job_id r))
  happens-kept es (s, m) a (f, d, c, n) =
      kept (happens t host es (s, m)) (happens-Safe es (s, m) a (f, waits d (c, inl n))).1

  -- And a pass over the spool in which every report is answered has it recorded, whatever happened
  -- before, if it is on disk still: as it was reported, with the end of its output, and with the mark
  -- of truncation that the server sets for the output that arrived, not the one that the host set.
  pub deliver_pending-Recorded :
      (es : List (Event t host)) (fs : List Try) (w : World)
      → All Apart es
      → Spooled w
      → All (Arrives t host) fs
      → length (pending_results (happens t host es w).0).0 ≤ length fs
      → (deliver_pending t host fs (happens t host es w)).1.results (t, r.job_id)
        ≡ some (received r.job_id r)
  unfolding deliver_pending
  deliver_pending-Recorded es fs (s, m) a (f, d, c, n) g le =
      recorded fs (happens t host es (s, m)) g le (happens-Safe es (s, m) a (f, waits d (c, inl n)))
    where
      recorded :
          (fs : List Try) (w : World)
          → All (Arrives t host) fs
          → length (pending_results w.0).0 ≤ length fs
          → Safe t host r w
          → (deliver_pending t host fs w).1.results (t, r.job_id) ≡ some (received r.job_id r)
      recorded fs (s, m) g le (h, waits d a) =
          let (l, k) = pending-Safe s m (h, waits d a) in
          (deliver_all-Arrives t host r fs (pending_results s).0 ((pending_results s).1, m) named l
            (pending-OnDisk t host r s h d).1 g le k).1
      recorded fs (s, m) g le (h, sent c) =
          let (l, k) = pending-Safe s m (h, sent c) in
          (deliver_all-Recorded t host r fs (pending_results s).0 ((pending_results s).1, m) named l
            c).1
