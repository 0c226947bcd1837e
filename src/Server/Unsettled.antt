-- ===== src/Server/Unsettled.antt =====
-- internal/agent/agent.go and internal/server/agentapi.go together: a digest of the signers that is
-- not that of the document which is sent.
use hostseal.Base.{
  ◌≡◌, ◌≢◌, refl, sym, ◌∙◌, ap, subst, String, true, false, some, List, [], ◌∷◌, str_eq, eq_iff,
  arith,
}
use hostseal.Policy.Time.{Time}
use hostseal.Store.State.{Host, Memory}
use hostseal.Store.Jobs.{find_host}
use hostseal.Server.Heartbeat.{response_to}
use hostseal.Agent.Beat.{asked}
use hostseal.Server.Beats.{Fate, delivered, State, beat, beats}
use hostseal.Server.OneBeat.{Site, request, after, asked-full, beat-delivered}

-- Heartbeats that are all answered, two at a time.
abbrev pub in_pairs : List (Time × Time) → List Fate
in_pairs [] = []
in_pairs ((a, b) ∷ rest) = delivered a ∷ delivered b ∷ in_pairs rest

module _ (site : Site) where
  open site use {digest, float, t, d, bs, be}

  asked-signers :
      (h : Host)
      → h.signers_digest ≡ digest bs
      → digest be ≢ ""
      → digest bs ≢ digest be
      → asked (response_to h (request site false)) ≡ true
  unfolding response_to
  asked-signers h e n ne =
      let other : str_eq (digest be) h.signers_digest ≡ false =
        ground (arith, eq_iff (digest be) h.signers_digest) in
      ground (arith, eq_iff (digest be) "")

  module _ (id : String) where
    abbrev pub Found : State → Type 0
    Found s = (h : Host) × (h.id ≡ id) × (find_host t id s.0 ≡ some h)

    again :
        (a b : Time) (m : Memory)
        → digest be ≢ ""
        → digest bs ≢ digest be
        → Found (m, true)
        → Found (
            beat digest float t id d
              (delivered b)
              (beat digest float t id d (delivered a) (m, true)))
          × ((beat digest float t id d
                (delivered b)
                (beat digest float t id d (delivered a) (m, true))).1
              ≡ true)
    again a b m n ne (h, i, e) =
        let one = beat digest float t id d (delivered a) (m, true) in
        let (p, q) = beat-delivered site id a m true h i e in
        let h' = after site true a h in
        let light : one.1 ≡ false = q ∙ asked-full site h in
        let (x, y) = beat-delivered site id b one.0 false h' i p in
        let two : beat digest float t id d (delivered b) one
            ≡ beat digest float t id d (delivered b) (one.0, false) =
          ap (λ f. beat digest float t id d (delivered b) (one.0, f)) light in
        subst (λ s. Found s × (s.1 ≡ true)) (sym two)
          ((after site false b h', i, x), y ∙ asked-signers h' refl n ne)

    -- Where the digest that the host claims for its signers is not that of the document that it
    -- sends, every second heartbeat carries a full report for ever: after any number of pairs of
    -- answered ones the agent is asked again. The server has a row of the host and asked for a
    -- report; the host's documents stay as they are, and the claimed digest is not empty.
    pub beats-asked :
        (pairs : List (Time × Time)) (s : State)
        → digest be ≢ ""
        → digest bs ≢ digest be
        → Found s
        → s.1 ≡ true
        → (beats digest float t id d (in_pairs pairs) s).1 ≡ true
    unfolding beats
    beats-asked [] s n ne f e = e
    beats-asked ((a, b) ∷ pairs) (m, true) n ne f e =
        let (g, k) = again a b m n ne f in beats-asked pairs _ n ne g k
    beats-asked ((a, b) ∷ pairs) (m, false) n ne f e = absurd (cc (e))
