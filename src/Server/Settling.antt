-- ===== src/Server/Settling.antt =====
-- internal/agent/agent.go and internal/server/agentapi.go together: the digests that the server holds
-- come to be those of the host, and a digest that is not the document's own never does.
use hostseal.Base.{
  ap, ok_inj, ◌≡◌, ◌≢◌, ◌⊎◌, refl, sym, ◌∙◌, subst, inl, inr, String, Bool, true, false, some, List,
  [], ◌∷◌, eq_iff, Bytes, Bool-cases, arith,
}
use hostseal.Policy.Time.{Time}
use hostseal.Store.State.{Host}
use hostseal.Store.Jobs.{find_host}
use hostseal.Server.Heartbeat.{decoded_any, response_to}
use hostseal.Canonical.Write.{write}
use hostseal.Agent.Beat.{asked}
use hostseal.Server.Beats.{Fate, unsent, unanswered, delivered, State, beat, beats}
use hostseal.Server.OneBeat.{Site, request, after, known, beat-unanswered, beat-delivered, after-id}

module _ (site : Site) (facts_kept : decoded_any site.float site.d.facts ≡ site.d.facts)
    (policy_kept : decoded_any site.float site.d.policy ≡ site.d.policy) where
  open site use {digest, float, t, d, bf, bp, rf, rp, wf, wp, wrf, wrp}

  same_facts : digest rf ≡ digest bf
  same_facts = ap digest (ok_inj (sym wrf ∙ ap write facts_kept ∙ wf))

  same_policy : digest rp ≡ digest bp
  same_policy = ap digest (ok_inj (sym wrp ∙ ap write policy_kept ∙ wp))

  Settled : Host → Type 0
  Settled h = (h.facts_digest ≡ digest bf) × (h.policy_digest ≡ digest bp)

  abbrev pub HeldAs : String → Bytes → Type 0
  HeldAs held document = (held ≡ "") ⊎ (held ≡ digest document)

  -- A digest that is held is that of the document that is held.
  abbrev pub Held : Host → Type 0
  Held h = HeldAs h.facts_digest h.facts × HeldAs h.policy_digest h.policy

  held :
      {text : String} {document b : Bytes}
      → digest b ≢ ""
      → text ≡ digest b
      → HeldAs text document
      → digest document ≡ digest b
  held n e (inl x) = absurd (n (sym e ∙ x))
  held n e (inr x) = sym x ∙ e

  after-Held : (full : Bool) (now : Time) (h : Host) → Held h → Held (after site full now h)
  after-Held false now h e = e
  after-Held true now h e = (inr refl, inr refl)

  after-Settled :
      (full : Bool) (now : Time) (h : Host) → Settled h → Settled (after site full now h)
  unfolding Settled
  after-Settled false now h e = e
  after-Settled true now h e = (same_facts, same_policy)

  full-Settled : (now : Time) (h : Host) → Settled (after site true now h)
  unfolding Settled
  full-Settled now h = (same_facts, same_policy)

  asked-light :
      (h : Host)
      → digest bf ≢ ""
      → digest bp ≢ ""
      → asked (response_to h (request site false)) ≡ false
      → Settled h
  unfolding response_to Settled
  asked-light h nf np e = (
    ground (arith, eq_iff (digest bf) "", eq_iff (digest bf) h.facts_digest),
    ground (arith, eq_iff (digest bp) "", eq_iff (digest bp) h.policy_digest),
  )

  module _ (id : String) where
    -- The server knows the host, and what it holds of it is whole.
    abbrev pub Known : State → Type 0
    Known s = (h : Host) × (h.id ≡ id) × (find_host t id s.0 ≡ some h) × Held h

    Ready : State → Type 0
    Ready s =
        (h : Host) × (h.id ≡ id)
        × (find_host t id s.0 ≡ some h)
        × Held h
        × ((s.1 ≡ true) ⊎ Settled h)

    Done : State → Type 0
    Done s = (h : Host) × (h.id ≡ id) × (find_host t id s.0 ≡ some h) × Held h × Settled h

    beat-Known : (f : Fate) (s : State) → Known s → Known (beat digest float t id d f s)
    beat-Known unsent (m, full) (h, i, e, k) = rw (known site id unsent m full h e) (h, i, e, k)
    beat-Known (unanswered now) (m, full) (h, i, e, k) =
        let (a, b) = beat-unanswered site id now m full h i e in
        (after site full now h, after-id site id full now h ∙ i, a, after-Held full now h k)
    beat-Known (delivered now) (m, full) (h, i, e, k) =
        let (a, b) = beat-delivered site id now m full h i e in
        (after site full now h, after-id site id full now h ∙ i, a, after-Held full now h k)

    carried :
        (full : Bool) (now : Time) (h : Host)
        → ((full ≡ true) ⊎ Settled h)
        → (full ≡ true) ⊎ Settled (after site full now h)
    carried full now h (inl x) = inl x
    carried full now h (inr x) = inr (after-Settled full now h x)

    arrived :
        (full : Bool) (now : Time) (h : Host)
        → ((full ≡ true) ⊎ Settled h)
        → Settled (after site full now h)
    arrived false now h (inl x) = cc
    arrived true now h (inl x) = full-Settled now h
    arrived full now h (inr x) = after-Settled full now h x

    beat-Ready : (f : Fate) (s : State) → Ready s → Ready (beat digest float t id d f s)
    unfolding Ready
    beat-Ready unsent (m, full) (h, i, e, k, r) =
        rw (known site id unsent m full h e) (h, i, e, k, r)
    beat-Ready (unanswered now) (m, full) (h, i, e, k, r) =
        let (a, b) = beat-unanswered site id now m full h i e in
        (
          after site full now h,
          after-id site id full now h ∙ i,
          a,
          after-Held full now h k,
          subst (λ x. (x ≡ true) ⊎ Settled (after site full now h)) (sym b) (carried full now h r),
        )
    beat-Ready (delivered now) (m, full) (h, i, e, k, r) =
        let (a, b) = beat-delivered site id now m full h i e in
        (
          after site full now h,
          after-id site id full now h ∙ i,
          a,
          after-Held full now h k,
          inr (arrived full now h r),
        )

    arrived-Done :
        (now : Time) (s : State) → Ready s → Done (beat digest float t id d (delivered now) s)
    unfolding Ready Done
    arrived-Done now (m, full) (h, i, e, k, r) =
        let (a, b) = beat-delivered site id now m full h i e in
        (
          after site full now h,
          after-id site id full now h ∙ i,
          a,
          after-Held full now h k,
          arrived full now h r,
        )

    beat-Done : (f : Fate) (s : State) → Done s → Done (beat digest float t id d f s)
    unfolding Done
    beat-Done unsent (m, full) (h, i, e, k, r) =
        rw (known site id unsent m full h e) (h, i, e, k, r)
    beat-Done (unanswered now) (m, full) (h, i, e, k, r) =
        let (a, b) = beat-unanswered site id now m full h i e in
        (
          after site full now h,
          after-id site id full now h ∙ i,
          a,
          after-Held full now h k,
          after-Settled full now h r,
        )
    beat-Done (delivered now) (m, full) (h, i, e, k, r) =
        let (a, b) = beat-delivered site id now m full h i e in
        (
          after site full now h,
          after-id site id full now h ∙ i,
          a,
          after-Held full now h k,
          after-Settled full now h r,
        )

    first-Ready :
        (now : Time) (s : State)
        → digest bf ≢ ""
        → digest bp ≢ ""
        → Known s
        → Ready (beat digest float t id d (delivered now) s)
    unfolding Ready
    first-Ready now (m, true) nf np (h, i, e, k) =
        let (a, b) = beat-delivered site id now m true h i e in
        (
          after site true now h,
          after-id site id true now h ∙ i,
          a,
          after-Held true now h k,
          inr (full-Settled now h),
        )
    first-Ready now (m, false) nf np (h, i, e, k) =
        let (a, b) = beat-delivered site id now m false h i e in
        (
          after site false now h,
          after-id site id false now h ∙ i,
          a,
          after-Held false now h k,
          elim (Bool-cases (asked (response_to h (request site false)))) [
            | inl x ↦ inl (b ∙ x)
            | inr x ↦ inr (after-Settled false now h (asked-light h nf np x))
          ],
        )

    beats-Known : (fs : List Fate) (s : State) → Known s → Known (beats digest float t id d fs s)
    unfolding beats
    beats-Known [] s k = k
    beats-Known (f ∷ fs) s k = beats-Known fs (beat digest float t id d f s) (beat-Known f s k)

    beats-Ready : (fs : List Fate) (s : State) → Ready s → Ready (beats digest float t id d fs s)
    unfolding beats
    beats-Ready [] s k = k
    beats-Ready (f ∷ fs) s k = beats-Ready fs (beat digest float t id d f s) (beat-Ready f s k)

    beats-Done : (fs : List Fate) (s : State) → Done s → Done (beats digest float t id d fs s)
    unfolding beats
    beats-Done [] s k = k
    beats-Done (f ∷ fs) s k = beats-Done fs (beat digest float t id d f s) (beat-Done f s k)

    -- From the second heartbeat on that was answered, whatever was lost in between and since, the
    -- server holds facts and a policy of the host with the digests of its own, and the digests are
    -- those of the documents that it holds. The host's documents stay as they are and can be
    -- written, the server's decoder, which reads numbers as `float64`, leaves their numbers as they
    -- are, no digest is empty, and the server knew the host, with nothing or a whole document of
    -- each kind.
    pub beats-Settled :
        (before between later : List Fate) (a b : Time) (s : State)
        → digest bf ≢ ""
        → digest bp ≢ ""
        → Known s
        → (h : Host) × (find_host t id
              (beats digest float t id d later (
                beat digest float t id d (delivered b) (
                  beats digest float t id d between (
                    beat digest float t id d
                      (delivered a)
                      (beats digest float t id d before s))))).0
            ≡ some h)
          × (h.facts_digest ≡ digest bf)
          × (digest h.facts ≡ digest bf)
          × (h.policy_digest ≡ digest bp)
          × (digest h.policy ≡ digest bp)
    unfolding Done Settled
    beats-Settled before between later a b s nf np k =
        let ready =
          first-Ready a (beats digest float t id d before s) nf np (beats-Known before s k) in
        let (h, _, e, (p, q), (x, y)) =
          beats-Done later _ (arrived-Done b _ (beats-Ready between _ ready)) in
        (h, e, x, held nf x p, y, held np y q)
