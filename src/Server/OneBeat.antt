-- ===== src/Server/OneBeat.antt =====
-- internal/agent/agent.go and internal/server/agentapi.go together: what one heartbeat does to the row
-- of its host.
use hostseal.Base.{
  ◌≡◌, refl, sym, ap, subst, String, Bool, true, false, some, Result, ok, err, Bytes, arith,
}
use hostseal.Policy.Time.{Time}
use hostseal.Canonical.Write.{write}
use hostseal.Store.State.{Tenant, Host, Memory, StoreError}
use hostseal.Store.Jobs.{find_host}
use hostseal.Store.Hosts.{record_heartbeat, store_facts, store_policy, store_signers}
use hostseal.Server.Heartbeat.{
  HeartbeatRequest, decoded_any, decoded_request, facts_document, policy_document, signers_document,
  store_fn, store_encoded, store_document_if_present, response_to, keep_documents, beat_recorded,
  handle_heartbeat,
}
use hostseal.Agent.Beat.{Documents, reported, build_heartbeat, asked}
use hostseal.Server.Beats.{
  Fate, unanswered, delivered, State, next_full, landed, time_of, beat, update-found,
}

-- An agent, the bytes of what it reports, and those of the facts and the policy that are received.
pub record Site : Type 0 where
  pub digest : Bytes → String
  pub float : Bytes → Bytes
  pub t : Tenant
  pub d : Documents
  pub bf : Bytes
  pub bp : Bytes
  pub bs : Bytes
  pub be : Bytes
  pub rf : Bytes
  pub rp : Bytes
  pub wf : write d.facts ≡ ok bf
  pub wp : write d.policy ≡ ok bp
  pub ws : write d.signers ≡ ok bs
  pub we : write d.signer_entries ≡ ok be
  pub wrf : write (decoded_any float d.facts) ≡ ok rf
  pub wrp : write (decoded_any float d.policy) ≡ ok rp

module _ (site : Site) where
  open site use {digest, float, t, d, bf, bp, bs, be, rf, rp, wf, wp, ws, we, wrf, wrp}

  abbrev composed : Bool → HeartbeatRequest
  composed full = record {
    facts_digest = digest bf;
    policy_digest = digest bp;
    signers_digest = digest be;
    paused = d.paused;
    facts = reported full d.facts;
    policy = reported full d.policy;
    signers = reported full d.signers;
  }

  built : (full : Bool) → build_heartbeat digest d full ≡ ok (composed full)
  unfolding build_heartbeat
  built full = rw (wf, wp, we) refl

  -- The heartbeat as it is received.
  abbrev pub request : Bool → HeartbeatRequest
  request full = record (composed full) {
    facts = reported full (decoded_any float d.facts);
    policy = reported full (decoded_any float d.policy);
  }

  received : (full : Bool) → decoded_request float (composed full) ≡ request full
  received true = refl
  received false = refl

  -- The row after a heartbeat.
  abbrev pub after : Bool → Time → Host → Host
  after false now h = record h { last_seen = now; paused = d.paused }
  after true now h = record h {
    last_seen = now;
    paused = d.paused;
    facts = rf;
    facts_digest = digest rf;
    policy = rp;
    policy_digest = digest rp;
    signers = bs;
    signers_digest = digest bs;
  }

  module _ (id : String) where
    abbrev Row : Memory → Host → Type 0
    Row m h = find_host t id m ≡ some h

    kept-light :
        (m : Memory) (h : Host) → Row m h → Row (keep_documents digest t id (request false) m) h
    unfolding keep_documents store_document_if_present
    kept-light m h e = e

    stored-facts :
        (m : Memory) (h : Host)
        → Row m h
        → Row
            (store_document_if_present digest t id facts_document
              (some (decoded_any float d.facts))
              m)
            (record h { facts = rf; facts_digest = digest rf })
    unfolding store_document_if_present store_encoded store_fn store_facts
    stored-facts m h e =
        rw wrf (update-found t id (λ h. record h { facts = rf; facts_digest = digest rf }) m h e).0

    stored-policy :
        (m : Memory) (h : Host)
        → Row m h
        → Row
            (store_document_if_present digest t id policy_document
              (some (decoded_any float d.policy))
              m)
            (record h { policy = rp; policy_digest = digest rp })
    unfolding store_document_if_present store_encoded store_fn store_policy
    stored-policy m h e =
        rw wrp
          (update-found t id (λ h. record h { policy = rp; policy_digest = digest rp }) m h e).0

    stored-signers :
        (m : Memory) (h : Host)
        → Row m h
        → Row
            (store_document_if_present digest t id signers_document (some d.signers) m)
            (record h { signers = bs; signers_digest = digest bs })
    unfolding store_document_if_present store_encoded store_fn store_signers
    stored-signers m h e =
        rw ws
          (update-found t id (λ h. record h { signers = bs; signers_digest = digest bs }) m h e).0

    kept-full :
        (now : Time) (m : Memory) (h : Host)
        → Row m (after false now h)
        → Row (keep_documents digest t id (request true) m) (after true now h)
    unfolding keep_documents
    kept-full now m h e =
        stored-signers _ _ (stored-policy _ _ (stored-facts m (after false now h) e))

    kept :
        (full : Bool) (now : Time) (m : Memory) (h : Host)
        → Row m (after false now h)
        → Row (keep_documents digest t id (request full) m) (after full now h)
    kept false now m h e = kept-light m (after false now h) e
    kept true now m h e = kept-full now m h e

  recorded :
      (full : Bool) (now : Time) (h : Host) (p : Memory × Result StoreError (Unit {0}))
      → p.1 ≡ ok tt
      → find_host t h.id p.0 ≡ some (after false now h)
      → (find_host t h.id (beat_recorded digest t h (request full) p).0 ≡ some (after full now h))
        × ((beat_recorded digest t h (request full) p).1 ≡ ok (response_to h (request full)))
  unfolding beat_recorded
  recorded full now h (m, ok u) g e = (kept h.id full now m h e, refl)
  recorded full now h (m, err x) g e = absurd (cc (g))

  pub handled :
      (full : Bool) (now : Time) (m : Memory) (h : Host)
      → find_host t h.id m ≡ some h
      → (find_host t h.id (handle_heartbeat digest t h (request full) now m).0
          ≡ some (after full now h))
        × ((handle_heartbeat digest t h (request full) now m).1 ≡ ok (response_to h (request full)))
  unfolding handle_heartbeat record_heartbeat
  handled full now m h e =
      let (a, b) =
        update-found t h.id (λ h. record h { last_seen = now; paused = d.paused }) m h e in
      recorded full now h (record_heartbeat t h.id now d.paused m) b a

  -- A full report is not answered by a request for one.
  pub asked-full : (h : Host) → asked (response_to h (request true)) ≡ false
  unfolding response_to
  asked-full h = ground arith

  module _ (id : String) where
    pub known :
        (f : Fate) (m : Memory) (full : Bool) (h : Host)
        → find_host t id m ≡ some h
        → beat digest float t id d f (m, full)
          ≡ landed digest float t id d f
              (m, full)
              (handle_heartbeat digest t h (request full) (time_of digest float t id d f) m)
    unfolding beat
    known f m full h e = rw (e, built full, received full) refl

    handled-at :
        (full : Bool) (now : Time) (m : Memory) (h : Host)
        → h.id ≡ id
        → find_host t id m ≡ some h
        → (find_host t id (handle_heartbeat digest t h (request full) now m).0
            ≡ some (after full now h))
          × ((handle_heartbeat digest t h (request full) now m).1
              ≡ ok (response_to h (request full)))
    handled-at full now m h i e =
        let (a, b) = handled full now m h (subst (λ x. find_host t x m ≡ some h) (sym i) e) in
        (
          subst
              (λ x.
                find_host t x (handle_heartbeat digest t h (request full) now m).0
                ≡ some (after full now h))
              i a,
          b,
        )

    -- A heartbeat that arrives leaves the row that it says; the flag goes by the answer.
    abbrev pub Leaves : Bool → Time → Host → Bool → State → Type 0
    Leaves full now h flag s = (find_host t id s.0 ≡ some (after full now h)) × (s.1 ≡ flag)

    pub beat-unanswered :
        (now : Time) (m : Memory) (full : Bool) (h : Host)
        → h.id ≡ id
        → find_host t id m ≡ some h
        → Leaves full now h full (beat digest float t id d (unanswered now) (m, full))
    beat-unanswered now m full h i e =
        let (a, b) = handled-at full now m h i e in rw (known (unanswered now) m full h e) (a, refl)

    pub beat-delivered :
        (now : Time) (m : Memory) (full : Bool) (h : Host)
        → h.id ≡ id
        → find_host t id m ≡ some h
        → Leaves full now h
            (asked (response_to h (request full)))
            (beat digest float t id d (delivered now) (m, full))
    beat-delivered now m full h i e =
        let (a, b) = handled-at full now m h i e in
        rw (known (delivered now) m full h e) (a, ap (next_full full) b)

    pub after-id : (full : Bool) (now : Time) (h : Host) → (after full now h).id ≡ h.id
    after-id false now h = refl
    after-id true now h = refl
