-- ===== src/Agent/Sound.antt =====
-- internal/agent/execute.go: what holds of a job that `accept` accepts.
use hostseal.Base.{
  ◌-◌, ◌≤◌, ◌<◌, ◌≡◌, ◌≢◌, ◌↔◌, ◌⊎◌, refl, subst, String, true, false, Option, none, some, Result,
  ok, err, >>=-eq-ok, ok_inj, eq_iff, Bytes, arith, In,
}
use hostseal.Base.Int.{ℤ, pos, negsuc, int64_half, abs}
use hostseal.Json.{Raw}
use hostseal.Intent.Names.{
  Class, read, routine, destructive, in_profile, privileged, requires_offline_signature,
  requires_online_signature,
}
use hostseal.Intent.Params.{Params}
use hostseal.Intent.Catalogue.{Spec, decode, DecodeError}
use hostseal.Policy.Time.{Time}
use hostseal.Signing.{SignerSet, PublicKey, verify, verify_sound}
use hostseal.Agent.Job.{Job, signed_payload, Codec, Status}
use hostseal.Agent.Accept.{
  Agent, Accepted, is_skewed, max_skew, decode_signature, names_signer, verify_bytes, verify_by,
  verify_offline_signature, verify_online_signature, is_signed, is_guarded, encoded, supported, vet,
  refusal, unless_refused,
}

-- The clock test refuses every `time.Duration` of more than five minutes, either way, but one: the
-- least of them, whose magnitude `absDuration` cannot represent.
pub is_skewed_iff :
    (offset : ℤ)
    → abs offset ≤ int64_half
    → (is_skewed offset ≡ true) ↔ ((offset ≢ negsuc (int64_half - 1)) × (max_skew < abs offset))
unfolding is_skewed
is_skewed_iff (pos n) h = ground arith
is_skewed_iff (negsuc n) h = ground arith

-- A signature that verifies: a key of the set checks it over the canonical payload of this job
-- for this host, and it is the key that the job names, if it names one.
pub record SignedBy (c : Codec) (keys : SignerSet) (j : Job) (host : String) : Type 0 where
  pub key : PublicKey
  pub payload : Bytes
  pub bytes : Bytes
  pub known : In key keys
  pub covers : c.marshal (signed_payload j host) ≡ some payload
  pub present : j.signature ≢ ""
  pub decoded : c.decode64 j.signature ≡ some bytes
  pub checks : c.check key payload bytes ≡ true
  pub named : (j.signer_key_id ≡ "") ⊎ (j.signer_key_id ≡ key.key_id)

module _ (c : Codec) (keys : SignerSet) (j : Job) (host : String) where
  decode_signature-some :
      {sig : Bytes}
      → decode_signature c j.signature ≡ some sig
      → (j.signature ≢ "") × (c.decode64 j.signature ≡ some sig)
  unfolding decode_signature
  decode_signature-some h = ground (arith, eq_iff j.signature "")

  verify_bytes-SignedBy :
      (p s : Option Bytes)
      → c.marshal (signed_payload j host) ≡ p
      → decode_signature c j.signature ≡ s
      → verify_bytes c keys j p s ≡ true
      → SignedBy c keys j host
  unfolding verify_bytes
  verify_bytes-SignedBy (some payload) (some sig) f g h =
      named_signer (verify c.check keys payload sig) refl h
    where
      named_signer :
          (o : Option PublicKey)
          → verify c.check keys payload sig ≡ o
          → names_signer j o ≡ true
          → SignedBy c keys j host
      named_signer none e k = unfold names_signer in cc k
      named_signer (some key) e k =
          let (i, good) = verify_sound c.check keys payload sig e in
          let (present, decoded) = decode_signature-some g in
          record {
            key = key;
            payload = payload;
            bytes = sig;
            known = i;
            covers = f;
            present = present;
            decoded = decoded;
            checks = good;
            named =
                unfold names_signer in
                ground (arith, eq_iff j.signer_key_id "", eq_iff j.signer_key_id key.key_id);
          }
  verify_bytes-SignedBy (some payload) none f g h = cc
  verify_bytes-SignedBy none (some sig) f g h = cc
  verify_bytes-SignedBy none none f g h = cc

  verify_by-SignedBy : verify_by c keys j host ≡ true → SignedBy c keys j host
  unfolding verify_by
  verify_by-SignedBy h =
      verify_bytes-SignedBy (c.marshal (signed_payload j host)) (decode_signature c j.signature)
        refl refl (ground arith)

-- The authorisation that each class of operation needs.
abbrev pub Authorised : Agent → Job → Class → Type 0
Authorised g j read = Unit
Authorised g j routine = SignedBy g.codec g.online j g.host_id
Authorised g j destructive = SignedBy g.codec g.signers j g.host_id

pub is_signed-Authorised :
    (g : Agent) (j : Job) (c : Class) → is_signed g j c ≡ true → Authorised g j c
unfolding is_signed requires_offline_signature requires_online_signature
is_signed-Authorised g j read h = tt
is_signed-Authorised g j routine h =
    verify_by-SignedBy g.codec g.online j g.host_id (unfold verify_online_signature in h)
is_signed-Authorised g j destructive h =
    verify_by-SignedBy g.codec g.signers j g.host_id (unfold verify_offline_signature in h)

-- What is known of a job before its nonce is looked up.
pub record Vetted (g : Agent) (j : Job) (now : Time) (a : Accepted) : Type 0 where
  pub encoded_as : g.codec.encode j.params ≡ some a.raw
  pub decoded_as : decode j.intent a.raw ≡ ok (a.spec, a.params)
  pub executes : in_profile g.profile a.spec.name ≡ true
  pub clock : privileged a.spec.class ≡ true → is_skewed g.clock_offset ≡ false
  pub opened : (j.not_before ≡ 0) ⊎ (j.not_before ≤ now)
  pub not_over : (j.not_after ≡ 0) ⊎ (now ≤ j.not_after)
  pub signed : is_signed g j a.spec.class ≡ true
  pub bounded : is_guarded j a.spec.class ≡ true → (j.not_before ≢ 0) × (j.not_after ≢ 0)

encoded-ok : (o : Option Raw) {raw : Raw} → encoded o ≡ ok raw → o ≡ some raw
unfolding encoded
encoded-ok none h = cc
encoded-ok (some r) h = cc

supported-ok :
    (r : Result DecodeError (Spec × Params)) {q : Spec × Params}
    → supported r ≡ ok q
    → r ≡ ok (q.0, q.1)
unfolding supported
supported-ok (ok q) h = cc
supported-ok (err e) h = cc

unless_refused-ok :
    (o : Option Status) {b a : Accepted} → unless_refused o b ≡ ok a → (o ≡ none) × (b ≡ a)
unfolding unless_refused
unless_refused-ok none h = (refl, ok_inj h)
unless_refused-ok (some st) h = cc

module _ (g : Agent) (j : Job) (now : Time) where
  not_refused :
      (s : Spec)
      → refusal g j now s ≡ none
      → (in_profile g.profile s.name ≡ true)
        × (privileged s.class ≡ true → is_skewed g.clock_offset ≡ false)
        × ((j.not_before ≡ 0) ⊎ (j.not_before ≤ now))
        × ((j.not_after ≡ 0) ⊎ (now ≤ j.not_after))
        × (is_signed g j s.class ≡ true)
        × (is_guarded j s.class ≡ true → (j.not_before ≢ 0) × (j.not_after ≢ 0))
  unfolding refusal
  not_refused s h =
      (ground arith, ground arith, ground arith, ground arith, ground arith, ground arith)

  pub vet-Vetted : {a : Accepted} → vet g j now ≡ ok a → Vetted g j now a
  unfolding vet
  vet-Vetted {a} h =
      let (raw, e, h1) = >>=-eq-ok (encoded (g.codec.encode j.params)) _ h in
      let (found, d, h2) = >>=-eq-ok (supported (decode j.intent raw)) _ h1 in
      let (passed, done) = unless_refused-ok (refusal g j now found.0) h2 in
      let (profile, clock, opened, closed, signed, bounded) = not_refused found.0 passed in
      subst (Vetted g j now) done (record {
        encoded_as = encoded-ok _ e;
        decoded_as = supported-ok _ d;
        executes = profile;
        clock = clock;
        opened = opened;
        not_over = closed;
        signed = signed;
        bounded = bounded;
      })
