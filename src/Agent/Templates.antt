-- ===== src/Agent/Templates.antt =====
-- internal/agent/enroll.go and bootstrap.go: what an enrolment runs cloud-init on, and how often.
use hostseal.Base.{
  ◌≡◌, refl, ap, subst, inl, inr, String, Bool, true, false, not, ◌&&◌, ◌||◌, Option, none, some,
  [], ◌∷◌, Result, ok, err, ok_inj, Bytes, equal, equal_iff, Bool-cases, In, str_eq, if◌then◌else◌,
}
use hostseal.Signing.{PublicKey, SignerSet, is_empty, verify, verify_sound}
use hostseal.Canonical.Strings.{WriteError}
use hostseal.Canonical.Write.{write}
use hostseal.Server.Jobs.{valid_job_id}
use hostseal.Agent.Enrol.{
  Crypto, Bootstrap, EnrollResponse, missing, recorded, unreadable, Disk, EnrolError, failed,
  refused, incomplete, bad_host_id, no_trust_anchor, already_applied, World, is_missing,
  template_document, decoded_signature, checked_by, check_template, verify_bootstrap, Left,
  apply_bootstrap, conclude, settle, with_template, verified, answered, anchored, enroll,
}

-- A key of the set checks the template's own signature over its name and body.
abbrev pub SignedBy : Crypto → SignerSet → Bootstrap → PublicKey → Type 0
SignedBy c ks b key =
    In key ks
    × ((payload : Bytes) × (sig : Bytes) × (write (template_document b.name b.body) ≡ ok payload)
        × (decoded_signature c b.signature ≡ some sig)
        × (c.check key payload sig ≡ true))

-- Why cloud-init was run on this template, and what is on the disk by then.
pub record Authorised (c : Crypto) (want : Bytes) (keys : SignerSet) (d n : Disk) (b : Bootstrap)
    : Type 0 where
  pub key : PublicKey
  pub signed : SignedBy c keys b key
  pub named : b.name ≡ want
  pub first : d.bootstrap_record ≡ missing
  pub written :
      n.bootstrap_record
      ≡ recorded (record { name = b.name; body = b.body; signer_key_id = key.key_id })
  pub enrolled : (host : String) × (n.host_id ≡ some host)
  pub able : (certificate : String) × (n.credential ≡ some certificate)

missing_iff : (d : Disk) → is_missing d.bootstrap_record ≡ true → d.bootstrap_record ≡ missing
missing_iff d e = by_file d.bootstrap_record e
  where
    by_file : (f : _) → is_missing f ≡ true → f ≡ missing
    by_file missing e = refl
    by_file (recorded r) e = cc
    by_file unreadable e = cc

checked_by-ok : (o : Option PublicKey) (key : PublicKey) → checked_by o ≡ ok key → o ≡ some key
unfolding checked_by
checked_by-ok none key e = absurd (cc (e))
checked_by-ok (some k) key e = ap some (ok_inj e)

check_template-SignedBy :
    (c : Crypto) (ks : SignerSet) (b : Bootstrap) (s : Option Bytes) (p : Result WriteError Bytes)
    (key : PublicKey)
    → decoded_signature c b.signature ≡ s
    → write (template_document b.name b.body) ≡ p
    → check_template c ks s p ≡ ok key
    → SignedBy c ks b key
unfolding check_template
check_template-SignedBy c ks b none p key es ep e = absurd (cc (e))
check_template-SignedBy c ks b (some sig) (err x) key es ep e = absurd (cc (e))
check_template-SignedBy c ks b (some sig) (ok payload) key es ep e =
    let (i, good) =
      verify_sound c.check ks payload sig (checked_by-ok (verify c.check ks payload sig) key e) in
    (i, (payload, sig, ep, es, good))

verify_bootstrap-SignedBy :
    (c : Crypto) (d : Disk) (ks : SignerSet) (b : Bootstrap) (key : PublicKey)
    → verify_bootstrap c d ks b ≡ ok key
    → SignedBy c ks b key × (d.bootstrap_record ≡ missing)
unfolding verify_bootstrap
verify_bootstrap-SignedBy c d ks b key e = elim (Bool-cases (is_missing d.bootstrap_record)) [
  | inr x ↦ absurd (cc (rw x at e))
  | inl x ↦ elim (Bool-cases (is_empty ks)) [
    | inl y ↦ absurd (cc (rw (x, y) at e))
    | inr y ↦ (
      check_template-SignedBy c ks b (decoded_signature c b.signature)
          (write (template_document b.name b.body)) key refl refl (rw (x, y) at e),
      missing_iff d x,
    )
  ]
]

-- What is verified, if anything: a template that was asked for.
abbrev Verified : Crypto → Bytes → Disk → SignerSet → Option (Bootstrap × PublicKey) → Type 0
Verified c want d ks none = Unit
Verified c want d ks (some (b, key)) =
    SignedBy c ks b key × (b.name ≡ want) × (d.bootstrap_record ≡ missing)

with_template-Verified :
    (c : Crypto) (want : Bytes) (d : Disk) (ks : SignerSet) (b : Bootstrap)
    (r : Result EnrolError PublicKey) (o : Option (Bootstrap × PublicKey))
    → b.name ≡ want
    → verify_bootstrap c d ks b ≡ r
    → with_template b r ≡ ok o
    → Verified c want d ks o
with_template-Verified c want d ks b (err x) o n v e = absurd (cc (e))
with_template-Verified c want d ks b (ok key) o n v e =
    let (s, m) = verify_bootstrap-SignedBy c d ks b key v in
    subst (Verified c want d ks) (ok_inj e) (s, n, m)

verified-Verified :
    (c : Crypto) (want : Bytes) (d : Disk) (ks : SignerSet) (t : Option Bootstrap)
    (o : Option (Bootstrap × PublicKey))
    → verified c want d ks t ≡ ok o
    → Verified c want d ks o
unfolding verified
verified-Verified c want d ks none o e = elim (Bool-cases (equal want [])) [
  | inl x ↦ subst (Verified c want d ks) (ok_inj (rw x at e)) tt
  | inr x ↦ absurd (cc (rw x at e))
]
verified-Verified c want d ks (some b) o e = elim (Bool-cases (equal want [])) [
  | inl x ↦ subst (Verified c want d ks) (ok_inj (rw x at e)) tt
  | inr x ↦ elim (Bool-cases (equal b.name want)) [
    | inr y ↦ absurd (cc (rw (x, y) at e))
    | inl y ↦
        with_template-Verified c want d ks b (verify_bootstrap c d ks b) o
          ((equal_iff b.name want).0 y) refl (rw (x, y) at e)
  ]
]

-- All that cloud-init was run on is authorised.
abbrev Lawful : Crypto → Bytes → SignerSet → Disk → Left → Type 0
Lawful c want ks d x = (b : Bootstrap) → In b x.2 → Authorised c want ks d x.0 b

-- A run that hands nothing to cloud-init.
idle :
    (c : Crypto) (want : Bytes) (ks : SignerSet) (d n : Disk) (r : Result EnrolError String)
    → Lawful c want ks d (n, r, [])
idle c want ks d n r b i = absurd (i tt)

either_way :
    (c : Crypto) (want : Bytes) (ks : SignerSet) (d : Disk) (b : Bool) (x y : Left)
    → Lawful c want ks d x
    → Lawful c want ks d y
    → Lawful c want ks d (if b then x else y)
either_way c want ks d true x y p q = p
either_way c want ks d false x y p q = q

alone :
    (c : Crypto) (want : Bytes) (ks : SignerSet) (d n : Disk) (r : Result EnrolError String)
    (b : Bootstrap)
    → Authorised c want ks d n b
    → Lawful c want ks d (n, r, b ∷ [])
alone c want ks d n r b a b' (inl q) = subst (Authorised c want ks d n) q a
alone c want ks d n r b a b' (inr q) = absurd (q tt)

apply_bootstrap-Lawful :
    (c : Crypto) (want : Bytes) (ks : SignerSet) (w : World) (d n : Disk)
    (host certificate : String) (b : Bootstrap) (key : PublicKey)
    → Verified c want d ks (some (b, key))
    → n.host_id ≡ some host
    → n.credential ≡ some certificate
    → Lawful c want ks d (apply_bootstrap w n host b key)
unfolding apply_bootstrap
apply_bootstrap-Lawful c want ks w d n host certificate b key (s, e, m) h k =
    either_way c want ks d (not w.record_written || not (is_missing n.bootstrap_record)) _ _
      (idle c want ks d n (err failed))
      (either_way c want ks d (not (valid_job_id host) || not w.seed_written) _ _
        (idle c want ks d _ (err failed))
        (alone c want ks d _ (if w.applied && w.adopted_again then ok host else err failed) b
          (record {
            key = key;
            signed = s;
            named = e;
            first = m;
            written = refl;
            enrolled = (host, h);
            able = (certificate, k);
          })))

conclude-Lawful :
    (c : Crypto) (want : Bytes) (ks : SignerSet) (w : World) (d n : Disk)
    (host certificate : String) (o : Option (Bootstrap × PublicKey))
    → Verified c want d ks o
    → n.host_id ≡ some host
    → n.credential ≡ some certificate
    → Lawful c want ks d (conclude w n host o)
unfolding conclude
conclude-Lawful c want ks w d n host certificate none v h k =
    idle c want ks d n (if w.adopted_again then ok host else err failed)
conclude-Lawful c want ks w d n host certificate (some (b, key)) v h k =
    apply_bootstrap-Lawful c want ks w d n host certificate b key v h k

settle-Lawful :
    (c : Crypto) (want : Bytes) (ks : SignerSet) (w : World) (d : Disk) (res : EnrollResponse)
    (t : Result EnrolError (Option (Bootstrap × PublicKey)))
    → ((o : Option (Bootstrap × PublicKey)) → t ≡ ok o → Verified c want d ks o)
    → Lawful c want ks d (settle w d res t)
unfolding settle
settle-Lawful c want ks w d res (err e) v = idle c want ks d d (err e)
settle-Lawful c want ks w d res (ok o) v =
    either_way c want ks d (not w.credential_written) _ _ (idle c want ks d d (err failed)) (
      either_way c want ks d (not (str_eq res.ca_bundle "") && not w.ca_written) _ _
        (idle c want ks d _ (err failed))
        (either_way c want ks d (not w.state_written) _ _ (idle c want ks d _ (err failed)) (
          either_way c want ks d (not w.adopted) _ _ (idle c want ks d _ (err failed))
            (conclude-Lawful c want ks w d _ res.host_id res.certificate o (v o refl) refl refl))))

answered-Lawful :
    (c : Crypto) (want : Bytes) (w : World) (d : Disk) (ks : SignerSet) (o : Option EnrollResponse)
    → Lawful c want ks d (answered c want w d ks o)
unfolding answered
answered-Lawful c want w d ks none = idle c want ks d d (err refused)
answered-Lawful c want w d ks (some res) =
    either_way c want ks d (str_eq res.host_id "" || str_eq res.certificate "") _ _
      (idle c want ks d d (err incomplete))
      (either_way c want ks d (not (valid_job_id res.host_id)) _ _
        (idle c want ks d d (err bad_host_id))
        (settle-Lawful c want ks w d res (verified c want d ks res.bootstrap)
          (verified-Verified c want d ks res.bootstrap)))

anchored-Lawful :
    (c : Crypto) (want : Bytes) (w : World) (d : Disk) (o : Option SignerSet)
    → w.anchor ≡ o
    → (b : Bootstrap) → In b (anchored c want w d o).2
    → (ks : SignerSet) × (w.anchor ≡ some ks) × Authorised c want ks d (anchored c want w d o).0 b
unfolding anchored
anchored-Lawful c want w d none e b i = absurd (i tt)
anchored-Lawful c want w d (some ks) e b i = (
  ks,
  e,
  either_way c want ks d (is_empty ks) _ _ (idle c want ks d d (err no_trust_anchor))
      (either_way c want ks d (not (is_missing d.bootstrap_record)) _ _
        (idle c want ks d d (err already_applied)) (answered-Lawful c want w d ks w.response))
      b i,
)

-- Whatever the control plane answers and whatever fails, an enrolment runs cloud-init on a template
-- only if a key in the host's own trust anchor checks the template's signature over its name and
-- body, it has the name that was asked for, and no template was recorded before. By then the disk
-- holds the credential, the id of the host, and a record of this template and this key.
pub enroll-Authorised :
    (c : Crypto) (want : Bytes) (w : World) (d : Disk) (b : Bootstrap)
    → In b (enroll c want w d).2
    → (ks : SignerSet) × (w.anchor ≡ some ks) × Authorised c want ks d (enroll c want w d).0 b
unfolding enroll
enroll-Authorised c want w d b i = elim (Bool-cases (equal want [])) [
  | inl e ↦ let a = answered-Lawful c want w d [] w.response b (rw e at i) in absurd (a.signed.0 tt)
  | inr e ↦ rw e (anchored-Lawful c want w d w.anchor refl b (rw e at i))
]
