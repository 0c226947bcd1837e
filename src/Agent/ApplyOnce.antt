-- ===== src/Agent/ApplyOnce.antt =====
-- internal/agent/enroll.go and bootstrap.go: enrolments of one host, one after the other.
use hostseal.Base.{
  ◌≡◌, ◌≤◌, ◌⊎◌, append-nil, refl, sym, ◌∙◌, ap, subst, inl, inr, String, Bool, true, false, not,
  ◌&&◌, ◌||◌, Option, none, some, List, [], ◌∷◌, ◌++◌, Result, ok, err, Bytes, equal, In, str_eq,
  if◌then◌else◌, arith, length,
}
use hostseal.Signing.{PublicKey, SignerSet, is_empty}
use hostseal.Server.Jobs.{valid_job_id}
use hostseal.Agent.Enrol.{
  Crypto, Bootstrap, EnrollResponse, Disk, EnrolError, failed, World, is_missing, Left,
  apply_bootstrap, conclude, settle, verified, answered, anchored, enroll,
}
use hostseal.Agent.Templates.{enroll-Authorised}

-- Enrolments of one host, each with the template that it names and what the world answers, and the
-- templates that cloud-init was run on in all of them.
unfoldable pub enrolments : Crypto → List (Bytes × World) → Disk → List Bootstrap
enrolments c [] d = []
enrolments c ((want, w) ∷ rest) d = let (n, r, bs) = enroll c want w d in bs ++ enrolments c rest n

-- One template at most, and a record that is there stays.
Modest : Disk → Left → Type 0
Modest d x =
    (length x.2 ≤ 1)
    × ((is_missing d.bootstrap_record ≡ false) → is_missing x.0.bootstrap_record ≡ false)

either_way :
    (d : Disk) (b : Bool) (x y : Left) → Modest d x → Modest d y → Modest d (if b then x else y)
either_way d true x y p q = p
either_way d false x y p q = q

idle :
    (d n : Disk) (r : Result EnrolError String)
    → n.bootstrap_record ≡ d.bootstrap_record
    → Modest d (n, r, [])
unfolding Modest
idle d n r e = (omega arith, λ h. ap is_missing e ∙ h)

apply_bootstrap-Modest :
    (w : World) (d n : Disk) (host : String) (b : Bootstrap) (key : PublicKey)
    → n.bootstrap_record ≡ d.bootstrap_record
    → Modest d (apply_bootstrap w n host b key)
unfolding apply_bootstrap Modest
apply_bootstrap-Modest w d n host b key e =
    either_way d (not w.record_written || not (is_missing n.bootstrap_record)) _ _
      (idle d n (err failed) e)
      (either_way d (not (valid_job_id host) || not w.seed_written) _ _ (omega arith, λ h. refl)
        (omega arith, λ h. refl))

conclude-Modest :
    (w : World) (d n : Disk) (host : String) (o : Option (Bootstrap × PublicKey))
    → n.bootstrap_record ≡ d.bootstrap_record
    → Modest d (conclude w n host o)
unfolding conclude
conclude-Modest w d n host none e = idle d n (if w.adopted_again then ok host else err _) e
conclude-Modest w d n host (some (b, key)) e = apply_bootstrap-Modest w d n host b key e

settle-Modest :
    (w : World) (d : Disk) (res : EnrollResponse)
    (t : Result EnrolError (Option (Bootstrap × PublicKey)))
    → Modest d (settle w d res t)
unfolding settle
settle-Modest w d res (err e) = idle d d (err e) refl
settle-Modest w d res (ok o) = either_way d (not w.credential_written) _ _ (idle d d _ refl) (
    either_way d (not (str_eq res.ca_bundle "") && not w.ca_written) _ _ (idle d _ _ refl) (
      either_way d (not w.state_written) _ _ (idle d _ _ refl) (
        either_way d (not w.adopted) _ _ (idle d _ _ refl)
          (conclude-Modest w d _ res.host_id o refl))))

answered-Modest :
    (c : Crypto) (want : Bytes) (w : World) (d : Disk) (ks : SignerSet) (o : Option EnrollResponse)
    → Modest d (answered c want w d ks o)
unfolding answered
answered-Modest c want w d ks none = idle d d _ refl
answered-Modest c want w d ks (some res) =
    either_way d (str_eq res.host_id "" || str_eq res.certificate "") _ _ (idle d d _ refl) (
      either_way d (not (valid_job_id res.host_id)) _ _ (idle d d _ refl)
        (settle-Modest w d res (verified c want d ks res.bootstrap)))

anchored-Modest :
    (c : Crypto) (want : Bytes) (w : World) (d : Disk) (o : Option SignerSet)
    → Modest d (anchored c want w d o)
unfolding anchored
anchored-Modest c want w d none = idle d d _ refl
anchored-Modest c want w d (some ks) = either_way d (is_empty ks) _ _ (idle d d _ refl) (
    either_way d (not (is_missing d.bootstrap_record)) _ _ (idle d d _ refl)
      (answered-Modest c want w d ks w.response))

enroll-Modest : (c : Crypto) (want : Bytes) (w : World) (d : Disk) → Modest d (enroll c want w d)
unfolding enroll
enroll-Modest c want w d =
    either_way d (equal want []) _ _ (answered-Modest c want w d [] w.response)
      (anchored-Modest c want w d w.anchor)

no_members : (bs : List Bootstrap) → ((b : Bootstrap) → ¬ (In b bs)) → bs ≡ []
no_members [] h = refl
no_members (b ∷ bs) h = absurd (h b (inl refl))

barred :
    (c : Crypto) (want : Bytes) (w : World) (d : Disk)
    → is_missing d.bootstrap_record ≡ false
    → (enroll c want w d).2 ≡ []
barred c want w d e = no_members (enroll c want w d).2 (λ b i.
    let (ks, _, a) = enroll-Authorised c want w d b i in absurd (cc (e, ap is_missing a.first)))

enrolments-barred :
    (c : Crypto) (runs : List (Bytes × World)) (d : Disk)
    → is_missing d.bootstrap_record ≡ false
    → enrolments c runs d ≡ []
unfolding enrolments Modest
enrolments-barred c [] d e = refl
enrolments-barred c ((want, w) ∷ runs) d e =
    let n = (enroll c want w d).0 in
    ap (λ bs. bs ++ enrolments c runs n) (barred c want w d e)
    ∙ enrolments-barred c runs n ((enroll-Modest c want w d).1 e)

-- What is run leaves a record.
marked :
    (c : Crypto) (want : Bytes) (w : World) (d : Disk) (bs : List Bootstrap)
    → (enroll c want w d).2 ≡ bs
    → (bs ≡ []) ⊎ (is_missing (enroll c want w d).0.bootstrap_record ≡ false)
marked c want w d [] e = inl refl
marked c want w d (b ∷ bs) e =
    let (ks, _, a) = enroll-Authorised c want w d b (subst (In b) (sym e) (inl refl)) in
    inr (ap is_missing a.written)

-- However often a host is enrolled, with whatever templates, answers, failures and crashes, cloud-init
-- is run on one template at most.
pub enrolments-once :
    (c : Crypto) (runs : List (Bytes × World)) (d : Disk) → length (enrolments c runs d) ≤ 1
unfolding enrolments Modest
enrolments-once c [] d = omega arith
enrolments-once c ((want, w) ∷ runs) d = elim (marked c want w d (enroll c want w d).2 refl) [
  | inl e ↦
      let n = (enroll c want w d).0 in
      subst (λ bs. length (bs ++ enrolments c runs n) ≤ 1) (sym e) (enrolments-once c runs n)
  | inr e ↦
      let n = (enroll c want w d).0 in
      subst (λ bs. length bs ≤ 1)
        (sym (
          ap (λ bs. (enroll c want w d).2 ++ bs) (enrolments-barred c runs n e)
          ∙ append-nil (enroll c want w d).2))
        (enroll-Modest c want w d).0
]
