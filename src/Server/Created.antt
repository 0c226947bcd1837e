-- ===== src/Server/Created.antt =====
-- internal/server/jobsapi.go: what stands behind a job that `handleCreateJob` queues.
use hostseal.Base.{
  ◌<◌, ◌≡◌, ◌≢◌, refl, sym, ◌∙◌, ap, subst, inl, inr, String, Bool, true, false, not, Option, none,
  some, some_inj, Result, ok, err, ok_inj, >>=-eq-ok, require, Bool-cases, if◌then◌else◌, str_eq,
  eq_iff, arith,
}
use hostseal.Json.{Raw}
use hostseal.Intent.Names.{Class, read, routine, destructive}
use hostseal.Intent.Params.{Params}
use hostseal.Intent.Catalogue.{Spec, decode, DecodeError}
use hostseal.Policy.Time.{Time}
use hostseal.Agent.Job.{Job}
use hostseal.Store.State.{Tenant, TenantRow, Host, NewJob, Memory, StoreError}
use hostseal.Store.Jobs.{find_host}
use hostseal.Store.Tenants.{get_tenant, requires_approval, requires_distinct_operator}
use hostseal.Server.Jobs.{
  JobRequest, Config, NewIds, Refusal, valid_job_id, has_key, carries_signature, check_class,
  re_encoded, known, validate_job_request, copied, class_name, numbered, unsigned_job, build_job,
  new_job, reachable_host, or_internal, tenant_read, malformed, unsupported_intent, prepare,
  revoked,
}
use hostseal.Server.Routine.{Signed, build_job-Signed}

-- What authorises a job of each class: an operator's signature, which is copied with everything it
-- covers, and the release that the tenant asks for; the server's own signature; or nothing.
pub data Authority (c : Config) (r : JobRequest) (now : Time) (row : TenantRow) (s : Spec)
    : Class → NewJob → Type 0 where
  by_signer :
      {n : NewJob}
      → r.signature ≢ ""
      → r.signer_key_id ≢ ""
      → r.nonce ≢ ""
      → valid_job_id r.id ≡ true
      → (r.not_before ≢ 0) × (r.not_before < r.not_after)
      → n.job ≡ copied r s "destructive" now
      → n.approval_required ≡ requires_approval row.approval_mode
      → n.approval_distinct_operator ≡ requires_distinct_operator row.approval_mode
      → Authority c r now row s destructive n
  by_server :
      {n : NewJob}
      → Signed c r.host_id now n.job
      → n.approval_required ≡ false
      → Authority c r now row s routine n
  by_connection :
      {n : NewJob}
      → n.job.signature ≡ ""
      → n.job.not_before ≡ 0
      → n.approval_required ≡ false
      → Authority c r now row s read n

-- What is true of a record that was created.
pub record Lawful (c : Config) (t : Tenant) (by : String) (r : JobRequest) (now : Time) (m : Memory)
    (n : NewJob) : Type 0 where
  pub spec : Spec
  pub params : Params
  pub raw : Raw
  pub host : Host
  pub row : TenantRow
  pub encodes : c.codec.encode r.params ≡ some raw
  pub decodes : decode r.intent raw ≡ ok (spec, params)
  pub executable : spec.implemented ≡ true
  pub hosted : find_host t r.host_id m ≡ some host
  pub not_revoked : host.revoked ≡ false
  pub tenant : get_tenant t m ≡ ok row
  pub for_host : n.host_id ≡ r.host_id
  pub ordered_by : n.created_by ≡ by
  pub authority : Authority c r now row spec spec.class n

require-ok : (b : Bool) (e : Refusal) {u : Unit {0}} → require b e ≡ ok u → b ≡ true
require-ok true e h = refl
require-ok false e h = cc

re_encoded-ok : (o : Option Raw) {raw : Raw} → re_encoded o ≡ ok raw → o ≡ some raw
unfolding re_encoded
re_encoded-ok none h = cc
re_encoded-ok (some x) h = ap some (ok_inj h)

known-ok : (x : Result DecodeError (Spec × Params)) {y : Spec × Params} → known x ≡ ok y → x ≡ ok y
unfolding known
known-ok (err e) h = cc
known-ok (ok z) h = ap ok (ok_inj h)

unless_revoked :
    (x : Host) (b : Bool) {h : Host}
    → ◌≡◌ {A = Result Refusal Host} (if b then err revoked else ok x) (ok h)
    → (x ≡ h) × (b ≡ false)
unless_revoked x true e = cc
unless_revoked x false e = (ok_inj e, refl)

reachable-ok :
    (o : Option Host) {h : Host} → reachable_host o ≡ ok h → (o ≡ some h) × (h.revoked ≡ false)
unfolding reachable_host
reachable-ok none e = cc
reachable-ok (some x) e =
    let (f, b) = unless_revoked x x.revoked e in (ap some f, subst (λ h. h.revoked ≡ false) f b)

or_internal-ok : {A : Type 0} (o : Option A) {a : A} → or_internal o ≡ ok a → o ≡ some a
unfolding or_internal
or_internal-ok none h = cc
or_internal-ok (some x) h = ap some (ok_inj h)

tenant_read-ok :
    (x : Result StoreError TenantRow) {row : TenantRow} → tenant_read x ≡ ok row → x ≡ ok row
unfolding tenant_read
tenant_read-ok (err e) h = cc
tenant_read-ok (ok y) h = ap ok (ok_inj h)

module _ (c : Config) (r : JobRequest) (now : Time) (ids : NewIds) (row : TenantRow)
    (by : String) where
  carries_signature_lem : carries_signature r ≡ false → r.signature ≡ ""
  carries_signature_lem h = ground (arith, eq_iff r.signature "")

  unsigned_read :
      (s : Spec) (j : Job) (given : NewIds) {built : Job}
      → s.class ≡ read
      → j.signature ≡ ""
      → unsigned_job c s r.host_id j given ≡ some built
      → (built.signature ≡ "") × (built.not_before ≡ 0)
  unfolding unsigned_job
  unsigned_read s j (none, _) cl e h = cc
  unsigned_read s j (some id, none) cl e h = cc
  unsigned_read s j (some id, some nonce) cl e h =
      let f : numbered id nonce j ≡ _ = some_inj (rw cl at h) in
      subst (λ b. (b.signature ≡ "") × (b.not_before ≡ 0)) f (e, refl)

  build_job-read :
      (s : Spec) {j : Job}
      → s.class ≡ read
      → r.signature ≡ ""
      → build_job c r s r.host_id now ids ≡ some j
      → (j.signature ≡ "") × (j.not_before ≡ 0)
  unfolding build_job
  build_job-read s cl e h =
      unsigned_read s (copied r s (class_name s.class) now) ids cl e
        (rw ((eq_iff r.signature "").1 e) at h)

  build_job-copied :
      (s : Spec) {j : Job}
      → s.class ≡ destructive
      → r.signature ≢ ""
      → build_job c r s r.host_id now ids ≡ some j
      → j ≡ copied r s "destructive" now
  unfolding build_job
  build_job-copied s cl ne h = elim (Bool-cases (str_eq r.signature "")) [
    | inl e ↦ absurd (ne ((eq_iff r.signature "").0 e))
    | inr e ↦ let f = some_inj (rw (e, cl) at h) in sym f
  ]

  check_class-signed :
      check_class c r destructive ≡ ok tt
      → (r.signature ≢ "")
        × (r.signer_key_id ≢ "")
        × (r.nonce ≢ "")
        × (valid_job_id r.id ≡ true)
        × (r.not_before ≢ 0)
        × (r.not_before < r.not_after)
  unfolding check_class
  check_class-signed h =
      ground (arith, eq_iff r.signature "", eq_iff r.signer_key_id "", eq_iff r.nonce "")

  -- What `validateJobRequest` has tested of the class, and `buildJob` has done with it.
  class-Authority :
      (s : Spec) (k : Class) {j : Job}
      → s.class ≡ k
      → check_class c r k ≡ ok tt
      → build_job c r s r.host_id now ids ≡ some j
      → Authority c r now row s k (new_job r s by row j)
  unfolding check_class
  class-Authority s routine cl ch b = elim (Bool-cases (has_key c)) [
    | inr e ↦ absurd (cc (rw e at ch))
    | inl e ↦ elim (Bool-cases (carries_signature r)) [
      | inl f ↦ absurd (cc (rw (e, f) at ch))
      | inr f ↦
          by_server (build_job-Signed c r s r.host_id now ids cl (carries_signature_lem f) b)
            (rw cl refl)
    ]
  ]
  class-Authority s read cl ch b = elim (Bool-cases (carries_signature r)) [
    | inl f ↦ absurd (cc (rw f at ch))
    | inr f ↦
        let (e, z) = build_job-read s cl (carries_signature_lem f) b in
        by_connection e z (rw cl refl)
  ]
  class-Authority s destructive cl ch b =
      let (sig, key, nonce, id, nb, na) = check_class-signed ch in
      by_signer sig key nonce id (nb, na) (build_job-copied s cl sig b) (rw cl refl) (rw cl refl)

module _ (c : Config) (t : Tenant) (by : String) (r : JobRequest) (now : Time) (ids : NewIds)
    (m : Memory) where
  validated :
      {s : Spec} {a : Params}
      → validate_job_request c r ≡ ok (s, a)
      → (raw : Raw) × (c.codec.encode r.params ≡ some raw)
        × (decode r.intent raw ≡ ok (s, a))
        × (s.implemented ≡ true)
        × (check_class c r s.class ≡ ok tt)
  unfolding validate_job_request
  validated {s} {a} h =
      let (_, _, h1) = >>=-eq-ok (require (not (str_eq r.host_id "")) malformed) _ h in
      let (raw, e, h2) = >>=-eq-ok (re_encoded (c.codec.encode r.params)) _ h1 in
      let (found, d, h3) = >>=-eq-ok (known (decode r.intent raw)) _ h2 in
      let (u, k, h4) = >>=-eq-ok (check_class c r found.0.class) _ h3 in
      let (_, i, h5) = >>=-eq-ok (require found.0.implemented unsupported_intent) _ h4 in
      let same : found ≡ (s, a) = ok_inj h5 in
      let dec = known-ok (decode r.intent raw) d in
      (
        raw,
        re_encoded-ok (c.codec.encode r.params) e,
        dec ∙ ap ok same,
        subst (λ f. f.0.implemented ≡ true) same
            (require-ok found.0.implemented unsupported_intent i),
        subst (λ f. check_class c r f.0.class ≡ ok tt) same k,
      )

  pub prepare-Lawful : {n : NewJob} → prepare c t by r now ids m ≡ ok n → Lawful c t by r now m n
  unfolding prepare
  prepare-Lawful h =
      let ((s, a), v, h1) = >>=-eq-ok (validate_job_request c r) _ h in
      let (host, f, h2) = >>=-eq-ok (reachable_host (find_host t r.host_id m)) _ h1 in
      let (job, b, h3) = >>=-eq-ok (or_internal (build_job c r s r.host_id now ids)) _ h2 in
      let (row, g, h4) = >>=-eq-ok (tenant_read (get_tenant t m)) _ h3 in
      let (raw, e, d, i, k) = validated v in
      let (hf, hr) = reachable-ok (find_host t r.host_id m) f in
      let built = or_internal-ok (build_job c r s r.host_id now ids) b in
      subst (Lawful c t by r now m) (ok_inj h4) (record {
        spec = s;
        params = a;
        raw = raw;
        host = host;
        row = row;
        encodes = e;
        decodes = d;
        executable = i;
        hosted = hf;
        not_revoked = hr;
        tenant = tenant_read-ok (get_tenant t m) g;
        for_host = refl;
        ordered_by = refl;
        authority = class-Authority c r now ids row by s s.class refl k built;
      })
