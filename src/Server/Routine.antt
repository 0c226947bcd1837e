-- ===== src/Server/Routine.antt =====
-- internal/server/jobsapi.go and internal/agent/execute.go: a routine job that the control plane
-- signs is one that its agents take.
use hostseal.Base.{
  ◌+◌, ◌-◌, ◌≡◌, ◌≢◌, refl, subst, String, true, Option, none, some, some_inj, [], ◌∷◌, eq_iff,
  Bytes,
}
use hostseal.Intent.Names.{routine}
use hostseal.Intent.Catalogue.{Spec}
use hostseal.Policy.Time.{Time}
use hostseal.Signing.{PublicKey}
use hostseal.Agent.Job.{Job, signed_payload}
use hostseal.Agent.Accept.{Agent, max_skew}
use hostseal.Server.Jobs.{
  JobRequest, OnlineKey, Config, NewIds, copied, class_name, numbered, routine_window,
  with_signature, sign_payload, sign_routine, unsigned_job, build_job, routine_job_validity,
}

-- The job carries a signature by the server's key over what it says, for this host.
pub record Signed (c : Config) (host : String) (now : Time) (j : Job) : Type 0 where
  pub key : OnlineKey
  pub payload : Bytes
  pub sig : Bytes
  pub held : c.online_key ≡ some key
  pub covers : c.codec.marshal (signed_payload j host) ≡ some payload
  pub signs : key.sign payload ≡ some sig
  pub signature : j.signature ≡ c.encode64 sig
  pub signer : j.signer_key_id ≡ key.key_id
  pub opens : j.not_before ≡ now - max_skew
  pub closes : j.not_after ≡ now + routine_job_validity

module _ (c : Config) (host : String) (j : Job) (k : OnlineKey) where
  with_signature-Signed :
      (payload : Bytes) (o : Option Bytes) {signed : Job}
      → c.online_key ≡ some k
      → c.codec.marshal (signed_payload (routine_window j) host) ≡ some payload
      → k.sign payload ≡ o
      → with_signature c k (routine_window j) o ≡ some signed
      → Signed c host j.issued_at signed
  unfolding with_signature
  with_signature-Signed payload none h m s e = cc
  with_signature-Signed payload (some sig) h m s e =
      subst (Signed c host j.issued_at) (some_inj e) (record {
        key = k;
        payload = payload;
        sig = sig;
        held = h;
        covers = m;
        signs = s;
        signature = refl;
        signer = refl;
        opens = refl;
        closes = refl;
      })

  sign_payload-Signed :
      (o : Option Bytes) {signed : Job}
      → c.online_key ≡ some k
      → c.codec.marshal (signed_payload (routine_window j) host) ≡ o
      → sign_payload c k (routine_window j) o ≡ some signed
      → Signed c host j.issued_at signed
  unfolding sign_payload
  sign_payload-Signed none h m e = cc
  sign_payload-Signed (some payload) h m e =
      with_signature-Signed payload (k.sign payload) h m refl e

module _ (c : Config) (r : JobRequest) (s : Spec) (host : String) (now : Time) where
  sign_routine-Signed :
      (j : Job) (o : Option OnlineKey) {signed : Job}
      → c.online_key ≡ o
      → sign_routine c j host o ≡ some signed
      → Signed c host j.issued_at signed
  unfolding sign_routine
  sign_routine-Signed j none h e = cc
  sign_routine-Signed j (some k) h e =
      sign_payload-Signed c host j k (c.codec.marshal (signed_payload (routine_window j) host)) h
        refl e

  unsigned_job-Signed :
      (j : Job) (ids : NewIds) {signed : Job}
      → s.class ≡ routine
      → unsigned_job c s host j ids ≡ some signed
      → Signed c host j.issued_at signed
  unfolding unsigned_job
  unsigned_job-Signed j (some id, some nonce) cl e =
      sign_routine-Signed (numbered id nonce j) c.online_key refl (rw cl at e)
  unsigned_job-Signed j (none, _) cl e = cc
  unsigned_job-Signed j (some id, none) cl e = cc

  pub build_job-Signed :
      (ids : NewIds) {signed : Job}
      → s.class ≡ routine
      → r.signature ≡ ""
      → build_job c r s host now ids ≡ some signed
      → Signed c host now signed
  unfolding build_job
  build_job-Signed ids cl unsigned_ e =
      unsigned_job-Signed (copied r s (class_name s.class) now) ids cl
        (rw ((eq_iff r.signature "").1 unsigned_) at e)

-- An agent that was given the server's key: it holds that key and no other, writes canonical bytes as
-- the server does, and takes the signatures that the key makes, in their encoding.
pub record Paired (g : Agent) (c : Config) (k : OnlineKey) (p : PublicKey) : Type 0 where
  pub holds : g.online ≡ p ∷ []
  pub same_name : p.key_id ≡ k.key_id
  pub marshals : g.codec.marshal ≡ c.codec.marshal
  pub decodes : {m sig : Bytes} → k.sign m ≡ some sig → g.codec.decode64 (c.encode64 sig) ≡ some sig
  pub checks : {m sig : Bytes} → k.sign m ≡ some sig → g.codec.check p m sig ≡ true
  pub not_empty : {m sig : Bytes} → k.sign m ≡ some sig → c.encode64 sig ≢ ""
