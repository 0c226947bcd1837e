-- ===== src/Store/Apart.antt =====
-- internal/store: what one tenant sees of the store.
use hostseal.Base.{
  ◌≡◌, ◌≢◌, refl, sym, ◌∙◌, ap, inl, inr, String, false, not, Option, none, some, List, Bool-cases,
  str_eq, eq_iff, if◌then◌else◌, arith,
}
use hostseal.Base.Assoc.{get, put, get-put, get-put_other, get-keep_keys}
use hostseal.Store.State.{Tenant, TokenRow, Certificate, ScopedKey, scoped, by_id, Memory, set}
use hostseal.Store.Jobs.{find_host}
use hostseal.Store.Tenants.{is_of, sweep}

-- The row, if it is the tenant's.
abbrev pub owned : {V : Type 0} → (V → Tenant) → Tenant → Option V → Option V
owned owner u none = none
owned owner u (some v) = if str_eq (owner v) u then some v else none

abbrev pub token_of : Tenant → String → Memory → Option TokenRow
token_of u hash m = owned (λ r. r.tenant) u (get by_id hash m.tokens)

abbrev pub cert_of : Tenant → String → Memory → Option Certificate
cert_of u fp m = owned (λ c. c.tenant_id) u (get by_id fp m.certs)

-- The tenant finds in the second store what it found in the first: itself, its tokens, its hosts,
-- its certificates, the queues of its hosts, its jobs and their results.
pub record Undisturbed (u : Tenant) (m n : Memory) : Type 0 where
  pub row : get by_id u n.tenants ≡ get by_id u m.tenants
  pub token : (hash : String) → token_of u hash n ≡ token_of u hash m
  pub host : (id : String) → find_host u id n ≡ find_host u id m
  pub cert : (fp : String) → cert_of u fp n ≡ cert_of u fp m
  pub queue : (id : String) → n.jobs (u, id) ≡ m.jobs (u, id)
  pub job : (id : String) → get scoped (u, id) n.records ≡ get scoped (u, id) m.records
  pub result : (id : String) → n.results (u, id) ≡ m.results (u, id)

pub same_store : (u : Tenant) (m : Memory) → Undisturbed u m m
same_store u m = record {
  row = refl;
  token = λ h. refl;
  host = λ i. refl;
  cert = λ i. refl;
  queue = λ i. refl;
  job = λ i. refl;
  result = λ i. refl;
}

pub Undisturbed-trans :
    (u : Tenant) (m n o : Memory) → Undisturbed u m n → Undisturbed u n o → Undisturbed u m o
Undisturbed-trans u m n o a b = record {
  row = b.row ∙ a.row;
  token = λ h. b.token h ∙ a.token h;
  host = λ i. b.host i ∙ a.host i;
  cert = λ i. b.cert i ∙ a.cert i;
  queue = λ i. b.queue i ∙ a.queue i;
  job = λ i. b.job i ∙ a.job i;
  result = λ i. b.result i ∙ a.result i;
}

pub differ : (a b : String) → a ≢ b → str_eq a b ≡ false
differ a b ne = ground (arith, ne, eq_iff a b)

module _ {V : Type 0} (owner : V → Tenant) (t u : Tenant) (ne : t ≢ u) where
  owned_other : (v : V) → owner v ≡ t → owned owner u (some v) ≡ none
  owned_other v e = rw (e, differ t u ne) refl

  -- A write under a key that holds nothing of the tenant.
  pub owned-put :
      (k : String) (v : V) (rows : List (String × V)) (id : String)
      → owner v ≡ t
      → owned owner u (get by_id k rows) ≡ none
      → owned owner u (get by_id id (put by_id k v rows)) ≡ owned owner u (get by_id id rows)
  owned-put k v rows id e h = elim (Bool-cases (str_eq k id)) [
    | inl same ↦
        let f : k ≡ id = (eq_iff k id).0 same in
        rw (← f, get-put by_id k v rows, owned_other v e, h) refl
    | inr other ↦ rw (get-put_other by_id k id v rows (λ f. cc ((eq_iff k id).1 f, other))) refl
  ]

  owned-swept :
      (o : Option V) → owned owner u (if not (is_of owner t o) then o else none) ≡ owned owner u o
  owned-swept none = refl
  owned-swept (some v) = elim (Bool-cases (str_eq (owner v) t)) [
    | inl e ↦ rw e (sym (owned_other v ((eq_iff (owner v) t).0 e)))
    | inr e ↦ rw e refl
  ]

  pub owned-sweep :
      (rows : List (String × V)) (id : String)
      → owned owner u (get by_id id (sweep owner t rows)) ≡ owned owner u (get by_id id rows)
  owned-sweep rows id =
      rw (get-keep_keys by_id (λ k. not (is_of owner t (get by_id k rows))) id rows)
        (owned-swept (get by_id id rows))

module _ (t u : Tenant) (ne : t ≢ u) where
  pub apart_keys : (a b : String) → ◌≢◌ {A = ScopedKey} (t, a) (u, b)
  apart_keys a b e = ne (ap (λ k. k.0) e)

  pub set-apart :
      {V : Type 0} (a : String) (v : V) (f : ScopedKey → V) (b : String)
      → set (t, a) v f (u, b) ≡ f (u, b)
  unfolding set
  set-apart a v f b = rw (differ t u ne) refl
