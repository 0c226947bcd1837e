-- ===== src/Auth/Windows.antt =====
-- internal/auth/accounts.go: who a cookie authenticates, and for how long.
use hostseal.Base.{
  ℕ, ◌+◌, ◌≤◌, ◌<◌, ◌≡◌, refl, sym, ap, subst, String, Bool, true, false, not, ◌||◌, Option, none,
  some, some_inj, inl, inr, List, [], ok, ok_inj, ltb, All, Bool-cases, arith,
}
use hostseal.Base.Int.{ℤ, pos, negsuc}
use hostseal.Base.Assoc.{get, All-get}
use hostseal.Policy.Time.{Time}
use hostseal.Store.State.{by_id}
use hostseal.Auth.Sessions.{
  Account, Session, Rows, is_valid, with_account, found_session, session_by_token, Accounts, larger,
  ttl_or_default, max_age_for, new_accounts, within_max_age, since, admit_session, authenticate,
}
use hostseal.Auth.Lifetime.{
  Act, acts, Dated, SignedIn, Bounded, found_session-session, acts-IsBounded,
}

larger_ge : (m n : ℕ) → n ≤ larger m n
larger_ge m n = ground arith

max_age_ge : (t : ℕ) (max : ℤ) → t ≤ max_age_for t max
max_age_ge t (negsuc n) = larger_ge _ t
max_age_ge t (pos n) = elim (Bool-cases (ltb n t)) [
  | inl e ↦ rw e (larger_ge _ t)
  | inr e ↦ rw e (ground arith)
]

windows_lem : (ttl max : ℤ) → (new_accounts ttl max).ttl ≤ (new_accounts ttl max).max_age
unfolding new_accounts
windows_lem ttl max = max_age_ge (ttl_or_default ttl) max

-- The row of a session that is within both of its windows.
abbrev pub Open : Accounts → Time → Session → Type 0
Open a now s = (now < s.created_at + a.max_age) × (now < since s + a.ttl)

admitted :
    (a : Accounts) (now : Time) (m : Rows) (o : Option (Session × Account)) {account : Account}
    → (admit_session a now m o).1 ≡ ok account
    → (s : Session) × (o ≡ some (s, account))
      × (now < s.expires_at)
      × (now < s.created_at + a.max_age)
unfolding admit_session
admitted a now m none e = absurd (cc (e))
admitted a now m (some (s, b)) e =
    elim (Bool-cases (not (is_valid s now) || not (within_max_age a s now))) [
      | inl f ↦ absurd (cc (rw f at e))
      | inr f ↦ (s, ap (λ x. some (s, x)) (ok_inj (rw f at e)), ground arith, ground arith)
    ]

authenticated :
    (a : Accounts) (hash : String) (header : Bool) (now : Time) (m : Rows) {account : Account}
    → (authenticate a (some hash) header now m).1 ≡ ok account
    → (header ≡ true)
      × ((s : Session) × (session_by_token hash m ≡ some (s, account))
          × (now < s.expires_at)
          × (now < s.created_at + a.max_age))
unfolding authenticate
authenticated a hash false now m e = absurd (cc (e))
authenticated a hash true now m e = (refl, admitted a now m (session_by_token hash m) e)

with_account-account :
    (s t : Session) (o : Option Account) {account : Account}
    → with_account t o ≡ some (s, account)
    → o ≡ some account
with_account-account s t none e = cc
with_account-account s t (some b) e = ap (λ x. some x.1) (some_inj e)

pub found_session-account :
    (m : Rows) (s : Session) (o : Option Session) {account : Account}
    → found_session m o ≡ some (s, account)
    → get by_id s.account_id m.accounts ≡ some account
found_session-account m s none e = cc
found_session-account m s (some t) {account} e =
    let same : t ≡ s = some_inj (found_session-session m s (some t) e) in
    subst (λ x. get by_id x.account_id m.accounts ≡ some account) same
      (with_account-account s t (get by_id t.account_id m.accounts) e)

-- Whoever a cookie authenticates, after any sign-ins, requests and sign-outs from a store without
-- sessions, sent the header too; the store holds a session under this cookie; somebody signed in to
-- that account, with its password, and was given the cookie for it; that was less than the greatest
-- age ago, and by the row that is stored the session was made or last renewed less than the idle
-- window ago. The requests are dated.
pub authenticate-Open :
    (ttl max : ℤ) (past : List Act) (m : Rows) (hash : String) (header : Bool) (now : Time)
    (account : Account)
    → All Dated past
    → m.sessions ≡ []
    → (authenticate
        (new_accounts ttl max)
        (some hash)
        header
        now
        (acts (new_accounts ttl max) past m)).1
      ≡ ok account
    → (header ≡ true)
      × ((s : Session) × (get by_id hash (acts (new_accounts ttl max) past m).sessions ≡ some s)
          × (get by_id s.account_id (acts (new_accounts ttl max) past m).accounts ≡ some account)
          × SignedIn past hash s
          × Open (new_accounts ttl max) now s)
unfolding session_by_token
authenticate-Open ttl max past m hash header now account d empty e =
    let a = new_accounts ttl max in
    let n = acts a past m in
    let (sent, rest) = authenticated a hash header now n e in
    let (s, found, valid, young) = rest in
    let start = subst (λ x. All (Bounded a []) x) (sym empty) tt in
    let row = found_session-session n s (get by_id hash n.sessions) found in
    let (_, idle, _, signed) =
      All-get by_id (Bounded a past) hash n.sessions
        (acts-IsBounded a (windows_lem ttl max) past m d start) row in
    (
      sent,
      (
        s,
        row,
        found_session-account n s (get by_id hash n.sessions) found,
        signed,
        (young, ground arith),
      ),
    )
