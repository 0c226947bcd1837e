-- ===== src/Auth/Sessions.antt =====
-- internal/auth/accounts.go: `NewAccounts`, `Authenticate`, `renew`, `SignIn` and `SignOut`, over the
-- accounts and sessions of internal/store/memory_accounts.go. Passwords, the random token and its hash
-- are parameters; what is shown of an identity is not kept.
use hostseal.Base.{
  ℕ, zero, suc, ◌+◌, ◌*◌, String, Bool, false, not, ◌&&◌, ◌||◌, Option, none, some, List, Result,
  ok, err, str_eq, ltb, leb, if◌then◌else◌, keep,
}
use hostseal.Base.Int.{ℤ, pos, negsuc, ltb_ℤ, sub_saturating}
use hostseal.Base.Assoc.{get, put, delete}
use hostseal.Policy.Time.{Time, is_zero, second, minute}
use hostseal.Store.State.{Tenant, by_id}

pub record Account : Type 0 where
  pub id : String
  pub tenant_id : Tenant

pub record Session : Type 0 where
  pub token_hash : String
  pub account_id : String
  pub created_at : Time
  pub expires_at : Time
  pub last_used_at : Time

pub record Rows : Type 0 where
  pub accounts : List (String × Account)
  pub sessions : List (String × Session)

pub data AuthError : Type 0 where
  unauthenticated no_such_account : AuthError

-- `Session.Valid`
abbrev pub is_valid : Session → Time → Bool
is_valid s now = ltb now s.expires_at

abbrev pub with_account : Session → Option Account → Option (Session × Account)
with_account s none = none
with_account s (some a) = some (s, a)

abbrev pub found_session : Rows → Option Session → Option (Session × Account)
found_session m none = none
found_session m (some s) = with_account s (get by_id s.account_id m.accounts)

unfoldable pub session_by_token : String → Rows → Option (Session × Account)
session_by_token hash m = found_session m (get by_id hash m.sessions)

-- The account is one that the scope of this tenant sees.
abbrev pub sees : Tenant → Option Account → Bool
sees t none = false
sees t (some a) = str_eq a.tenant_id t

unfoldable pub create_session : Tenant → Session → Rows → Rows × Result AuthError (Unit {0})
create_session t s m =
    if not (sees t (get by_id s.account_id m.accounts)) then (m, err no_such_account) else (
      record m {
        sessions = put by_id s.token_hash s (
            keep (λ e. not (str_eq e.1.account_id s.account_id && not (is_valid e.1 s.created_at)))
              m.sessions);
      },
      ok tt,
    )

unfoldable pub touch_found :
    String → String → Time → Time → Rows → Option Session → Rows × Result AuthError (Unit {0})
touch_found account hash expires used m none = (m, err no_such_account)
touch_found account hash expires used m (some s) =
    if not (str_eq s.account_id account) then (m, err no_such_account) else (
      record m {
        sessions =
            put by_id hash (record s { expires_at = expires; last_used_at = used }) m.sessions;
      },
      ok tt,
    )

unfoldable pub touch_session :
    Tenant → String → String → Time → Time → Rows → Rows × Result AuthError (Unit {0})
unfolding touch_found
touch_session t account hash expires used m =
    if not (sees t (get by_id account m.accounts))
    then (m, err no_such_account)
    else touch_found account hash expires used m (get by_id hash m.sessions)

abbrev pub held_by : String → Option Session → Bool
held_by account none = false
held_by account (some s) = str_eq s.account_id account

unfoldable pub delete_session : Tenant → String → String → Rows → Rows × Result AuthError (Unit {0})
delete_session t account hash m =
    if not (sees t (get by_id account m.accounts))
    then (m, err no_such_account)
    else if held_by account (get by_id hash m.sessions)
    then (record m { sessions = delete by_id hash m.sessions }, ok tt)
    else (m, ok tt)

-- `Accounts`: the idle window and the absolute one.
pub record Accounts : Type 0 where
  pub ttl : ℕ
  pub max_age : ℕ

abbrev pub default_ttl : ℕ
default_ttl = 43200 * second

abbrev pub default_max_age : ℕ
default_max_age = 604800 * second

abbrev pub renew_after : ℕ
renew_after = 15 * minute

abbrev pub larger : ℕ → ℕ → ℕ
larger a b = if leb a b then b else a

abbrev pub ttl_or_default : ℤ → ℕ
ttl_or_default (negsuc n) = default_ttl
ttl_or_default (pos zero) = default_ttl
ttl_or_default (pos (suc n)) = suc n

abbrev pub max_age_for : ℕ → ℤ → ℕ
max_age_for ttl (negsuc n) = larger default_max_age ttl
max_age_for ttl (pos n) = if ltb n ttl then larger default_max_age ttl else n

-- `NewAccounts`
unfoldable pub new_accounts : ℤ → ℤ → Accounts
new_accounts ttl max_age =
    let t = ttl_or_default ttl in record { ttl = t; max_age = max_age_for t max_age }

abbrev pub within_max_age : Accounts → Session → Time → Bool
within_max_age a s now = ltb now (s.created_at + a.max_age)

-- When the session was last used, or made.
abbrev pub since : Session → Time
since s = if is_zero s.last_used_at then s.created_at else s.last_used_at

-- The new end: the idle window from now, but not past the absolute one.
abbrev pub extended : Accounts → Session → Time → Time
extended a s now =
    if ltb (s.created_at + a.max_age) (now + a.ttl) then s.created_at + a.max_age else now + a.ttl

unfoldable pub renew : Accounts → Session → Account → Time → Rows → Rows
renew a s account now m =
    let touched =
      touch_session account.tenant_id account.id s.token_hash (extended a s now) now m in
    if ltb_ℤ (sub_saturating now (since s)) (pos renew_after) then m else touched.0

unfoldable pub admit_session :
    Accounts → Time → Rows → Option (Session × Account) → Rows × Result AuthError Account
unfolding renew
admit_session a now m none = (m, err unauthenticated)
admit_session a now m (some (s, account)) =
    if not (is_valid s now) || not (within_max_age a s now)
    then (m, err unauthenticated)
    else (renew a s account now m, ok account)

-- `Authenticate`: the hash of the cookie, if there is one, and whether the header came with it.
unfoldable pub authenticate :
    Accounts → Option String → Bool → Time → Rows → Rows × Result AuthError Account
unfolding admit_session
authenticate a none header now m = (m, err unauthenticated)
authenticate a (some hash) header now m =
    if not header then (m, err unauthenticated) else admit_session a now m (session_by_token hash m)

abbrev pub new_session : Accounts → String → Account → Time → Session
new_session a hash account now = record {
  token_hash = hash;
  account_id = account.id;
  created_at = now;
  expires_at = now + a.ttl;
  last_used_at = 0;
}

-- `SignIn`: the account of the address, whether the password is its own, and the hash of a new token.
unfoldable pub sign_in :
    Accounts → Option Account → Bool → String → Time → Rows → Rows × Result AuthError (Unit {0})
sign_in a none matches hash now m = (m, err unauthenticated)
sign_in a (some account) matches hash now m =
    if not matches
    then (m, err unauthenticated)
    else create_session account.tenant_id (new_session a hash account now) m

unfoldable pub end_found : Rows → Option (Session × Account) → Rows
end_found m none = m
end_found m (some (s, account)) = (delete_session account.tenant_id account.id s.token_hash m).0

-- `SignOut`
unfoldable pub sign_out : Option String → Rows → Rows
unfolding end_found
sign_out none m = m
sign_out (some hash) m = end_found m (session_by_token hash m)
