-- ===== src/Tests/Operators.antt =====
-- internal/auth/accounts.go on one operator.
use hostseal.Base.{err, ◌+◌, ◌*◌, ◌≡◌, ◌≢◌, refl, true, some, [], ◌∷◌, List, ok, arith}
use hostseal.Base.Int.{pos, sub_saturating}
use hostseal.Base.Assoc.{get, put}
use hostseal.Policy.Time.{minute}
use hostseal.Store.State.{by_id}
use hostseal.Auth.Sessions.{
  sign_out, unauthenticated, default_ttl, Account, Session, Rows, Accounts, new_accounts, sign_in,
  authenticate, create_session, admit_session, renew, touch_session, touch_found, session_by_token,
}
use hostseal.Auth.Lifetime.{Act, enter, visit, act, acts, SignedIn}
use hostseal.Auth.Windows.{Open, authenticate-Open}
use hostseal.Auth.Ended.{sign_out-authenticate}
use hostseal.Tests.Policies.{sunday_at_one}

abbrev ann : Account
ann = record { id = "a1"; tenant_id = "acme" }

abbrev signed_out : Rows
signed_out = record { accounts = ("a1", ann) ∷ []; sessions = [] }

-- Ann signs in, works for half an hour, and comes back after it.
abbrev morning : List Act
morning =
    visit (some "h") true (sunday_at_one + 30 * minute)
    ∷ enter (some ann) true "h" sunday_at_one
    ∷ []

abbrev windows : Accounts
windows = new_accounts (pos 0) (pos 0)

later : sunday_at_one + 30 * minute ≢ 0
later = omega arith

known :
    (authenticate windows
      (some "h")
      true
      (sunday_at_one + 40 * minute)
      (acts windows morning signed_out)).1
    ≡ ok ann
unfolding acts act sign_in authenticate create_session admit_session renew touch_session touch_found
    session_by_token new_accounts get put sub_saturating
known = refl

authenticate-Open_example :
    (true ≡ true)
    × ((s : Session) × (get by_id "h" (acts windows morning signed_out).sessions ≡ some s)
        × (get by_id s.account_id (acts windows morning signed_out).accounts ≡ some ann)
        × SignedIn morning "h" s
        × Open windows (sunday_at_one + 40 * minute) s)
authenticate-Open_example =
    authenticate-Open (pos 0) (pos 0) morning signed_out "h" true (sunday_at_one + 40 * minute) ann
      (later, (tt, tt)) refl known

-- Ann's session, as the table has it.
abbrev anns : Session
anns = record {
  token_hash = "h";
  account_id = "a1";
  created_at = sunday_at_one;
  expires_at = sunday_at_one + default_ttl;
  last_used_at = 0;
}

abbrev at_work : Rows
at_work = record { accounts = ("a1", ann) ∷ []; sessions = ("h", anns) ∷ [] }

sign_out-authenticate_example :
    (authenticate windows (some "h") true (sunday_at_one + 5 * minute) (
      acts windows
        (visit (some "h") true (sunday_at_one + 2 * minute) ∷ [])
        (sign_out (some "h") at_work))).1
    ≡ err unauthenticated
sign_out-authenticate_example =
    sign_out-authenticate windows "h" at_work anns ann
      (visit (some "h") true (sunday_at_one + 2 * minute) ∷ []) true (sunday_at_one + 5 * minute)
      ((refl, tt), (refl, tt)) (unfold session_by_token get in refl) (tt, tt)
