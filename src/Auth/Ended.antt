-- ===== src/Auth/Ended.antt =====
-- internal/auth/accounts.go: after a sign-out.
use hostseal.Base.{
  ◌≡◌, ◌≢◌, refl, ◌∙◌, subst, String, Bool, true, false, not, ◌||◌, Option, none, some, List, [],
  ◌∷◌, err, inl, inr, All, Bool-cases, keep, str_eq, eq_iff,
}
use hostseal.Base.Int.{pos, ltb_ℤ, sub_saturating}
use hostseal.Base.Assoc.{All-get, get, put, delete, get-put_other, get-keep_keys}
use hostseal.Policy.Time.{Time}
use hostseal.Store.State.{Tenant, by_id}
use hostseal.Auth.Sessions.{
  Account, Session, Rows, unauthenticated, is_valid, session_by_token, sees, create_session,
  touch_found, touch_session, held_by, delete_session, Accounts, within_max_age, since, extended,
  renew_after, renew, admit_session, authenticate, new_session, sign_in, end_found, sign_out,
}
use hostseal.Auth.Lifetime.{Act, enter, visit, leave, act, acts, found_session-session}
use hostseal.Auth.Windows.{found_session-account}

-- An act that does not make this token anew.
abbrev pub Other : String → Act → Type 0
Other hash (enter account matches fresh now) = fresh ≢ hash
Other hash _ = Unit

absent_keep :
    (p : String × Session → Bool) (a : String) (m : List (String × Session))
    → get by_id a m ≡ none
    → get by_id a (keep p m) ≡ none
unfolding get
absent_keep p a [] h = refl
absent_keep p a ((b, s) ∷ m) h = elim (Bool-cases (by_id.same b a)) [
  | inl e ↦ absurd (cc (rw e at h))
  | inr e ↦ elim (Bool-cases (p (b, s))) [
    | inl f ↦ rw (f, e) (absent_keep p a m (rw e at h))
    | inr f ↦ rw f (absent_keep p a m (rw e at h))
  ]
]

deleted-none : (a : String) (m : List (String × Session)) → get by_id a (delete by_id a m) ≡ none
unfolding delete
deleted-none a m =
    rw ((by_id.same_iff a a).1 refl) at (get-keep_keys by_id (λ b. not (by_id.same b a)) a m)

module _ (hash : String) where
  -- The table has no session of this token.
  abbrev Gone : Rows → Type 0
  Gone m = get by_id hash m.sessions ≡ none

  put-Gone :
      (k : String) (s : Session) (xs : List (String × Session))
      → k ≢ hash
      → get by_id hash xs ≡ none
      → get by_id hash (put by_id k s xs) ≡ none
  put-Gone k s xs ne h = get-put_other by_id k hash s xs ne ∙ h

  touch_found-Gone :
      (account k : String) (expires used : Time) (m : Rows) (o : Option Session)
      → get by_id k m.sessions ≡ o
      → Gone m
      → Gone (touch_found account k expires used m o).0
  unfolding touch_found
  touch_found-Gone account k expires used m none e h = h
  touch_found-Gone account k expires used m (some s) e h =
      elim (Bool-cases (str_eq s.account_id account)) [
        | inr f ↦ rw f h
        | inl f ↦ rw f (
            put-Gone k _ m.sessions
              (λ q. absurd (cc (subst (λ x. get by_id x m.sessions ≡ some s) q e, h))) h)
      ]

  renew-Gone :
      (a : Accounts) (s : Session) (account : Account) (now : Time) (m : Rows)
      → Gone m
      → Gone (renew a s account now m)
  unfolding renew touch_session
  renew-Gone a s account now m h =
      elim (Bool-cases (ltb_ℤ (sub_saturating now (since s)) (pos renew_after))) [
        | inl f ↦ rw f h
        | inr f ↦ elim (Bool-cases (sees account.tenant_id (get by_id account.id m.accounts))) [
          | inr g ↦ rw (f, g) h
          | inl g ↦
              rw (f, g)
                (touch_found-Gone account.id s.token_hash (extended a s now) now m
                  (get by_id s.token_hash m.sessions) refl h)
        ]
      ]

  admit_session-Gone :
      (a : Accounts) (now : Time) (m : Rows) (o : Option (Session × Account))
      → Gone m
      → Gone (admit_session a now m o).0
  unfolding admit_session
  admit_session-Gone a now m none h = h
  admit_session-Gone a now m (some (s, account)) h =
      elim (Bool-cases (not (is_valid s now) || not (within_max_age a s now))) [
        | inl f ↦ rw f h
        | inr f ↦ rw f (renew-Gone a s account now m h)
      ]

  authenticate-Gone :
      (a : Accounts) (cookie : Option String) (header : Bool) (now : Time) (m : Rows)
      → Gone m
      → Gone (authenticate a cookie header now m).0
  unfolding authenticate
  authenticate-Gone a none header now m h = h
  authenticate-Gone a (some k) false now m h = h
  authenticate-Gone a (some k) true now m h = admit_session-Gone a now m (session_by_token k m) h

  create_session-Gone :
      (t : Tenant) (s : Session) (m : Rows)
      → s.token_hash ≢ hash
      → Gone m
      → Gone (create_session t s m).0
  unfolding create_session
  create_session-Gone t s m ne h = elim (Bool-cases (sees t (get by_id s.account_id m.accounts))) [
    | inr e ↦ rw e h
    | inl e ↦ rw e (put-Gone s.token_hash s _ ne (absent_keep _ hash m.sessions h))
  ]

  delete_session-Gone :
      (t : Tenant) (account k : String) (m : Rows) → Gone m → Gone (delete_session t account k m).0
  unfolding delete_session delete
  delete_session-Gone t account k m h = elim (Bool-cases (sees t (get by_id account m.accounts))) [
    | inr e ↦ rw e h
    | inl e ↦ elim (Bool-cases (held_by account (get by_id k m.sessions))) [
      | inl f ↦ rw (e, f) (absent_keep _ hash m.sessions h)
      | inr f ↦ rw (e, f) h
    ]
  ]

  end_found-Gone : (m : Rows) (o : Option (Session × Account)) → Gone m → Gone (end_found m o)
  unfolding end_found
  end_found-Gone m none h = h
  end_found-Gone m (some (s, account)) h =
      delete_session-Gone account.tenant_id account.id s.token_hash m h

  act-Gone : (a : Accounts) (x : Act) (m : Rows) → Other hash x → Gone m → Gone (act a x m)
  unfolding act sign_in sign_out
  act-Gone a (enter none matches k now) m o h = h
  act-Gone a (enter (some account) false k now) m o h = h
  act-Gone a (enter (some account) true k now) m o h =
      create_session-Gone account.tenant_id (new_session a k account now) m o h
  act-Gone a (visit cookie header now) m o h = authenticate-Gone a cookie header now m h
  act-Gone a (leave none) m o h = h
  act-Gone a (leave (some k)) m o h = end_found-Gone m (session_by_token k m) h

  acts-Gone :
      (a : Accounts) (past : List Act) (m : Rows)
      → All (Other hash) past
      → Gone m
      → Gone (acts a past m)
  unfolding acts
  acts-Gone a [] m o h = h
  acts-Gone a (x ∷ past) m (o, os) h = act-Gone a x (acts a past m) o (acts-Gone a past m os h)

  found-none : (m : Rows) → Gone m → session_by_token hash m ≡ none
  unfolding session_by_token
  found-none m h = rw h refl

  authenticate-none :
      (a : Accounts) (header : Bool) (now : Time) (m : Rows)
      → Gone m
      → (authenticate a (some hash) header now m).1 ≡ err unauthenticated
  unfolding authenticate admit_session
  authenticate-none a false now m h = refl
  authenticate-none a true now m h = rw (found-none m h) refl

-- The rows stand under their own identifiers.
abbrev pub Keyed : Rows → Type 0
Keyed m =
    All (λ (id, account). account.id ≡ id) m.accounts
    × All (λ (hash, s). s.token_hash ≡ hash) m.sessions

str_eq_refl : (a : String) → str_eq a a ≡ true
str_eq_refl a = (eq_iff a a).1 refl

delete_session-Gone_own :
    (t : Tenant) (account hash : String) (m : Rows)
    → sees t (get by_id account m.accounts) ≡ true
    → held_by account (get by_id hash m.sessions) ≡ true
    → Gone hash (delete_session t account hash m).0
unfolding delete_session
delete_session-Gone_own t account hash m e f = rw (e, f) (deleted-none hash m.sessions)

sign_out-Gone :
    (hash : String) (m : Rows) (s : Session) (account : Account)
    → Keyed m
    → session_by_token hash m ≡ some (s, account)
    → Gone hash (sign_out (some hash) m)
unfolding sign_out session_by_token
sign_out-Gone hash m s account (ids, hashes) e =
    let row = found_session-session m s (get by_id hash m.sessions) e in
    let held = found_session-account m s (get by_id hash m.sessions) e in
    let id = All-get by_id (λ (id, account). account.id ≡ id) s.account_id m.accounts ids held in
    let own = All-get by_id (λ (hash, s). s.token_hash ≡ hash) hash m.sessions hashes row in
    let seen : sees account.tenant_id (get by_id account.id m.accounts) ≡ true =
      rw (id, held) (str_eq_refl account.tenant_id) in
    let mine : held_by account.id (get by_id hash m.sessions) ≡ true =
      rw (id, row) (str_eq_refl s.account_id) in
    rw (e, own) (delete_session-Gone_own account.tenant_id account.id hash m seen mine)

-- A cookie that somebody has signed out of authenticates nobody from then on, whatever is done with
-- other cookies or with this one, as long as no sign-in makes the same token again. The cookie had
-- a session, of an account that is there, and the rows of the two tables stand under their own
-- identifiers.
pub sign_out-authenticate :
    (a : Accounts) (hash : String) (m : Rows) (s : Session) (account : Account) (past : List Act)
    (header : Bool) (now : Time)
    → Keyed m
    → session_by_token hash m ≡ some (s, account)
    → All (Other hash) past
    → (authenticate a (some hash) header now (acts a past (sign_out (some hash) m))).1
      ≡ err unauthenticated
sign_out-authenticate a hash m s account past header now k e o =
    authenticate-none hash a header now (acts a past (sign_out (some hash) m))
      (acts-Gone hash a past (sign_out (some hash) m) o (sign_out-Gone hash m s account k e))
