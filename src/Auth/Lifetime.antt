-- ===== src/Auth/Lifetime.antt =====
-- internal/auth/accounts.go: how long a session authenticates anybody.
use hostseal.Base.{
  ◌+◌, ◌≤◌, ◌≡◌, ◌≢◌, refl, sym, ◌∙◌, ap, subst, inl, inr, String, Bool, true, false, not, ◌||◌,
  Option, none, some, some_inj, List, [], ◌∷◌, str_eq, All, All-map, In, Bool-cases, arith,
}
use hostseal.Base.Int.{pos, ltb_ℤ, sub_saturating}
use hostseal.Base.Assoc.{get, put, delete, All-keep, All-get}
use hostseal.Policy.Time.{Time, is_zero}
use hostseal.Store.State.{Tenant, by_id}
use hostseal.Auth.Sessions.{
  Account, Session, Rows, is_valid, with_account, found_session, session_by_token, sees,
  create_session, touch_found, touch_session, held_by, delete_session, Accounts, within_max_age,
  since, extended, renew_after, renew, admit_session, authenticate, new_session, sign_in, end_found,
  sign_out,
}

-- What operators do.
pub data Act : Type 0 where
  enter : Option Account → Bool → String → Time → Act
  visit : Option String → Bool → Time → Act
  leave : Option String → Act

unfoldable pub act : Accounts → Act → Rows → Rows
act a (enter account matches hash now) m = (sign_in a account matches hash now m).0
act a (visit cookie header now) m = (authenticate a cookie header now m).0
act a (leave cookie) m = sign_out cookie m

-- The acts in the order in which they were done, the last one first.
unfoldable pub acts : Accounts → List Act → Rows → Rows
unfolding act
acts a [] m = m
acts a (x ∷ past) m = act a x (acts a past m)

-- Clocks do not show the zero time.
abbrev pub Dated : Act → Type 0
Dated (visit cookie header now) = now ≢ 0
Dated _ = Unit

-- Somebody signed in with this password, account and token, then.
abbrev pub SignedIn : List Act → String → Session → Type 0
SignedIn past hash s =
    (account : Account) × (account.id ≡ s.account_id)
    × In (enter (some account) true hash s.created_at) past

-- A session ends by both of its windows.
abbrev pub Bounded : Accounts → List Act → String × Session → Type 0
Bounded a past (hash, s) =
    (s.expires_at ≤ s.created_at + a.max_age)
    × (s.expires_at ≤ since s + a.ttl)
    × (s.token_hash ≡ hash)
    × SignedIn past hash s

abbrev pub IsBounded : Accounts → List Act → Rows → Type 0
IsBounded a past m = All (Bounded a past) m.sessions

extended-max :
    (a : Accounts) (s : Session) (now : Time) → extended a s now ≤ s.created_at + a.max_age
extended-max a s now = ground arith

extended-ttl : (a : Accounts) (s : Session) (now : Time) → extended a s now ≤ now + a.ttl
extended-ttl a s now = ground arith

-- The windows hold of a session that is used now, too.
extended-since :
    (a : Accounts) (s t : Session) (now : Time)
    → now ≢ 0
    → extended a s now
      ≤ since (record t { expires_at = extended a s now; last_used_at = now }) + a.ttl
extended-since a s t now ne = elim (Bool-cases (is_zero now)) [
  | inl z ↦ absurd (ne (ground arith))
  | inr z ↦ rw z (extended-ttl a s now)
]

with_account-session :
    (s t : Session) (o : Option Account) {account : Account}
    → with_account t o ≡ some (s, account)
    → t ≡ s
with_account-session s t none e = cc
with_account-session s t (some b) e = ap (λ x. x.0) (some_inj e)

pub found_session-session :
    (m : Rows) (s : Session) (o : Option Session) {account : Account}
    → found_session m o ≡ some (s, account)
    → o ≡ some s
found_session-session m s none e = cc
found_session-session m s (some t) e =
    ap some (with_account-session s t (get by_id t.account_id m.accounts) e)

module _ (a : Accounts) (le : a.ttl ≤ a.max_age) where
  later-IsBounded :
      (x : Act) (past : List Act) (m : Rows) → IsBounded a past m → IsBounded a (x ∷ past) m
  later-IsBounded x past m h =
      All-map (Bounded a past) (Bounded a (x ∷ past))
        (λ e (l, i, k, (account, same, b)). (l, i, k, (account, same, inr b))) m.sessions h

  module _ (past : List Act) where
    touch_found-IsBounded :
        (account hash : String) (s : Session) (now : Time) (m : Rows) (o : Option Session)
        → now ≢ 0
        → get by_id hash m.sessions ≡ o
        → ((t : Session) → o ≡ some t → s ≡ t)
        → IsBounded a past m
        → IsBounded a past (touch_found account hash (extended a s now) now m o).0
    unfolding touch_found put delete
    touch_found-IsBounded account hash s now m none ne e same h = h
    touch_found-IsBounded account hash s now m (some t) ne e same h =
        elim (Bool-cases (str_eq t.account_id account)) [
          | inr f ↦ rw f h
          | inl f ↦
              let (_, _, k, signed) = All-get by_id (Bounded a past) hash m.sessions h e in
              let ext = ap (λ x. x.created_at) (same t refl) in
              rw f (
                (
                  subst (λ x. extended a s now ≤ x + a.max_age) ext (extended-max a s now),
                  extended-since a s t now ne,
                  k,
                  signed,
                ),
                All-keep (Bounded a past) _ m.sessions h,
              )
        ]

    renew-IsBounded :
        (hash : String) (s : Session) (account : Account) (now : Time) (m : Rows)
        → now ≢ 0
        → get by_id hash m.sessions ≡ some s
        → s.token_hash ≡ hash
        → IsBounded a past m
        → IsBounded a past (renew a s account now m)
    unfolding renew touch_session
    renew-IsBounded hash s account now m ne e k h =
        elim (Bool-cases (ltb_ℤ (sub_saturating now (since s)) (pos renew_after))) [
          | inl f ↦ rw f h
          | inr f ↦ elim (Bool-cases (sees account.tenant_id (get by_id account.id m.accounts))) [
            | inr g ↦ rw (f, g) h
            | inl g ↦
                let e' = subst (λ x. get by_id x m.sessions ≡ some s) (sym k) e in
                rw (f, g)
                  (touch_found-IsBounded account.id s.token_hash s now m
                    (get by_id s.token_hash m.sessions) ne refl (λ t q. some_inj (sym e' ∙ q)) h)
          ]
        ]

    admit_session-IsBounded :
        (hash : String) (now : Time) (m : Rows) (o : Option (Session × Account))
        → now ≢ 0
        → ((s : Session) (account : Account)
            → o ≡ some (s, account)
            → get by_id hash m.sessions ≡ some s)
        → IsBounded a past m
        → IsBounded a past (admit_session a now m o).0
    unfolding admit_session
    admit_session-IsBounded hash now m none ne e h = h
    admit_session-IsBounded hash now m (some (s, account)) ne e h =
        elim (Bool-cases (not (is_valid s now) || not (within_max_age a s now))) [
          | inl f ↦ rw f h
          | inr f ↦
              let q = e s account refl in
              let (_, _, k, _) = All-get by_id (Bounded a past) hash m.sessions h q in
              rw f (renew-IsBounded hash s account now m ne q k h)
        ]

    authenticate-IsBounded :
        (cookie : Option String) (header : Bool) (now : Time) (m : Rows)
        → now ≢ 0
        → IsBounded a past m
        → IsBounded a past (authenticate a cookie header now m).0
    unfolding authenticate session_by_token
    authenticate-IsBounded none header now m ne h = h
    authenticate-IsBounded (some hash) false now m ne h = h
    authenticate-IsBounded (some hash) true now m ne h =
        admit_session-IsBounded hash now m (session_by_token hash m) ne
          (λ s account q. found_session-session m s (get by_id hash m.sessions) q) h

    delete_session-IsBounded :
        (t : Tenant) (account hash : String) (m : Rows)
        → IsBounded a past m
        → IsBounded a past (delete_session t account hash m).0
    unfolding delete_session delete
    delete_session-IsBounded t account hash m h =
        elim (Bool-cases (sees t (get by_id account m.accounts))) [
          | inr e ↦ rw e h
          | inl e ↦ elim (Bool-cases (held_by account (get by_id hash m.sessions))) [
            | inl f ↦ rw (e, f) (All-keep (Bounded a past) _ m.sessions h)
            | inr f ↦ rw (e, f) h
          ]
        ]

    end_found-IsBounded :
        (m : Rows) (o : Option (Session × Account))
        → IsBounded a past m
        → IsBounded a past (end_found m o)
    unfolding end_found
    end_found-IsBounded m none h = h
    end_found-IsBounded m (some (s, account)) h =
        delete_session-IsBounded account.tenant_id account.id s.token_hash m h

    sign_out-IsBounded :
        (cookie : Option String) (m : Rows)
        → IsBounded a past m
        → IsBounded a past (sign_out cookie m)
    unfolding sign_out
    sign_out-IsBounded none m h = h
    sign_out-IsBounded (some hash) m h = end_found-IsBounded m (session_by_token hash m) h

  create_session-IsBounded :
      (account : Account) (hash : String) (now : Time) (past : List Act) (m : Rows)
      → In (enter (some account) true hash now) past
      → IsBounded a past m
      → IsBounded a past (create_session account.tenant_id (new_session a hash account now) m).0
  unfolding create_session put delete
  create_session-IsBounded account hash now past m i h =
      elim (Bool-cases (sees account.tenant_id (get by_id account.id m.accounts))) [
        | inr e ↦ rw e h
        | inl e ↦ rw e (
          (ground arith, ground arith, refl, (account, refl, i)),
          All-keep (Bounded a past) _ _ (All-keep (Bounded a past) _ m.sessions h),
        )
      ]

  act-IsBounded :
      (x : Act) (past : List Act) (m : Rows)
      → Dated x
      → IsBounded a past m
      → IsBounded a (x ∷ past) (act a x m)
  unfolding act sign_in
  act-IsBounded (enter none matches hash now) past m d h = later-IsBounded _ past m h
  act-IsBounded (enter (some account) false hash now) past m d h = later-IsBounded _ past m h
  act-IsBounded (enter (some account) true hash now) past m d h =
      let x = enter (some account) true hash now in
      create_session-IsBounded account hash now (x ∷ past) m (inl (refl {A = Act} {a = x}))
        (later-IsBounded x past m h)
  act-IsBounded (visit cookie header now) past m d h =
      let x = visit cookie header now in
      authenticate-IsBounded (x ∷ past) cookie header now m d (later-IsBounded x past m h)
  act-IsBounded (leave cookie) past m d h =
      let x = leave cookie in sign_out-IsBounded (x ∷ past) cookie m (later-IsBounded x past m h)

  pub acts-IsBounded :
      (past : List Act) (m : Rows)
      → All Dated past
      → IsBounded a [] m
      → IsBounded a past (acts a past m)
  unfolding acts
  acts-IsBounded [] m d h = h
  acts-IsBounded (x ∷ past) m (d, ds) h =
      act-IsBounded x past (acts a past m) d (acts-IsBounded past m ds h)
