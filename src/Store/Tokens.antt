-- ===== src/Store/Tokens.antt =====
-- internal/store/memory.go: an enrolment token is redeemed once.
use hostseal.Base.{
  ◌<◌, ◌≡◌, ◌≢◌, ◌↔◌, refl, sym, inl, inr, String, Bool, false, not, ◌||◌, Option, List, All, none,
  some, ok, err, ok_inj, Bool-cases, str_eq, eq_iff, arith,
}
use hostseal.Base.Assoc.{get, put, get-put}
use hostseal.Policy.Time.{Time}
use hostseal.Store.State.{Tenant, TokenRow, EnrollmentToken, by_id, Memory, token_unusable}
use hostseal.Store.Machine.{Op, steps}
use hostseal.Store.Spent.{Standing, Spent, steps-Spent}
use hostseal.Store.Tenants.{usable, consumed, consume_found, consume_enrollment_token}

-- A token that this tenant issued, that nobody has redeemed, and that has not expired.
pub record Redeemable (t : Tenant) (now : Time) (o : Option TokenRow) : Type 0 where
  pub row : TokenRow
  pub found : o ≡ some row
  pub issued_by : row.tenant ≡ t
  pub unused : row.token.consumed_at ≡ 0
  pub in_time : now < row.token.expires_at

spent : (tok : EnrollmentToken) (now : Time) → tok.consumed_at ≢ 0 → usable tok now ≡ false
unfolding usable
spent tok now ne = ground arith

consume_found-spent :
    (u : Tenant) (hash host : String) (now : Time) (m : Memory) (row : TokenRow)
    → row.token.consumed_at ≢ 0
    → (consume_found u hash host now m (some row)).1 ≡ err token_unusable
unfolding consume_found
consume_found-spent u hash host now m row ne = elim (Bool-cases (str_eq row.tenant u)) [
  | inl e ↦ rw (e, spent row.token now ne) refl
  | inr e ↦ rw e refl
]

module _ (t : Tenant) (hash host : String) (now : Time) (m : Memory) where
  barred : TokenRow → Bool
  barred row = not (str_eq row.tenant t) || not (usable row.token now)

  barred_iff :
      (row : TokenRow)
      → (barred row ≡ false)
        ↔ ((row.tenant ≡ t) × (row.token.consumed_at ≡ 0) × (now < row.token.expires_at))
  unfolding barred usable
  barred_iff row = ground (arith, eq_iff row.tenant t)

  consume_found-Redeemable :
      (o : Option TokenRow) {tok : EnrollmentToken}
      → (consume_found t hash host now m o).1 ≡ ok tok
      → (r : Redeemable t now o) × (tok ≡ consumed now host r.row.token)
        × ((consume_found t hash host now m o).0 ≡ record m {
          tokens = put by_id hash (record r.row { token = consumed now host r.row.token }) m.tokens;
        })
  unfolding consume_found barred
  consume_found-Redeemable none e = cc
  consume_found-Redeemable (some row) e = elim (Bool-cases (barred row)) [
    | inl b ↦ absurd (cc (rw b at e))
    | inr b ↦
        let (i, n, l) = (barred_iff row).0 b in
        (
          record { row = row; found = refl; issued_by = i; unused = n; in_time = l },
          sym (ok_inj (rw b at e)),
          rw b refl,
        )
  ]

  Redeemable-consume_found :
      (o : Option TokenRow)
      → (r : Redeemable t now o)
      → (consume_found t hash host now m o).1 ≡ ok (consumed now host r.row.token)
  unfolding consume_found barred
  Redeemable-consume_found o r =
      let b = (barred_iff r.row).1 (r.issued_by, r.unused, r.in_time) in rw (r.found, b) refl

  -- A token is redeemed exactly if the tenant in whose name it is presented issued it, nobody has
  -- redeemed it, and it has not expired.
  pub consume_enrollment_token_iff :
      ((tok : EnrollmentToken) × ((consume_enrollment_token t hash host now m).1 ≡ ok tok))
      ↔ Redeemable t now (get by_id hash m.tokens)
  unfolding consume_enrollment_token
  consume_enrollment_token_iff = (
    λ (tok, e). (consume_found-Redeemable (get by_id hash m.tokens) e).0,
    λ r. (_, Redeemable-consume_found (get by_id hash m.tokens) r),
  )

  -- A token that was redeemed, at a time other than the zero one, is refused from then on, to every
  -- tenant, for every host and at every time, whatever any tenants have done since, as long as no
  -- tenant was removed.
  pub consume_enrollment_token-once :
      (tok : EnrollmentToken)
      → (consume_enrollment_token t hash host now m).1 ≡ ok tok
      → now ≢ 0
      → (ops : List (Tenant × Op)) → All Standing ops
      → (u : Tenant) (other : String) (later : Time)
      → (consume_enrollment_token u hash other later
          (steps (consume_enrollment_token t hash host now m).0 ops)).1
        ≡ err token_unusable
  unfolding consume_enrollment_token
  consume_enrollment_token-once tok e ne ops l u other later =
      let (r, _, after) = consume_found-Redeemable (get by_id hash m.tokens) e in
      let row : TokenRow = record r.row { token = consumed now host r.row.token } in
      let m' = (consume_found t hash host now m (get by_id hash m.tokens)).0 in
      let start : Spent hash m' = (row, rw after (get-put by_id hash row m.tokens), λ z. ne z) in
      let n = steps m' ops in
      let (found, f, c) = steps-Spent ops hash m' l start in
      rw f (consume_found-spent u hash other later n found c)
