-- ===== src/Store/Tenants.antt =====
-- internal/store/memory.go: tenants and enrolment tokens, and the approval modes of store.go.
use hostseal.Base.{
  String, Bool, false, not, ◌&&◌, ◌||◌, Option, none, some, List, [], ◌∷◌, Result, ok, err, str_eq,
  ltb, if◌then◌else◌, keep,
}
use hostseal.Base.Int.{ℤ}
use hostseal.Base.Assoc.{get, put, delete}
use hostseal.Policy.Time.{Time, is_zero}
use hostseal.Store.State.{
  Tenant, by_id, ApprovalMode, approval_none, approval_self, approval_second_person, TenantRow,
  EnrollmentToken, TokenRow, Memory, StoreError, not_found, conflict, unknown_tenant,
  token_unusable, no_id, unknown_mode,
}
use hostseal.Store.Jobs.{is_some}

-- `ApprovalMode.Valid`
unfoldable pub is_mode : ApprovalMode → Bool
is_mode a = str_eq a approval_none || str_eq a approval_self || str_eq a approval_second_person

unfoldable pub requires_approval : ApprovalMode → Bool
requires_approval a = str_eq a approval_self || str_eq a approval_second_person

unfoldable pub requires_distinct_operator : ApprovalMode → Bool
requires_distinct_operator a = str_eq a approval_second_person

-- `normaliseApprovalMode`
unfoldable pub normalise_approval_mode : ApprovalMode → Result StoreError ApprovalMode
unfolding is_mode
normalise_approval_mode a =
    if str_eq a "" then ok approval_none else if not (is_mode a) then err unknown_mode else ok a

abbrev pub has_slug : String → List (Tenant × TenantRow) → Bool
has_slug s [] = false
has_slug s ((_, row) ∷ rows) = str_eq row.slug s || has_slug s rows

unfoldable pub insert_tenant :
    Tenant
    → TenantRow
    → Time
    → Memory
    → Result StoreError ApprovalMode
    → Memory × Result StoreError (Unit {0})
insert_tenant id row now m (err e) = (m, err e)
insert_tenant id row now m (ok mode) =
    if is_some (get by_id id m.tenants)
    then (m, err conflict)
    else if has_slug row.slug m.tenants
    then (m, err conflict)
    else (
      record m {
        tenants =
            put by_id id
              (record row {
                approval_mode = mode;
                created_at = if is_zero row.created_at then now else row.created_at;
              })
              m.tenants;
      },
      ok tt,
    )

unfoldable pub create_tenant :
    Tenant → TenantRow → Time → Memory → Memory × Result StoreError (Unit {0})
unfolding insert_tenant
create_tenant id row now m =
    if str_eq id ""
    then (m, err no_id)
    else insert_tenant id row now m (normalise_approval_mode row.approval_mode)

unfoldable pub or_not_found : {A : Type 0} → Option A → Result StoreError A
or_not_found none = err not_found
or_not_found (some a) = ok a

unfoldable pub get_tenant : Tenant → Memory → Result StoreError TenantRow
unfolding or_not_found
get_tenant id m = or_not_found (get by_id id m.tenants)

-- `TenantPatch`, of the fields that are kept.
pub record TenantPatch : Type 0 where
  pub approval_mode : Option ApprovalMode
  pub host_limit : Option ℤ
  pub set_host_limit : Bool
  pub suspended : Option Bool

unfoldable pub patched_mode : TenantRow → Option ApprovalMode → Result StoreError TenantRow
patched_mode row none = ok row
patched_mode row (some a) = with_mode (normalise_approval_mode a)
  where
    with_mode : Result StoreError ApprovalMode → Result StoreError TenantRow
    with_mode (err e) = err e
    with_mode (ok mode) = ok (record row { approval_mode = mode })

abbrev or_kept : Bool → Option Bool → Bool
or_kept kept none = kept
or_kept kept (some b) = b

abbrev patched : TenantPatch → TenantRow → TenantRow
patched p row = record row {
  host_limit = if p.set_host_limit then p.host_limit else row.host_limit;
  suspended = or_kept row.suspended p.suspended;
}

unfoldable pub update_row :
    Tenant
    → TenantPatch
    → Memory
    → Result StoreError TenantRow
    → Memory × Result StoreError TenantRow
update_row id p m (err e) = (m, err e)
update_row id p m (ok row) =
    (record m { tenants = put by_id id (patched p row) m.tenants }, ok (patched p row))

unfoldable pub update_found_tenant :
    Tenant → TenantPatch → Memory → Option TenantRow → Memory × Result StoreError TenantRow
unfolding update_row patched_mode
update_found_tenant id p m none = (m, err not_found)
update_found_tenant id p m (some row) = update_row id p m (patched_mode row p.approval_mode)

unfoldable pub update_tenant : Tenant → TenantPatch → Memory → Memory × Result StoreError TenantRow
unfolding update_found_tenant
update_tenant id p m = update_found_tenant id p m (get by_id id m.tenants)

abbrev pub is_of : {V : Type 0} → (V → Tenant) → Tenant → Option V → Bool
is_of owner id none = false
is_of owner id (some v) = str_eq (owner v) id

-- The loops of `DeleteTenant`: a key goes if the row that the map holds under it is the tenant's.
abbrev pub sweep : {V : Type 0} → (V → Tenant) → Tenant → List (String × V) → List (String × V)
sweep owner id rows = keep (λ e. not (is_of owner id (get by_id e.0 rows))) rows

-- Everything that is not this tenant's.
unfoldable pub forget_tenant : Tenant → Memory → Memory
forget_tenant id m = record m {
  tenants = delete by_id id m.tenants;
  tokens = sweep (λ r. r.tenant) id m.tokens;
  hosts = sweep (λ r. r.tenant) id m.hosts;
  certs = sweep (λ c. c.tenant_id) id m.certs;
  jobs = λ q. if str_eq q.0 id then [] else m.jobs q;
  records = keep (λ e. not (str_eq e.0.0 id)) m.records;
  results = λ k. if str_eq k.0 id then none else m.results k;
}

unfoldable pub delete_tenant : Tenant → Memory → Memory × Result StoreError (Unit {0})
unfolding forget_tenant
delete_tenant id m =
    if not (is_some (get by_id id m.tenants))
    then (m, err not_found)
    else (forget_tenant id m, ok tt)

-- `EnrollmentToken.Usable`
unfoldable pub usable : EnrollmentToken → Time → Bool
usable t now = is_zero t.consumed_at && ltb now t.expires_at

unfoldable pub create_enrollment_token :
    Tenant → EnrollmentToken → Memory → Memory × Result StoreError (Unit {0})
create_enrollment_token t tok m =
    if not (is_some (get by_id t m.tenants))
    then (m, err unknown_tenant)
    else if is_some (get by_id tok.hash m.tokens)
    then (m, err conflict)
    else (
      record m { tokens = put by_id tok.hash (record { token = tok; tenant = t }) m.tokens },
      ok tt,
    )

abbrev pub consumed : Time → String → EnrollmentToken → EnrollmentToken
consumed now host tok = record tok { consumed_at = now; consumed_by_host = host }

unfoldable pub consume_found :
    Tenant
    → String
    → String
    → Time
    → Memory
    → Option TokenRow
    → Memory × Result StoreError EnrollmentToken
unfolding usable
consume_found t hash host now m none = (m, err token_unusable)
consume_found t hash host now m (some row) =
    if not (str_eq row.tenant t) || not (usable row.token now) then (m, err token_unusable) else (
      record m {
        tokens = put by_id hash (record row { token = consumed now host row.token }) m.tokens;
      },
      ok (consumed now host row.token),
    )

unfoldable pub consume_enrollment_token :
    Tenant → String → String → Time → Memory → Memory × Result StoreError EnrollmentToken
unfolding consume_found
consume_enrollment_token t hash host now m =
    consume_found t hash host now m (get by_id hash m.tokens)
