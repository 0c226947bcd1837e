-- ===== src/Store/Templates.antt =====
-- internal/store/memory_templates.go: the versions of provisioning templates and their archival.
use hostseal.Base.{
  Bytes, ℕ, zero, suc, ◌≡◌, String, Bool, true, false, not, ◌&&◌, ◌↔◌, Option, none, some, List, [],
  ◌∷◌, Result, ok, err, str_eq, eq_iff, leb, ltb, if◌then◌else◌, arith, ◌==◌,
}
use hostseal.Base.Int.{ℤ, pos, negsuc}
use hostseal.Base.Assoc.{Key, get, put, delete}
use hostseal.Policy.Time.{Time, is_zero}
use hostseal.Store.State.{
  Tenant, ScopedKey, scoped, TenantRow, by_id, StoreError, not_found, conflict, unknown_tenant,
}
use hostseal.Store.Jobs.{is_some}
use hostseal.Store.Tenants.{or_not_found}

pub record TemplateVersion : Type 0 where
  pub name : String
  pub version : ℕ
  pub body_sealed : Bytes
  pub signature : String
  pub signer_key_id : String
  pub signer_algorithm : String
  pub created_at : Time
  pub created_by : String

pub record TemplateArchival : Type 0 where
  pub name : String
  pub archived_at : Time
  pub archived_by : String

abbrev pub is_archived : TemplateArchival → Bool
is_archived a = not (is_zero a.archived_at)

-- `templateKey`: the tenant, the name and the version, which the store counts from 1.
abbrev pub TemplateKey : Type 0
TemplateKey = Tenant × String × ℕ

abbrev same_version : TemplateKey → TemplateKey → Bool
same_version (t, a, v) (u, b, w) = str_eq t u && str_eq a b && (v == w)

pub same_version_iff : (a b : TemplateKey) → (same_version a b ≡ true) ↔ (a ≡ b)
same_version_iff (t, a, v) (u, b, w) = ground (arith, eq_iff t u, eq_iff a b)

abbrev pub by_version : Key TemplateKey
by_version = record { same = same_version; same_iff = same_version_iff }

-- The maps of `Memory` that these operations read and write.
pub record Templates : Type 0 where
  pub tenants : List (Tenant × TenantRow)
  pub templates : List (TemplateKey × TemplateVersion)
  pub archived : List (ScopedKey × TemplateArchival)

abbrev pub is_version_of : Tenant → String → TemplateKey → Bool
is_version_of t name (u, n, v) = str_eq u t && str_eq n name

-- The number that `CreateTemplateVersion` gives: one more than the greatest there is.
unfoldable pub next_version : Tenant → String → List (TemplateKey × TemplateVersion) → ℕ
next_version t name [] = 1
next_version t name ((k, _) ∷ rows) =
    let next = next_version t name rows in
    if is_version_of t name k && leb next k.2 then suc k.2 else next

unfoldable pub create_template_version :
    Tenant → TemplateVersion → Templates → Templates × Result StoreError ℕ
unfolding next_version
create_template_version t x m =
    let next = next_version t x.name m.templates in
    if not (is_some (get by_id t m.tenants)) then (m, err unknown_tenant) else (
      record m {
        templates = put by_version (t, x.name, next) (record x { version = next }) m.templates;
      },
      ok next,
    )

-- Whether a row is newer than the one that is held.
unfoldable pub newer : TemplateVersion → Option TemplateVersion → Bool
newer x none = true
newer x (some held) = ltb held.version x.version

unfoldable pub latest :
    Tenant → String → List (TemplateKey × TemplateVersion) → Option TemplateVersion
unfolding newer
latest t name [] = none
latest t name ((k, x) ∷ rows) =
    let found = latest t name rows in
    if is_version_of t name k && newer x found then some x else found

unfoldable pub get_template_version :
    Tenant → String → ℤ → Templates → Result StoreError TemplateVersion
unfolding latest or_not_found
get_template_version t name (pos zero) m = or_not_found (latest t name m.templates)
get_template_version t name (pos (suc v)) m =
    or_not_found (get by_version (t, name, suc v) m.templates)
get_template_version t name (negsuc v) m = or_not_found (latest t name m.templates)

-- `hasTemplateLocked`
unfoldable pub has_template : Tenant → String → List (TemplateKey × TemplateVersion) → Bool
has_template t name [] = false
has_template t name ((k, _) ∷ rows) =
    let rest = has_template t name rows in if is_version_of t name k then true else rest

-- The record of an archival; a name without one has the zero record, which is not archived.
unfoldable pub archived_in : Option TemplateArchival → Bool
archived_in none = false
archived_in (some a) = is_archived a

unfoldable pub archive_template :
    Tenant → TemplateArchival → Templates → Templates × Result StoreError (Unit {0})
unfolding has_template archived_in
archive_template t a m =
    if not (has_template t a.name m.templates)
    then (m, err not_found)
    else if archived_in (get scoped (t, a.name) m.archived)
    then (m, err conflict)
    else (record m { archived = put scoped (t, a.name) a m.archived }, ok tt)

unfoldable pub restore_template :
    Tenant → String → Templates → Templates × Result StoreError (Unit {0})
unfolding has_template archived_in
restore_template t name m =
    if not (has_template t name m.templates)
    then (m, err not_found)
    else if not (archived_in (get scoped (t, name) m.archived))
    then (m, err conflict)
    else (record m { archived = delete scoped (t, name) m.archived }, ok tt)

pub data TemplateOp : Type 0 where
  save : TemplateVersion → TemplateOp
  archive : TemplateArchival → TemplateOp
  restore : String → TemplateOp

unfoldable pub revise : Tenant × TemplateOp → Templates → Templates
unfolding create_template_version archive_template restore_template
revise (t, save x) m = (create_template_version t x m).0
revise (t, archive a) m = (archive_template t a m).0
revise (t, restore name) m = (restore_template t name m).0

-- The operations one after another, as the store's lock orders them, each of its own tenant.
unfoldable pub revise_all : Templates → List (Tenant × TemplateOp) → Templates
unfolding revise
revise_all m [] = m
revise_all m (op ∷ ops) = revise_all (revise op m) ops

abbrev pub no_templates : List (Tenant × TenantRow) → Templates
no_templates ts = record { tenants = ts; templates = []; archived = [] }
