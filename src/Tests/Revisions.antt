-- ===== src/Tests/Revisions.antt =====
-- internal/store/memory_templates.go at concrete inputs: two tenants with templates of one name.
use hostseal.Base.{◌≡◌, refl, List, [], ◌∷◌, ok, err}
use hostseal.Base.Int.{pos}
use hostseal.Base.Assoc.{get, put, delete}
use hostseal.Store.State.{Tenant, TenantRow, not_found, conflict}
use hostseal.Store.Templates.{
  TemplateVersion, TemplateArchival, Templates, TemplateOp, save, archive, restore, revise_all,
  no_templates, create_template_version, get_template_version, archive_template, revise,
  next_version, has_template, archived_in,
}
use hostseal.Store.Versions.{create_template_version-kept, Listed, revise_all-Listed}
use hostseal.Tests.Stores.{default_row, tenants}

-- A version as the handler hands it over, without a number.
abbrev draft : TemplateVersion
draft = record {
  name = "standard-server";
  version = 0;
  body_sealed = b'x' ∷ [];
  signature = "";
  signer_key_id = "";
  signer_algorithm = "";
  created_at = 7;
  created_by = "ada";
}

abbrev retired : TemplateArchival
retired = record { name = "standard-server"; archived_at = 9; archived_by = "ada" }

abbrev two_tenants : List (Tenant × TenantRow)
two_tenants = ("acme", default_row) ∷ tenants

abbrev earlier : List (Tenant × TemplateOp)
earlier = ("default", save draft) ∷ ("acme", save draft) ∷ []

abbrev later : List (Tenant × TemplateOp)
later =
    ("default", archive retired)
    ∷ ("default", save draft)
    ∷ ("default", restore "standard-server")
    ∷ []

abbrev library : Templates
library = revise_all (no_templates two_tenants) earlier

second_version : (create_template_version "default" draft library).1 ≡ ok 2
unfolding revise_all revise create_template_version next_version get put delete
second_version = refl

create_template_version-kept_example :
    get_template_version "default" "standard-server"
      (pos 2)
      (revise_all (create_template_version "default" draft library).0 later)
    ≡ ok (record draft { version = 2 })
create_template_version-kept_example =
    create_template_version-kept "default" draft library 2 second_version later

revise_all-Listed_example :
    Listed (revise_all (no_templates two_tenants) earlier) "default" "standard-server"
revise_all-Listed_example = revise_all-Listed two_tenants earlier "default" "standard-server"

-- A name that no version has cannot be archived, and one that is archived not again.
archive_unknown : (archive_template "default" retired (no_templates two_tenants)).1 ≡ err not_found
unfolding archive_template has_template
archive_unknown = refl

archive_twice :
    (archive_template "default" retired (archive_template "default" retired library).0).1
    ≡ err conflict
unfolding revise_all revise create_template_version next_version get put delete archive_template
    has_template archived_in
archive_twice = refl
