-- ===== src/Store/Revised.antt =====
-- internal/store/memory_templates.go: what saving, archiving and restoring leave of the versions.
use hostseal.Base.{◌≡◌, sym, subst, inl, inr, String, some, List, [], ◌∷◌, Bool-cases, arith}
use hostseal.Base.Assoc.{get}
use hostseal.Store.State.{Tenant, by_id}
use hostseal.Store.Jobs.{is_some}
use hostseal.Store.Templates.{
  TemplateVersion, TemplateArchival, TemplateKey, by_version, Templates, TemplateOp, revise,
  revise_all, create_template_version, save, archive, restore, archive_template, restore_template,
}
use hostseal.Store.Numbering.{Rows, Numbered, next, put-saved, get-saved, saved-Numbered}

create-Numbered :
    (t : Tenant) (x : TemplateVersion) (m : Templates)
    → Numbered m.templates
    → Numbered (create_template_version t x m).0.templates
unfolding create_template_version next
create-Numbered t x m o = elim (Bool-cases (is_some (get by_id t m.tenants))) [
  | inl e ↦ rw (e, put-saved t x m.templates) (saved-Numbered t x m.templates o)
  | inr e ↦ rw e o
]

archive_only :
    (t : Tenant) (a : TemplateArchival) (m : Templates)
    → (archive_template t a m).0.templates ≡ m.templates
unfolding archive_template
archive_only t a m = ground arith

restore_only :
    (t : Tenant) (name : String) (m : Templates)
    → (restore_template t name m).0.templates ≡ m.templates
unfolding restore_template
restore_only t name m = ground arith

revise-Numbered :
    (op : Tenant × TemplateOp) (m : Templates)
    → Numbered m.templates
    → Numbered (revise op m).templates
unfolding revise
revise-Numbered (t, save x) m o = create-Numbered t x m o
revise-Numbered (t, archive a) m o = subst Numbered (sym (archive_only t a m)) o
revise-Numbered (t, restore name) m o = subst Numbered (sym (restore_only t name m)) o

pub revise_all-Numbered :
    (m : Templates) (ops : List (Tenant × TemplateOp))
    → Numbered m.templates
    → Numbered (revise_all m ops).templates
unfolding revise_all
revise_all-Numbered m [] o = o
revise_all-Numbered m (op ∷ ops) o = revise_all-Numbered (revise op m) ops (revise-Numbered op m o)

-- A row that is there stays there.
abbrev pub Kept : Rows → Rows → Type 0
Kept rows later =
    (k : TemplateKey) (x : TemplateVersion)
    → get by_version k rows ≡ some x
    → get by_version k later ≡ some x

create-Kept :
    (t : Tenant) (x : TemplateVersion) (m : Templates)
    → Kept m.templates (create_template_version t x m).0.templates
unfolding create_template_version next
create-Kept t x m k y h = elim (Bool-cases (is_some (get by_id t m.tenants))) [
  | inl e ↦ rw (e, put-saved t x m.templates) (get-saved t x m.templates k y h)
  | inr e ↦ rw e h
]

revise-Kept : (op : Tenant × TemplateOp) (m : Templates) → Kept m.templates (revise op m).templates
unfolding revise
revise-Kept (t, save x) m k y h = create-Kept t x m k y h
revise-Kept (t, archive a) m k y h = rw (archive_only t a m) h
revise-Kept (t, restore name) m k y h = rw (restore_only t name m) h

pub revise_all-Kept :
    (m : Templates) (ops : List (Tenant × TemplateOp))
    → Kept m.templates (revise_all m ops).templates
unfolding revise_all
revise_all-Kept m [] k y h = h
revise_all-Kept m (op ∷ ops) k y h = revise_all-Kept (revise op m) ops k y (revise-Kept op m k y h)
