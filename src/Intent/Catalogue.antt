-- ===== src/Intent/Catalogue.antt =====
-- internal/intent/intent.go: the catalogue, `Lookup`, `Has` and `Decode`.
use hostseal.Base.{
  Bool, true, false, ◌≡◌, List, [], ◌∷◌, Option, none, some, Result, ok, err, str_eq, if◌then◌else◌,
  eq_iff, All, Bool-cases, inl, inr, subst, some_inj,
}
use hostseal.Json.{Raw}
use hostseal.Intent.Names.{
  Name, Class, read, routine, destructive, facts_collect, packages_list_upgradable, services_list,
  reboot_check_required, packages_apply_security, packages_apply_all, service_start, service_stop,
  service_restart, host_reboot,
}
use hostseal.Intent.Params.{Params, ParamError}
use hostseal.Intent.Decode.{
  decode_empty, decode_unit, decode_apply_all, decode_apply_security, decode_reboot,
}

pub record Spec : Type 0 where
  pub name : Name
  pub class : Class
  pub implemented : Bool
  pub may_not_return : Bool
  pub decode : Raw → Result ParamError Params

-- An implemented operation that returns.
abbrev pub spec : Name → Class → (Raw → Result ParamError Params) → Spec
spec n c d = record { name = n; class = c; implemented = true; may_not_return = false; decode = d }

abbrev pub reboot_spec : Spec
reboot_spec = record {
  name = host_reboot;
  class = destructive;
  implemented = true;
  may_not_return = true;
  decode = decode_reboot host_reboot;
}

unfoldable pub catalogue : List (Name × Spec)
catalogue =
    (facts_collect, spec facts_collect read (decode_empty facts_collect))
    ∷ (
      packages_list_upgradable,
      spec packages_list_upgradable read (decode_empty packages_list_upgradable),
    )
    ∷ (services_list, spec services_list read (decode_empty services_list))
    ∷ (reboot_check_required, spec reboot_check_required read (decode_empty reboot_check_required))
    ∷ (packages_apply_security, spec packages_apply_security routine decode_apply_security)
    ∷ (packages_apply_all, spec packages_apply_all destructive decode_apply_all)
    ∷ (service_start, spec service_start destructive (decode_unit service_start))
    ∷ (service_stop, spec service_stop destructive (decode_unit service_stop))
    ∷ (service_restart, spec service_restart destructive (decode_unit service_restart))
    ∷ (host_reboot, reboot_spec)
    ∷ []

find : Name → List (Name × Spec) → Option Spec
find n [] = none
find n ((m, s) ∷ rest) = if str_eq m n then some s else find n rest

unfoldable pub lookup : Name → Option Spec
unfolding find catalogue
lookup n = find n catalogue

pub data DecodeError : Type 0 where
  unknown_intent : DecodeError
  bad_params : ParamError → DecodeError

unfoldable pub decoded : Spec → Result ParamError Params → Result DecodeError (Spec × Params)
decoded s (ok p) = ok (s, p)
decoded s (err e) = err (bad_params e)

unfoldable pub decode_with : Raw → Option Spec → Result DecodeError (Spec × Params)
unfolding decoded
decode_with raw none = err unknown_intent
decode_with raw (some s) = decoded s (s.decode raw)

unfoldable pub decode : Name → Raw → Result DecodeError (Spec × Params)
unfolding decode_with
decode n raw = decode_with raw (lookup n)

-- What the catalogue holds under a name, case by case.
pub data IsMember : Name → Spec → Type 0 where
  facts_collect_member :
      IsMember facts_collect (spec facts_collect read (decode_empty facts_collect))
  list_upgradable_member :
      IsMember packages_list_upgradable
        (spec packages_list_upgradable read (decode_empty packages_list_upgradable))
  services_list_member :
      IsMember services_list (spec services_list read (decode_empty services_list))
  check_required_member :
      IsMember reboot_check_required
        (spec reboot_check_required read (decode_empty reboot_check_required))
  apply_security_member :
      IsMember packages_apply_security (spec packages_apply_security routine decode_apply_security)
  apply_all_member :
      IsMember packages_apply_all (spec packages_apply_all destructive decode_apply_all)
  start_member : IsMember service_start (spec service_start destructive (decode_unit service_start))
  stop_member : IsMember service_stop (spec service_stop destructive (decode_unit service_stop))
  restart_member :
      IsMember service_restart (spec service_restart destructive (decode_unit service_restart))
  reboot_member : IsMember host_reboot reboot_spec

module _ (P : Name → Spec → Type 0) where
  find-All :
      (n : Name) (l : List (Name × Spec)) {s : Spec}
      → All (λ e. P e.0 e.1) l
      → find n l ≡ some s
      → P n s
  unfolding find
  find-All n [] a h = cc
  find-All n ((m, t) ∷ rest) a h = elim (Bool-cases (str_eq m n)) [
    | inl hit ↦
        let e : m ≡ n = (eq_iff m n).0 hit in
        let f : t ≡ _ = some_inj (rw hit at h) in subst (λ u. P n u) f (subst (λ k. P k t) e a.0)
    | inr miss ↦ find-All n rest a.1 (rw miss at h)
  ]

-- The catalogue is closed: what `Lookup` finds is one of the ten.
pub lookup-IsMember : (n : Name) {s : Spec} → lookup n ≡ some s → IsMember n s
unfolding lookup
lookup-IsMember n h =
    find-All IsMember n catalogue
      (search (
        facts_collect_member, list_upgradable_member, services_list_member, check_required_member,
        apply_security_member, apply_all_member, start_member, stop_member, restart_member,
        reboot_member,
      ))
      h
