-- ===== src/Helper/Endpoints.antt =====
-- internal/privsep/privsep.go: which root helper serves an operation, and the exit codes.
use hostseal.Base.{
  String, ◌≡◌, ◌↔◌, inl, inr, refl, subst, true, Option, none, some, List, [], ◌∷◌, Bool-cases,
  eq_iff, str_eq, if◌then◌else◌,
}
use hostseal.Base.Int.{ℤ, pos}
use hostseal.Intent.Names.{
  Name, privileged, packages_apply_security, packages_apply_all, service_start, service_stop,
  service_restart, host_reboot,
}
use hostseal.Intent.Catalogue.{
  Spec, lookup, lookup-IsMember, IsMember, facts_collect_member, list_upgradable_member,
  services_list_member, check_required_member, apply_security_member, apply_all_member,
  start_member, stop_member, restart_member, reboot_member,
}

abbrev pub apply_updates_socket : String
apply_updates_socket = "/run/hostseal/apply-updates.sock"

abbrev pub restart_unit_socket : String
restart_unit_socket = "/run/hostseal/restart-unit.sock"

abbrev pub reboot_host_socket : String
reboot_host_socket = "/run/hostseal/reboot-host.sock"

unfoldable pub endpoints : List (Name × String)
endpoints =
    (packages_apply_security, apply_updates_socket)
    ∷ (packages_apply_all, apply_updates_socket)
    ∷ (service_start, restart_unit_socket)
    ∷ (service_stop, restart_unit_socket)
    ∷ (service_restart, restart_unit_socket)
    ∷ (host_reboot, reboot_host_socket)
    ∷ []

route : List (Name × String) → Name → Option String
route [] n = none
route ((m, s) ∷ rest) n = if str_eq m n then some s else route rest n

-- `Endpoint`
unfoldable pub endpoint : Name → Option String
unfolding endpoints route
endpoint n = route endpoints n

abbrev pub exit_ok : ℤ
exit_ok = pos 0

abbrev pub exit_usage : ℤ
exit_usage = pos 2

abbrev pub exit_refused : ℤ
exit_refused = pos 3

abbrev pub exit_not_implemented : ℤ
exit_not_implemented = pos 4

abbrev pub exit_failed : ℤ
exit_failed = pos 5

-- The catalogue holds this operation, and it is privileged.
abbrev pub IsPrivileged : Name → Type 0
IsPrivileged n = (s : Spec) × (lookup n ≡ some s) × (privileged s.class ≡ true)

abbrev HasRoute : Name → Type 0
HasRoute n = (socket : String) × (endpoint n ≡ some socket)

member-HasRoute : {n : Name} {s : Spec} → IsMember n s → privileged s.class ≡ true → HasRoute n
unfolding endpoint privileged
member-HasRoute facts_collect_member p = absurd cc
member-HasRoute list_upgradable_member p = absurd cc
member-HasRoute services_list_member p = absurd cc
member-HasRoute check_required_member p = absurd cc
member-HasRoute apply_security_member p = (_, refl)
member-HasRoute apply_all_member p = (_, refl)
member-HasRoute start_member p = (_, refl)
member-HasRoute stop_member p = (_, refl)
member-HasRoute restart_member p = (_, refl)
member-HasRoute reboot_member p = (_, refl)

abbrev AllPrivileged : List (Name × String) → Type 0
AllPrivileged [] = Unit
AllPrivileged ((m, s) ∷ rest) = IsPrivileged m × AllPrivileged rest

route-IsPrivileged :
    (l : List (Name × String)) (n : Name) {s : String}
    → AllPrivileged l
    → route l n ≡ some s
    → IsPrivileged n
unfolding route
route-IsPrivileged [] n a h = cc
route-IsPrivileged ((m, s) ∷ rest) n (p, a) h = elim (Bool-cases (str_eq m n)) [
  | inl hit ↦ subst IsPrivileged ((eq_iff m n).0 hit) p
  | inr miss ↦ route-IsPrivileged rest n a (rw miss at h)
]

endpoints-AllPrivileged : AllPrivileged endpoints
unfolding endpoints lookup privileged
endpoints-AllPrivileged = (
  (_, refl, refl),
  ((_, refl, refl), ((_, refl, refl), ((_, refl, refl), ((_, refl, refl), ((_, refl, refl), tt))))),
)

-- An operation has a route to a root helper exactly if the catalogue holds it as a privileged one.
pub endpoint_iff : (n : Name) → ((socket : String) × (endpoint n ≡ some socket)) ↔ IsPrivileged n
unfolding endpoint
endpoint_iff n = (
  λ (s, h). route-IsPrivileged endpoints n endpoints-AllPrivileged h,
  λ (s, h, p). member-HasRoute (lookup-IsMember n h) p,
)
