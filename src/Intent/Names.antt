-- ===== src/Intent/Names.antt =====
-- internal/intent/intent.go and profile.go: names, classes and profiles.
use hostseal.Base.{String, Bool, true, false, ◌||◌, List, [], ◌∷◌, str_eq}

-- `type Name string`: any text at all, of which ten are in the catalogue.
abbrev pub Name : Type 0
Name = String

abbrev pub facts_collect : Name
facts_collect = "facts.collect"

abbrev pub packages_list_upgradable : Name
packages_list_upgradable = "packages.listUpgradable"

abbrev pub services_list : Name
services_list = "services.list"

abbrev pub reboot_check_required : Name
reboot_check_required = "reboot.checkRequired"

abbrev pub packages_apply_security : Name
packages_apply_security = "packages.applySecurity"

abbrev pub packages_apply_all : Name
packages_apply_all = "packages.applyAll"

abbrev pub service_start : Name
service_start = "service.start"

abbrev pub service_stop : Name
service_stop = "service.stop"

abbrev pub service_restart : Name
service_restart = "service.restart"

abbrev pub host_reboot : Name
host_reboot = "host.reboot"

pub data Class : Type 0 where
  read routine destructive : Class

unfoldable pub privileged : Class → Bool
privileged routine = true
privileged destructive = true
privileged read = false

unfoldable pub requires_offline_signature : Class → Bool
requires_offline_signature destructive = true
requires_offline_signature _ = false

unfoldable pub requires_online_signature : Class → Bool
requires_online_signature routine = true
requires_online_signature _ = false

pub data Profile : Type 0 where
  linux windows_read_only : Profile

abbrev member : List Name → Name → Bool
member [] n = false
member (m ∷ ms) n = str_eq m n || member ms n

-- The members of each profile.
unfoldable pub profile_members : Profile → List Name
profile_members linux =
    facts_collect ∷ packages_list_upgradable ∷ services_list ∷ reboot_check_required
    ∷ packages_apply_security ∷ packages_apply_all ∷ service_start ∷ service_stop ∷ service_restart
    ∷ host_reboot ∷ []
profile_members windows_read_only =
    facts_collect ∷ packages_list_upgradable ∷ services_list ∷ reboot_check_required ∷ []

unfoldable pub in_profile : Profile → Name → Bool
unfolding profile_members
in_profile p n = member (profile_members p) n
