-- ===== src/Policy/Rules.antt =====
-- internal/policy/policy.go: what a policy says, its defaults, and its validation.
use hostseal.Base.{
  String, Bool, true, false, not, ◌&&◌, ◌||◌, Option, none, some, List, [], ◌∷◌, Result, ok, err,
  ◌>>=◌, ◌>>◌, require, str_eq, if◌then◌else◌, Bytes, codes, equal, trim_space,
}
use hostseal.Base.Int.{ℤ, pos, negsuc, ltb_ℤ}
use hostseal.Policy.Time.{Location, utc}
use hostseal.Policy.Clock.{WindowError}
use hostseal.Policy.Window.{Window}
use hostseal.Policy.Parse.{parse_window, always_window}

-- `type Allow string`.
abbrev pub Allow : Type 0
Allow = String

abbrev pub allow_none : Allow
allow_none = "none"

abbrev pub allow_security : Allow
allow_security = "security"

abbrev pub allow_all : Allow
allow_all = "all"

unfoldable pub rank : Allow → ℤ
rank a =
    if str_eq a allow_none
    then pos 0
    else if str_eq a allow_security
    then pos 1
    else if str_eq a allow_all
    then pos 2
    else negsuc 0

unfoldable pub valid : Allow → Bool
unfolding rank
valid a = not (ltb_ℤ (rank a) (pos 0))

-- `Min`
unfoldable pub min_allow : Allow → Allow → Allow
unfolding valid
min_allow a b =
    let c = if ltb_ℤ (rank b) (rank a) then b else a in if valid c then c else allow_none

abbrev pub RebootMode : Type 0
RebootMode = String

abbrev pub reboot_never : RebootMode
reboot_never = "never"

abbrev pub reboot_window : RebootMode
reboot_window = "window"

pub record Updates : Type 0 where
  pub allow : Allow
  pub auto_apply : Bool
  pub scan : Bool
  pub window : Bytes
  pub timezone : String
  pub reboot : RebootMode

pub record Policy : Type 0 where
  pub updates : Updates
  pub restartable : List Bytes
  pub watched : List Bytes
  pub report_containers : Bool
  pub report_network : Bool
  pub report_resources : Bool
  pub max_job_age_seconds : ℤ
  pub window : Window

pub data PolicyError : Type 0 where
  bad_allow bad_reboot reboot_without_window unknown_timezone : PolicyError
  bad_window : WindowError → PolicyError
  bad_job_age bad_restartable bad_watched : PolicyError
  bad_toml unknown_keys unreadable : PolicyError

-- The literal of `Default`, before it is validated.
abbrev default_rules : Policy
default_rules = record {
  updates = record {
    allow = allow_security;
    auto_apply = true;
    scan = true;
    window = [];
    timezone = "UTC";
    reboot = reboot_never;
  };
  restartable = [];
  watched = [];
  report_containers = false;
  report_network = true;
  report_resources = true;
  max_job_age_seconds = pos 900;
  window = always_window utc;
}

-- `Default`: its window is empty, so validation gives the one that is always open.
unfoldable pub default : Policy
default = default_rules

-- `Closed`
unfoldable pub closed : Policy
closed = record {
  updates = record {
    allow = allow_none;
    auto_apply = false;
    scan = false;
    window = [];
    timezone = "UTC";
    reboot = reboot_never;
  };
  restartable = [];
  watched = [];
  report_containers = false;
  report_network = false;
  report_resources = false;
  max_job_age_seconds = pos 900;
  window = always_window utc;
}

-- `filepath.Match` (`none` for a malformed pattern), and `time.LoadLocation`.
pub record Host : Type 0 where
  pub glob : Bytes → Bytes → Option Bool
  pub load_location : String → Option Location

abbrev is_bad : Option Bool → Bool
is_bad none = true
is_bad (some _) = false

any_bad : Host → List Bytes → Bool
any_bad h [] = false
any_bad h (p ∷ ps) = is_bad (h.glob p (codes "probe.service")) || any_bad h ps

located : Option Location → Result PolicyError Location
located none = err unknown_timezone
located (some l) = ok l

parsed : Result WindowError Window → Result PolicyError Window
parsed (ok w) = ok w
parsed (err e) = err (bad_window e)

-- `validate`, which sets the window and an empty time zone.
unfoldable pub validate : Host → Policy → Result PolicyError Policy
unfolding any_bad located parsed
validate h p = do
  require (valid p.updates.allow) bad_allow
  require (str_eq p.updates.reboot reboot_never || str_eq p.updates.reboot reboot_window) bad_reboot
  require (not (str_eq p.updates.reboot reboot_window && equal (trim_space p.updates.window) []))
      reboot_without_window
  let zone = if str_eq p.updates.timezone "" then "UTC" else p.updates.timezone
  loc ← located (h.load_location zone)
  w ← parsed (parse_window p.updates.window loc)
  require (ltb_ℤ (pos 0) p.max_job_age_seconds) bad_job_age
  require (not (any_bad h p.restartable)) bad_restartable
  require (not (any_bad h p.watched)) bad_watched
  ok (record p { updates = record p.updates { timezone = zone }; window = w })

unfoldable pub matched : Option Bool → Bool
matched none = false
matched (some b) = b

unfoldable pub any_match : Host → List Bytes → Bytes → Bool
unfolding matched
any_match h [] unit = false
any_match h (p ∷ ps) unit = matched (h.glob p unit) || any_match h ps unit

-- `RestartableAllows`
unfoldable pub restartable_allows : Host → Policy → Bytes → Bool
unfolding any_match
restartable_allows h p unit = any_match h p.restartable unit
