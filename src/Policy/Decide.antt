-- ===== src/Policy/Decide.antt =====
-- internal/policy/decide.go: `Decide`. The reason of a decision, a text for people, is not kept.
use hostseal.Base.{Bool, true, false, not, ◌&&◌, ◌||◌, Option, none, some, str_eq, if◌then◌else◌}
use hostseal.Base.Int.{ltb_ℤ, mul_int64, sub_saturating}
use hostseal.Intent.Names.{
  Name, privileged, packages_apply_security, packages_apply_all, service_start, service_stop,
  service_restart, host_reboot,
}
use hostseal.Intent.Params.{Params, unit_params, apply_params}
use hostseal.Intent.Catalogue.{Spec, lookup}
use hostseal.Policy.Time.{Time, is_zero, second}
use hostseal.Policy.Window.{contains}
use hostseal.Policy.Rules.{
  Allow, allow_security, allow_all, min_allow, reboot_window, Policy, Host, restartable_allows,
}

pub record Request : Type 0 where
  pub intent : Name
  pub params : Params
  pub issued_at : Time

pub record Env : Type 0 where
  pub now : Time
  pub paused : Bool

pub data Code : Type 0 where
  paused expired updates_not_allowed unit_not_restartable reboot_not_allowed outside_window : Code
  unknown_intent policy_unreadable allowed : Code

-- `effective_allow` is empty where the source leaves it out.
pub record Decision : Type 0 where
  pub allowed : Bool
  pub code : Code
  pub effective_allow : Allow

abbrev pub refuse : Code → Decision
refuse c = record { allowed = false; code = c; effective_allow = "" }

abbrev pub permit : Decision
permit = record { allowed = true; code = allowed; effective_allow = "" }

unfoldable pub decide_reboot : Policy → Env → Decision
decide_reboot p env =
    if not (str_eq p.updates.reboot reboot_window)
    then refuse reboot_not_allowed
    else if not (contains p.window env.now)
    then refuse outside_window
    else permit

abbrev pub wants_reboot : Params → Bool
wants_reboot (apply_params _ reboot) = reboot
wants_reboot _ = false

unfoldable pub requested_allow : Name → Option Allow
requested_allow n =
    if str_eq n packages_apply_security
    then some allow_security
    else if str_eq n packages_apply_all
    then some allow_all
    else none

unfoldable pub update_within : Policy → Request → Env → Option Allow → Decision
update_within p req env none = refuse unknown_intent
update_within p req env (some wanted) =
    let effective = min_allow wanted p.updates.allow in
    let follow = decide_reboot p env in
    if not (str_eq effective wanted)
    then record { allowed = false; code = updates_not_allowed; effective_allow = effective }
    else if wants_reboot req.params && not follow.allowed
    then record follow { effective_allow = effective }
    else record { allowed = true; code = allowed; effective_allow = effective }

unfoldable pub decide_update : Policy → Request → Env → Decision
unfolding update_within requested_allow
decide_update p req env = update_within p req env (requested_allow req.intent)

unfoldable pub decide_unit : Host → Policy → Params → Decision
decide_unit h p (unit_params _ unit) =
    if not (restartable_allows h p unit) then refuse unit_not_restartable else permit
decide_unit h p _ = refuse unit_not_restartable

-- `age > maxAge`, both `time.Duration`; a job with no issue time has no age.
unfoldable pub too_old : Policy → Time → Time → Bool
too_old p issued now =
    not (is_zero issued)
    && ltb_ℤ (mul_int64 p.max_job_age_seconds second) (sub_saturating now issued)

-- The `switch` on the intent.
unfoldable pub dispatch : Host → Policy → Request → Env → Decision
dispatch h p req env =
    if str_eq req.intent packages_apply_security || str_eq req.intent packages_apply_all
    then decide_update p req env
    else if str_eq req.intent service_start
        || str_eq req.intent service_stop
        || str_eq req.intent service_restart
    then decide_unit h p req.params
    else if str_eq req.intent host_reboot
    then decide_reboot p env
    else refuse unknown_intent

unfoldable pub decide_spec : Host → Policy → Request → Env → Option Spec → Decision
decide_spec h p req env none = refuse unknown_intent
decide_spec h p req env (some s) =
    if not (privileged s.class)
    then permit
    else if too_old p req.issued_at env.now
    then refuse expired
    else dispatch h p req env

unfoldable pub decide : Host → Policy → Request → Env → Decision
unfolding decide_spec
decide h p req env =
    if env.paused then refuse paused else decide_spec h p req env (lookup req.intent)
