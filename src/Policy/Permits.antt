-- ===== src/Policy/Permits.antt =====
-- internal/policy/decide.go: `Decide` against a statement of what a policy permits.
use hostseal.Base.{
  ℕ, ◌+◌, ◌*◌, ◌≤◌, ◌≡◌, ◌⊎◌, refl, sym, subst, Bool, true, false, ◌||◌, Option, none, some, List,
  [], ◌∷◌, arith, eq_iff, Bytes,
}
use hostseal.Intent.Names.{
  Name, privileged, packages_apply_security, packages_apply_all, service_start, service_stop,
  service_restart, host_reboot,
}
use hostseal.Intent.Params.{Params, no_params, unit_params, apply_params, reboot_params}
use hostseal.Intent.Catalogue.{
  Spec, IsMember, facts_collect_member, list_upgradable_member, services_list_member,
  check_required_member, apply_security_member, apply_all_member, start_member, stop_member,
  restart_member, reboot_member,
}
use hostseal.Policy.Time.{Time, second}
use hostseal.Policy.Window.{contains}
use hostseal.Policy.Rules.{
  allow_security, allow_all, min_allow, reboot_window, Policy, Host, restartable_allows, any_match,
  matched, Allow,
}
use hostseal.Policy.Ranks.{min_allow-eq_security, min_allow-eq_all}
use hostseal.Policy.Decide.{
  Request, Env, dispatch, decide_update, decide_unit, decide_reboot, wants_reboot, update_within,
}

-- The host may be rebooted at this instant.
pub record RebootRule (p : Policy) (now : Time) : Type 0 where
  pub mode : p.updates.reboot ≡ reboot_window
  pub open_now : contains p.window now ≡ true

-- The unit matches one of the patterns.
pub data Matches (h : Host) (unit : Bytes) : List Bytes → Type 0 where
  here : {p : Bytes} {ps : List Bytes} → h.glob p unit ≡ some true → Matches h unit (p ∷ ps)
  there : {p : Bytes} {ps : List Bytes} → Matches h unit ps → Matches h unit (p ∷ ps)

-- What a policy permits of a privileged operation, one rule for each.
pub data Rule (h : Host) (p : Policy) (now : Time) : Name → Params → Type 0 where
  security :
      {a : Params}
      → (p.updates.allow ≡ allow_security) ⊎ (p.updates.allow ≡ allow_all)
      → (wants_reboot a ≡ true → RebootRule p now)
      → Rule h p now packages_apply_security a
  everything :
      {a : Params}
      → p.updates.allow ≡ allow_all
      → (wants_reboot a ≡ true → RebootRule p now)
      → Rule h p now packages_apply_all a
  start :
      {n : Name} {u : Bytes}
      → Matches h u p.restartable
      → Rule h p now service_start (unit_params n u)
  stop :
      {n : Name} {u : Bytes}
      → Matches h u p.restartable
      → Rule h p now service_stop (unit_params n u)
  restart :
      {n : Name} {u : Bytes}
      → Matches h u p.restartable
      → Rule h p now service_restart (unit_params n u)
  reboot : {a : Params} → RebootRule p now → Rule h p now host_reboot a

-- Not older than `m` seconds, where the request says when it was issued.
abbrev pub Fresh : ℕ → Time → Time → Type 0
Fresh m issued now = (issued ≡ 0) ⊎ (now ≤ issued + m * second)

decide_reboot-RebootRule :
    (p : Policy) (env : Env) → (decide_reboot p env).allowed ≡ true → RebootRule p env.now
unfolding decide_reboot
decide_reboot-RebootRule p env h = ground (arith, eq_iff p.updates.reboot reboot_window)

RebootRule-decide_reboot :
    (p : Policy) (env : Env) → RebootRule p env.now → (decide_reboot p env).allowed ≡ true
unfolding decide_reboot
RebootRule-decide_reboot p env r = ground (arith, eq_iff p.updates.reboot reboot_window)

module _ (h : Host) {u : Bytes} where
  Matches-cons :
      (p : Bytes) (ps : List Bytes) (o : Option Bool)
      → h.glob p u ≡ o
      → (matched o || any_match h ps u) ≡ true
      → (any_match h ps u ≡ true → Matches h u ps)
      → Matches h u (p ∷ ps)
  unfolding matched
  Matches-cons p ps (some true) f e rest = here f
  Matches-cons p ps (some false) f e rest = there (rest e)
  Matches-cons p ps none f e rest = there (rest e)

  any_match-Matches : (ps : List Bytes) → any_match h ps u ≡ true → Matches h u ps
  unfolding any_match
  any_match-Matches [] e = cc
  any_match-Matches (p ∷ ps) e = Matches-cons p ps (h.glob p u) refl e (any_match-Matches ps)

  Matches-any_match : {ps : List Bytes} → Matches h u ps → any_match h ps u ≡ true
  unfolding any_match
  Matches-any_match (here e) = rw e
  Matches-any_match (there m) = ground (arith, Matches-any_match m)

module _ (p : Policy) (req : Request) (env : Env) (wanted : Allow) where
  update_within-allowed :
      (update_within p req env (some wanted)).allowed ≡ true
      → (min_allow wanted p.updates.allow ≡ wanted)
        × (wants_reboot req.params ≡ true → (decide_reboot p env).allowed ≡ true)
  unfolding update_within
  update_within-allowed e = ground (arith, eq_iff (min_allow wanted p.updates.allow) wanted)

  allowed-update_within :
      min_allow wanted p.updates.allow ≡ wanted
      → (wants_reboot req.params ≡ true → (decide_reboot p env).allowed ≡ true)
      → (update_within p req env (some wanted)).allowed ≡ true
  unfolding update_within
  allowed-update_within m r = ground (arith, eq_iff (min_allow wanted p.updates.allow) wanted)

module _ (h : Host) (p : Policy) (env : Env) (a : Params) (i : Time) where
  abbrev req_of : Name → Request
  req_of n = record { intent = n; params = a; issued_at = i }

  update-Rule :
      (update_within p (req_of packages_apply_security) env (some allow_security)).allowed ≡ true
      → Rule h p env.now packages_apply_security a
  update-Rule e =
      let (m, r) = update_within-allowed p (req_of packages_apply_security) env allow_security e in
      security ((min_allow-eq_security p.updates.allow).0 m)
        (λ w. decide_reboot-RebootRule p env (r w))

  update_all-Rule :
      (update_within p (req_of packages_apply_all) env (some allow_all)).allowed ≡ true
      → Rule h p env.now packages_apply_all a
  update_all-Rule e =
      let (m, r) = update_within-allowed p (req_of packages_apply_all) env allow_all e in
      everything ((min_allow-eq_all p.updates.allow).0 m)
        (λ w. decide_reboot-RebootRule p env (r w))

  -- The decision on a unit, for the parameters of a unit and for no others.
  unit-Matches :
      (decide_unit h p a).allowed ≡ true
      → (n : Name) × (u : Bytes) × (a ≡ unit_params n u) × Matches h u p.restartable
  unfolding decide_unit
  unit-Matches e = go a refl e
    where
      go :
          (b : Params)
          → a ≡ b
          → (decide_unit h p b).allowed ≡ true
          → (n : Name) × (u : Bytes) × (a ≡ unit_params n u) × Matches h u p.restartable
      go (unit_params n u) f k =
          (n, u, f, any_match-Matches h p.restartable (unfold restartable_allows in ground arith))
      go (no_params _) f k = cc
      go (apply_params _ _) f k = cc
      go (reboot_params _ _ _) f k = cc

  pub member-Rule :
      {n : Name} {s : Spec}
      → IsMember n s
      → privileged s.class ≡ true
      → (dispatch h p (req_of n) env).allowed ≡ true
      → Rule h p env.now n a
  unfolding privileged dispatch decide_update
  member-Rule facts_collect_member c e = cc
  member-Rule list_upgradable_member c e = cc
  member-Rule services_list_member c e = cc
  member-Rule check_required_member c e = cc
  member-Rule apply_security_member c e = update-Rule e
  member-Rule apply_all_member c e = update_all-Rule e
  member-Rule start_member c e =
      let (n, u, f, m) = unit-Matches e in subst (Rule h p env.now service_start) (sym f) (start m)
  member-Rule stop_member c e =
      let (n, u, f, m) = unit-Matches e in subst (Rule h p env.now service_stop) (sym f) (stop m)
  member-Rule restart_member c e =
      let (n, u, f, m) = unit-Matches e in
      subst (Rule h p env.now service_restart) (sym f) (restart m)
  member-Rule reboot_member c e = reboot (decide_reboot-RebootRule p env e)

module _ (h : Host) (p : Policy) (env : Env) (i : Time) where
  pub Rule-dispatch :
      {n : Name} {a : Params}
      → Rule h p env.now n a
      → (dispatch h p (record { intent = n; params = a; issued_at = i }) env).allowed ≡ true
  unfolding dispatch decide_update decide_unit restartable_allows
  Rule-dispatch (security {a} m r) =
      allowed-update_within p
        (record { intent = packages_apply_security; params = a; issued_at = i }) env allow_security
        ((min_allow-eq_security p.updates.allow).1 m) (λ w. RebootRule-decide_reboot p env (r w))
  Rule-dispatch (everything {a} m r) =
      allowed-update_within p (record { intent = packages_apply_all; params = a; issued_at = i })
        env allow_all ((min_allow-eq_all p.updates.allow).1 m)
        (λ w. RebootRule-decide_reboot p env (r w))
  Rule-dispatch (start m) = rw (Matches-any_match h m)
  Rule-dispatch (stop m) = rw (Matches-any_match h m)
  Rule-dispatch (restart m) = rw (Matches-any_match h m)
  Rule-dispatch (reboot r) = RebootRule-decide_reboot p env r
