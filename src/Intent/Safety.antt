-- ===== src/Intent/Safety.antt =====
-- internal/intent: what `Decode` lets through, for every document that an attacker could send.
use hostseal.Base.{
  ℕ, ◌≤◌, ◌≡◌, ◌⊎◌, inl, inr, refl, true, false, none, Result, ok, err, arith, All, length,
  all_of-All, Bytes, codes, has_prefix, Option-cases, >>=-eq-ok, ok_inj, subst, ◌||◌,
}
use hostseal.Base.Int.{ℤ, pos, negsuc, ltb_ℤ}
use hostseal.Json.{Raw}
use hostseal.Intent.Names.{
  Name, Class, read, routine, destructive, packages_apply_security, packages_apply_all,
  service_start, service_stop, service_restart, host_reboot,
}
use hostseal.Intent.Params.{
  Params, no_params, unit_params, apply_params, reboot_params, intent, ParamError, message_byte,
  matches_message, validate_unit,
}
use hostseal.Intent.Decode.{
  strict_unmarshal, decode_empty, decode_unit, decode_apply_all, decode_apply_security,
  decode_reboot, check_reboot, RebootWire,
}
use hostseal.Intent.Catalogue.{
  Spec, decode, lookup, IsMember, lookup-IsMember, decode_with, decoded, facts_collect_member,
  list_upgradable_member, services_list_member, check_required_member, apply_security_member,
  apply_all_member, start_member, stop_member, restart_member, reboot_member,
}
use hostseal.Intent.Units.{IsUnitName, validate_unit-IsUnitName}

-- A reboot message holds no option and nothing but plain text.
pub record IsMessage (s : Bytes) : Type 0 where
  pub short : length s ≤ 200
  pub bytes : All (λ c. message_byte c ≡ true) s
  pub no_option : has_prefix (codes "-") s ≡ false

-- The parameters that an operation may carry, by the class of the operation that carries them.
abbrev pub IsSafe : Class → Params → Type 0
IsSafe c (no_params n) = c ≡ read
IsSafe c (unit_params n u) =
    (c ≡ destructive)
    × ((n ≡ service_start) ⊎ ((n ≡ service_stop) ⊎ (n ≡ service_restart)))
    × IsUnitName u
IsSafe c (apply_params n reboot) =
    ((n ≡ packages_apply_security) × (c ≡ routine) × (reboot ≡ false))
    ⊎ ((n ≡ packages_apply_all) × (c ≡ destructive))
IsSafe c (reboot_params n delay message) =
    (n ≡ host_reboot)
    × (c ≡ destructive)
    × ((d : ℕ) × (delay ≡ pos d) × (d ≤ 3600))
    × IsMessage message

-- `p` are parameters of the operation `n`, which is of class `c`.
abbrev pub Fits : Name → Class → Params → Type 0
Fits n c p = (intent p ≡ n) × IsSafe c p

Fits-ok :
    {n : Name} (c : Class) {q p : Params}
    → Fits n c q
    → ◌≡◌ {A = Result ParamError Params} (ok q) (ok p)
    → Fits n c p
Fits-ok {n} c f h = subst (Fits n c) (ok_inj h) f

decode_empty-Fits : (n : Name) (raw : Raw) {p : Params} → decode_empty n raw ≡ ok p → Fits n read p
unfolding decode_empty
decode_empty-Fits n raw h =
    let (_, _, done) = >>=-eq-ok (strict_unmarshal _ _ raw) _ h in Fits-ok read (refl, refl) done

decode_unit-Fits :
    (n : Name) (raw : Raw) {p : Params}
    → (n ≡ service_start) ⊎ ((n ≡ service_stop) ⊎ (n ≡ service_restart))
    → decode_unit n raw ≡ ok p
    → Fits n destructive p
unfolding decode_unit
decode_unit-Fits n raw m h =
    let (u, _, checked) = >>=-eq-ok (strict_unmarshal _ _ raw) _ h in
    let (_, good, done) = >>=-eq-ok (validate_unit u) _ checked in
    Fits-ok destructive (refl, (refl, m, validate_unit-IsUnitName u good)) done

decode_apply_all-Fits :
    (raw : Raw) {p : Params} → decode_apply_all raw ≡ ok p → Fits packages_apply_all destructive p
unfolding decode_apply_all
decode_apply_all-Fits raw h =
    let (_, _, done) = >>=-eq-ok (strict_unmarshal _ _ raw) _ h in
    Fits-ok destructive (refl, inr (refl, refl)) done

decode_apply_security-Fits :
    (raw : Raw) {p : Params}
    → decode_apply_security raw ≡ ok p
    → Fits packages_apply_security routine p
unfolding decode_apply_security
decode_apply_security-Fits raw h =
    let (_, _, done) = >>=-eq-ok (strict_unmarshal _ _ raw) _ h in
    Fits-ok routine (refl, inl (refl, refl, refl)) done

delay_in_range :
    (d : ℤ) → (ltb_ℤ d (pos 0) || ltb_ℤ (pos 3600) d) ≡ false → (k : ℕ) × (d ≡ pos k) × (k ≤ 3600)
delay_in_range (pos k) h = (k, refl, ground arith)
delay_in_range (negsuc k) h = cc

matches_message-IsMessage :
    (s : Bytes) → has_prefix (codes "-") s ≡ false → matches_message s ≡ true → IsMessage s
unfolding matches_message
matches_message-IsMessage s d h = record {
  short = ground arith;
  bytes = all_of-All message_byte s (ground arith);
  no_option = d;
}

check_reboot-Fits :
    (w : RebootWire) {p : Params}
    → check_reboot host_reboot w ≡ ok p
    → Fits host_reboot destructive p
unfolding check_reboot
check_reboot-Fits w h =
    Fits-ok destructive {q = reboot_params host_reboot w.delay_seconds w.message}
      (
        refl,
        (
          refl,
          refl,
          delay_in_range w.delay_seconds (ground arith),
          matches_message-IsMessage w.message (ground arith) (ground arith),
        ),
      )
      (ground arith)

decode_reboot-Fits :
    (raw : Raw) {p : Params} → decode_reboot host_reboot raw ≡ ok p → Fits host_reboot destructive p
unfolding decode_reboot
decode_reboot-Fits raw h =
    let (w, _, checked) = >>=-eq-ok (strict_unmarshal _ _ raw) _ h in check_reboot-Fits w checked

member-Fits :
    {n : Name} {s : Spec} {p : Params}
    → IsMember n s
    → (raw : Raw) → s.decode raw ≡ ok p
    → Fits n s.class p
member-Fits facts_collect_member raw h = decode_empty-Fits _ raw h
member-Fits list_upgradable_member raw h = decode_empty-Fits _ raw h
member-Fits services_list_member raw h = decode_empty-Fits _ raw h
member-Fits check_required_member raw h = decode_empty-Fits _ raw h
member-Fits apply_security_member raw h = decode_apply_security-Fits raw h
member-Fits apply_all_member raw h = decode_apply_all-Fits raw h
member-Fits start_member raw h = decode_unit-Fits _ raw (inl refl) h
member-Fits stop_member raw h = decode_unit-Fits _ raw (inr (inl refl)) h
member-Fits restart_member raw h = decode_unit-Fits _ raw (inr (inr refl)) h
member-Fits reboot_member raw h = decode_reboot-Fits raw h

decoded-ok :
    (t : Spec) (r : Result ParamError Params) {s : Spec} {p : Params}
    → decoded t r ≡ ok (s, p)
    → (t ≡ s) × (r ≡ ok p)
unfolding decoded
decoded-ok t (ok q) h = (cc, cc)
decoded-ok t (err e) h = cc

-- What `Decode` returns, whatever the document: the operation that was named, and parameters of
-- that operation that are safe to act on. A unit operation names a well-formed unit, a reboot
-- carries a delay of at most an hour and a message of plain text, and only
-- `packages.applyAll` may ask for a reboot afterwards.
pub decode-Fits :
    (n : Name) (raw : Raw) {s : Spec} {p : Params}
    → decode n raw ≡ ok (s, p)
    → IsMember n s × Fits n s.class p
unfolding decode
decode-Fits n raw {s} {p} h = elim (Option-cases (lookup n)) [
  | inl gone ↦ absurd (not_found (rw gone at h))
  | inr (t, found) ↦
      let (same, done) = decoded-ok t (t.decode raw) (unfold decode_with in (rw found at h)) in
      subst (λ t. IsMember n t × Fits n t.class p) same
        (lookup-IsMember n found, member-Fits (lookup-IsMember n found) raw done)
]
  where
    not_found : decode_with raw none ≡ ok (s, p) → ⊥
    not_found k = unfold decode_with in cc k
