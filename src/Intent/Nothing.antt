-- ===== src/Intent/Nothing.antt =====
-- internal/intent/params.go: the operations that take no parameters.
use hostseal.Base.{
  ◌≤◌, ◌≡◌, ◌↔◌, ◌⊎◌, inl, inr, refl, sym, true, false, not, ◌||◌, Option, none, some, ok, err,
  ok_inj, require-bind, >>=-eq-ok, if◌then◌else◌, arith, ltb, Bool-cases,
}
use hostseal.Json.{
  Json, null, boolean, number, text, array, object, Fields, end, field, Raw, unknown_field,
}
use hostseal.Intent.Names.{packages_apply_security}
use hostseal.Intent.Params.{
  Params, apply_params, unknown_parameter, too_large, trailing, max_params_bytes,
}
use hostseal.Intent.Decode.{
  set_nothing, fill, decode_fields, decode_value, decode_first, strict_unmarshal,
  decode_apply_security,
}

-- A document without a parameter: at most space, `null` or the empty object, and nothing behind it.
pub data IsVacant (raw : Raw) : Type 0 where
  space : raw.blank ≡ true → IsVacant raw
  absent : raw.first ≡ some null → raw.more ≡ false → IsVacant raw
  empty : raw.first ≡ some (object end) → raw.more ≡ false → IsVacant raw

fill-unknown :
    (fs : Fields) → fill set_nothing tt (some unknown_field) fs ≡ (tt, some unknown_field)
unfolding fill
fill-unknown end = refl
fill-unknown (field k v fs) = fill-unknown fs

decode_fields-field :
    (k : _) (v : Json) (fs : Fields)
    → decode_fields set_nothing tt (field k v fs) ≡ err unknown_parameter
unfolding decode_fields fill
decode_fields-field k v fs = rw (fill-unknown fs) refl

decode_first-vacant :
    (v : Option Json)
    → decode_first set_nothing tt v ≡ ok tt
    → (v ≡ some null) ⊎ (v ≡ some (object end))
unfolding decode_first decode_value decode_fields fill
decode_first-vacant (some null) h = inl refl
decode_first-vacant (some (object end)) h = inr refl
decode_first-vacant (some (object (field k v fs))) h = absurd (cc (decode_fields-field k v fs, h))
decode_first-vacant none h = cc
decode_first-vacant (some (boolean b)) h = cc
decode_first-vacant (some (number n)) h = cc
decode_first-vacant (some (text t)) h = cc
decode_first-vacant (some (array a)) h = cc

vacant :
    (raw : Raw)
    → strict_unmarshal set_nothing tt raw ≡ ok tt
    → (raw.size ≤ max_params_bytes) × IsVacant raw
unfolding strict_unmarshal
vacant raw h =
    let (small, h1) = require-bind (not (ltb max_params_bytes raw.size)) too_large _ h in
    let (u, m, h2) =
      >>=-eq-ok (if raw.blank then ok tt else decode_first set_nothing tt raw.first) _ h1 in
    let (behind, h3) = require-bind (raw.blank || not raw.more) trailing _ h2 in
    (
      ground arith,
      elim (Bool-cases raw.blank) [
        | inl b ↦ space b
        | inr b ↦ elim (decode_first-vacant raw.first (rw b at m)) [
          | inl n ↦ absent n (ground arith)
          | inr e ↦ empty e (ground arith)
        ]
      ],
    )

vacant-fits :
    (raw : Raw)
    → raw.size ≤ max_params_bytes
    → IsVacant raw
    → strict_unmarshal set_nothing tt raw ≡ ok tt
unfolding strict_unmarshal decode_first decode_value decode_fields fill
vacant-fits raw le (space b) = ground arith
vacant-fits raw le (absent f m) = rw f (ground arith)
vacant-fits raw le (empty f m) = rw f (ground arith)

-- `packages.applySecurity` takes a document of at most 8192 bytes that names no parameter, not even
-- `rebootIfRequired`, and it takes each of those, as an update without a reboot: not only the empty
-- object, but also `null` and a document of nothing but space.
pub decode_apply_security_iff :
    (raw : Raw) (p : Params)
    → (decode_apply_security raw ≡ ok p) ↔ (
        (raw.size ≤ max_params_bytes)
        × IsVacant raw
        × (p ≡ apply_params packages_apply_security false))
unfolding decode_apply_security
decode_apply_security_iff raw p = (
  (λ h.
      let (u, m, e) = >>=-eq-ok (strict_unmarshal set_nothing tt raw) _ h in
      let (le, v) = vacant raw m in (le, v, sym (ok_inj e))),
  (λ (le, v, e). rw (vacant-fits raw le v, e) refl),
)
