-- ===== src/Intent/Decode.antt =====
-- internal/intent/params.go: `strictUnmarshal` and the decoder of each kind of parameters.
use hostseal.Base.{
  Bool, false, not, ◌||◌, Option, none, some, [], Result, ok, err, ◌>>=◌, ◌>>◌, require, ltb,
  if◌then◌else◌, Bytes, codes, has_prefix,
}
use hostseal.Base.Int.{ℤ, pos, ltb_ℤ}
use hostseal.Json.{
  Json, null, object, Fields, end, field, Raw, FieldError, unknown_field, mismatch, saved, is_field,
  set_text, set_bool, set_int,
}
use hostseal.Intent.Names.{Name, packages_apply_security, packages_apply_all}
use hostseal.Intent.Params.{
  Params, no_params, unit_params, apply_params, reboot_params, ParamError, too_large, syntax,
  unknown_parameter, wrong_type, trailing, delay_range, message_hyphen, message_shape,
  max_params_bytes, validate_unit, matches_message,
}

-- How a struct takes one field: `none` where it has no such field, `some none` where the value
-- is of another type.
abbrev pub Setter : Type 0 → Type 0
Setter W = W → Bytes → Json → Option (Option W)

module _ {W : Type 0} (set : Setter W) where
  -- The loop of the decoder over an object, with the error that it has saved.
  unfoldable pub fill : W → Option FieldError → Fields → W × Option FieldError
  fill w e end = (w, e)
  fill w e (field key v fs) = elim (set w key v) [
    | none ↦ fill w (saved e unknown_field) fs
    | some none ↦ fill w (saved e mismatch) fs
    | some (some w') ↦ fill w' e fs
  ]

  unfoldable pub decode_fields : W → Fields → Result ParamError W
  unfolding fill
  decode_fields w fs =
      let (w', e) = fill w none fs in
      elim e [
        | none ↦ ok w'
        | some unknown_field ↦ err unknown_parameter
        | some mismatch ↦ err wrong_type
      ]

  -- `null` leaves the struct as it was; no other value but an object fits.
  unfoldable pub decode_value : W → Json → Result ParamError W
  unfolding decode_fields
  decode_value w null = ok w
  decode_value w (object fs) = decode_fields w fs
  decode_value w _ = err wrong_type

  unfoldable pub decode_first : W → Option Json → Result ParamError W
  unfolding decode_value
  decode_first w none = err syntax
  decode_first w (some v) = decode_value w v

  unfoldable pub strict_unmarshal : W → Raw → Result ParamError W
  unfolding decode_first
  strict_unmarshal w raw = do
    require (not (ltb max_params_bytes raw.size)) too_large
    out ← (if raw.blank then ok w else decode_first w raw.first)
    require (raw.blank || not raw.more) trailing
    ok out

abbrev pub set_nothing : Setter (Unit {0})
set_nothing w key v = none

abbrev set_unit : Setter Bytes
set_unit w key v = if is_field (codes "unit") key then some (set_text w v) else none

abbrev set_reboot_flag : Setter Bool
set_reboot_flag w key v =
    if is_field (codes "rebootIfRequired") key then some (set_bool w v) else none

-- The struct of `decodeReboot`.
pub record RebootWire : Type 0 where
  pub delay_seconds : ℤ
  pub message : Bytes

with_delay : RebootWire → Option ℤ → Option RebootWire
with_delay w none = none
with_delay w (some n) = some (record w { delay_seconds = n })

with_message : RebootWire → Option Bytes → Option RebootWire
with_message w none = none
with_message w (some s) = some (record w { message = s })

set_reboot : Setter RebootWire
unfolding with_delay with_message
set_reboot w key v =
    if is_field (codes "delaySeconds") key
    then some (with_delay w (set_int w.delay_seconds v))
    else if is_field (codes "message") key
    then some (with_message w (set_text w.message v))
    else none

unfoldable pub decode_empty : Name → Raw → Result ParamError Params
decode_empty n raw = do strict_unmarshal set_nothing tt raw; ok (no_params n)

unfoldable pub decode_unit : Name → Raw → Result ParamError Params
decode_unit n raw = do
  unit ← strict_unmarshal set_unit [] raw
  validate_unit unit
  ok (unit_params n unit)

unfoldable pub decode_apply_all : Raw → Result ParamError Params
decode_apply_all raw = do
  reboot ← strict_unmarshal set_reboot_flag false raw
  ok (apply_params packages_apply_all reboot)

unfoldable pub decode_apply_security : Raw → Result ParamError Params
decode_apply_security raw = do
  strict_unmarshal set_nothing tt raw
  ok (apply_params packages_apply_security false)

-- `decodeReboot` behind `strictUnmarshal`.
unfoldable pub check_reboot : Name → RebootWire → Result ParamError Params
check_reboot n wire =
    if ltb_ℤ wire.delay_seconds (pos 0) || ltb_ℤ (pos 3600) wire.delay_seconds
    then err delay_range
    else if has_prefix (codes "-") wire.message
    then err message_hyphen
    else if not (matches_message wire.message)
    then err message_shape
    else ok (reboot_params n wire.delay_seconds wire.message)

unfoldable pub decode_reboot : Name → Raw → Result ParamError Params
unfolding set_reboot
decode_reboot n raw = do
  wire ← strict_unmarshal set_reboot (record { delay_seconds = pos 0; message = [] }) raw
  check_reboot n wire
