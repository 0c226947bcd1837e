-- ===== src/Intent/Params.antt =====
-- internal/intent/params.go: the sealed parameter types, and the tests on their text.
use hostseal.Base.{
  ℕ, Bool, true, false, not, ◌&&◌, ◌||◌, List, [], ◌∷◌, Option, none, some, Result, ok, err, leb,
  ltb, ◌==◌, if◌then◌else◌, all, length, Bytes, codes, is_alnum, equal, has_prefix, contains,
  strip_suffix,
}
use hostseal.Base.Int.{ℤ}
use hostseal.Intent.Names.{Name}

pub data Params : Type 0 where
  no_params : Name → Params
  unit_params : Name → Bytes → Params
  apply_params : Name → Bool → Params
  reboot_params : Name → ℤ → Bytes → Params

-- The method `Intent()`.
abbrev pub intent : Params → Name
intent (no_params n) = n
intent (unit_params n _) = n
intent (apply_params n _) = n
intent (reboot_params n _ _) = n

-- Why parameters are refused. The text of a message is not kept.
pub data ParamError : Type 0 where
  too_large syntax unknown_parameter wrong_type trailing : ParamError
  unit_missing unit_too_long unit_hyphen unit_dot unit_dots unit_shape : ParamError
  delay_range message_hyphen message_shape : ParamError

abbrev pub max_params_bytes : ℕ
max_params_bytes = 8192

abbrev pub unit_byte : ℕ → Bool
unit_byte c = is_alnum c || c == b'@' || c == b'.' || c == b'_' || c == b'-'

-- The unit types of `unitPattern`, each with its dot.
abbrev pub unit_suffixes : List Bytes
unit_suffixes = codes ".service" ∷ codes ".socket" ∷ codes ".timer" ∷ []

unfoldable pub stem_fits : Option Bytes → Bool
stem_fits none = false
stem_fits (some []) = false
stem_fits (some (c ∷ cs)) = all unit_byte (c ∷ cs)

unfoldable pub any_stem_fits : List Bytes → Bytes → Bool
unfolding stem_fits
any_stem_fits [] s = false
any_stem_fits (suf ∷ sufs) s = stem_fits (strip_suffix suf s) || any_stem_fits sufs s

-- `^[a-zA-Z0-9@._-]+\.(service|socket|timer)$`
unfoldable pub matches_unit : Bytes → Bool
unfolding any_stem_fits
matches_unit s = any_stem_fits unit_suffixes s

unfoldable pub validate_unit : Bytes → Result ParamError (Unit {0})
validate_unit unit =
    if equal unit []
    then err unit_missing
    else if ltb 255 (length unit)
    then err unit_too_long
    else if has_prefix (codes "-") unit
    then err unit_hyphen
    else if has_prefix (codes ".") unit
    then err unit_dot
    else if contains (codes "..") unit
    then err unit_dots
    else if not (matches_unit unit)
    then err unit_shape
    else ok tt

abbrev pub message_byte : ℕ → Bool
message_byte c =
    is_alnum c || c == b' ' || c == b'.' || c == b',' || c == b':' || c == b'_' || c == b'-'

-- `^[A-Za-z0-9 .,:_-]{0,200}$`
unfoldable pub matches_message : Bytes → Bool
matches_message s = leb (length s) 200 && all message_byte s

-- `MayNotReturn(s, p)`, of the flag of the spec.
unfoldable pub may_not_return : Bool → Params → Bool
may_not_return true p = true
may_not_return false (apply_params _ reboot) = reboot
may_not_return false _ = false
