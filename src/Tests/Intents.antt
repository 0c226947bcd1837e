-- ===== src/Tests/Intents.antt =====
-- internal/intent at concrete documents.
use hostseal.Base.{
  has_prefix, contains, strip_suffix, equal, true, false, ◌≡◌, ◌≤◌, ◌↔◌, refl, some, ok, Bytes,
  codes,
}
use hostseal.Json.{boolean, text, object, Fields, end, field, Raw, is_field}
use hostseal.Intent.Names.{service_restart, packages_apply_security, destructive}
use hostseal.Intent.Params.{
  Params, unit_params, apply_params, validate_unit, matches_unit, max_params_bytes,
}
use hostseal.Intent.Decode.{strict_unmarshal, decode_unit, decode_apply_security}
use hostseal.Intent.Catalogue.{Spec, lookup, decode, IsMember, spec}
use hostseal.Intent.Nothing.{IsVacant, decode_apply_security_iff}
use hostseal.Intent.Safety.{Fits, decode-Fits}

abbrev pub doc : Fields → Raw
doc fs = record { size = 40; blank = false; first = some (object fs); more = false }

abbrev pub nginx : Bytes
nginx = codes "nginx.service"

abbrev pub restart_spec : Spec
restart_spec = spec service_restart destructive (decode_unit service_restart)

restart_nginx :
    decode service_restart (doc (field (codes "unit") (text nginx) end))
    ≡ ok (restart_spec, unit_params service_restart nginx)
unfolding decode lookup decode_unit strict_unmarshal validate_unit matches_unit is_field has_prefix
    contains strip_suffix
restart_nginx = refl

decode-Fits_example :
    IsMember service_restart restart_spec
    × Fits service_restart destructive (unit_params service_restart nginx)
decode-Fits_example =
    decode-Fits service_restart (doc (field (codes "unit") (text nginx) end)) restart_nginx

nginx_valid : validate_unit nginx ≡ ok tt
unfolding validate_unit matches_unit equal has_prefix contains strip_suffix
nginx_valid = refl

decode_apply_security_iff_example :
    (decode_apply_security (doc (field (codes "rebootIfRequired") (boolean true) end))
      ≡ ok (apply_params packages_apply_security false))
    ↔ ((40 ≤ max_params_bytes)
        × IsVacant (doc (field (codes "rebootIfRequired") (boolean true) end))
        × (◌≡◌ {A = Params}
            (apply_params packages_apply_security false)
            (apply_params packages_apply_security false)))
decode_apply_security_iff_example =
    decode_apply_security_iff (doc (field (codes "rebootIfRequired") (boolean true) end))
      (apply_params packages_apply_security false)
