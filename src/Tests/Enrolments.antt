-- ===== src/Tests/Enrolments.antt =====
-- A host that is enrolled with a template.
use hostseal.Base.{
  ◌≡◌, ◌≤◌, refl, sym, subst, inl, true, some, none, In, [], ◌∷◌, codes, equal, length,
}
use hostseal.Signing.{PublicKey, SignerSet, verify}
use hostseal.Canonical.Order.{members, insert, before}
use hostseal.Canonical.Strings.{write_char, write_chars, write_string, valid_utf8, quoted}
use hostseal.Canonical.Write.{write_members, write}
use hostseal.Server.Jobs.{valid_job_id}
use hostseal.Agent.Enrol.{
  Crypto, Bootstrap, missing, Disk, World, checked_by, check_template, verify_bootstrap,
  apply_bootstrap, conclude, settle, verified, answered, anchored, enroll,
}
use hostseal.Agent.Templates.{Authorised, enroll-Authorised}
use hostseal.Agent.ApplyOnce.{enrolments, enrolments-once}

-- A stand-in for the cryptography that takes every signature.
abbrev crypto : Crypto
crypto = record { check = λ k payload sig. true; decode64 = λ s. some (codes "sig") }

abbrev ops_key : PublicKey
ops_key = record { algorithm = "ed25519"; key_id = "ops"; backend = ""; key = codes "K" }

abbrev template : Bootstrap
template = record {
  name = codes "web";
  body = codes "#cloud-config";
  signature = "c2ln";
  signer_key_id = "ops";
}

abbrev fair : World
fair = record {
  anchor = some (ops_key ∷ []);
  response =
      some
        record { host_id = "h1"; certificate = "pem"; ca_bundle = ""; bootstrap = some template };
  credential_written = true;
  ca_written = true;
  state_written = true;
  adopted = true;
  record_written = true;
  seed_written = true;
  applied = true;
  adopted_again = true;
}

abbrev bare : Disk
bare = record { bootstrap_record = missing; credential = none; host_id = none }

given : (enroll crypto (codes "web") fair bare).2 ≡ template ∷ []
unfolding enroll anchored answered settle verified conclude apply_bootstrap verify_bootstrap
    check_template checked_by verify equal valid_job_id write write_members members insert before
    write_string quoted write_chars write_char valid_utf8
given = refl

enroll-Authorised_example :
    (ks : SignerSet) × (fair.anchor ≡ some ks)
    × Authorised crypto (codes "web") ks bare (enroll crypto (codes "web") fair bare).0 template
enroll-Authorised_example =
    enroll-Authorised crypto (codes "web") fair bare template
      (subst (In template) (sym given) (inl refl))

enrolments-once_example :
    length (enrolments crypto ((codes "web", fair) ∷ (codes "web", fair) ∷ []) bare) ≤ 1
enrolments-once_example =
    enrolments-once crypto ((codes "web", fair) ∷ (codes "web", fair) ∷ []) bare
