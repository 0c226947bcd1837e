-- ===== src/Tests/Signers.antt =====
-- internal/signing/signers.go on a small file.
use hostseal.Base.{
  ◌≡◌, ◌↔◌, refl, false, some, none, [], ◌∷◌, List, Bytes, codes, equal, ok, if◌then◌else◌,
  trim_space, fields, has_prefix,
}
use hostseal.Signing.{PublicKey}
use hostseal.Signing.Parse.{Format, parse_signers, parse_lines, entry, decoded_entry}
use hostseal.Signing.Trusted.{Lists, Fresh, parse_signers_iff}

-- One key decodes, and the names are those of the file.
abbrev plain : Format
plain = record {
  parse_public_key =
      λ algorithm encoded. if equal encoded (codes "QUJD") then some (codes "ABC") else none;
  text = λ b. if equal b (codes "alice") then "alice" else "ed25519";
}

abbrev file : List Bytes
file = codes "# who may sign" ∷ codes "" ∷ codes "ed25519  QUJD alice" ∷ []

abbrev alice : PublicKey
alice = record { algorithm = "ed25519"; key_id = "alice"; backend = ""; key = codes "ABC" }

reads : parse_signers plain file false ≡ ok (alice ∷ [])
unfolding parse_signers parse_lines entry decoded_entry equal trim_space has_prefix fields
reads = refl

parse_signers_iff_example :
    (parse_signers plain file false ≡ ok (alice ∷ []))
    ↔ ((false ≡ false) × Lists plain file (alice ∷ []) × Fresh [] (alice ∷ []))
parse_signers_iff_example = parse_signers_iff plain file false (alice ∷ [])
