-- ===== src/Signing/Parse.antt =====
-- internal/signing/signers.go: `ParseSigners`. `ParsePublicKey` decodes with the libraries and is a
-- parameter, as is the scanner, which gives its lines and whether it stopped at an error. Texts
-- are ASCII here.
use hostseal.Base.{
  String, Bool, true, false, ◌||◌, Option, none, some, List, [], ◌∷◌, Result, ok, err, Bytes,
  str_eq, equal, trim_space, fields, has_prefix, codes, if◌then◌else◌,
}
use hostseal.Signing.{PublicKey, SignerSet}

pub data ParseError : Type 0 where
  too_few_fields too_many_fields not_a_key duplicate unreadable : ParseError

-- `ParsePublicKey`, from the algorithm and the encoded key, and a text as a name.
pub record Format : Type 0 where
  pub parse_public_key : Bytes → Bytes → Option Bytes
  pub text : Bytes → String

unfoldable pub decoded_entry : String → String → String → Option Bytes → Result ParseError PublicKey
decoded_entry algorithm id backend none = err not_a_key
decoded_entry algorithm id backend (some key) =
    ok record { algorithm = algorithm; key_id = id; backend = backend; key = key }

unfoldable pub entry : Format → List Bytes → Result ParseError PublicKey
unfolding decoded_entry
entry f [] = err too_few_fields
entry f (a ∷ []) = err too_few_fields
entry f (a ∷ e ∷ []) = err too_few_fields
entry f (a ∷ e ∷ i ∷ []) = decoded_entry (f.text a) (f.text i) "" (f.parse_public_key a e)
entry f (a ∷ e ∷ i ∷ b ∷ []) =
    decoded_entry (f.text a) (f.text i) (f.text b) (f.parse_public_key a e)
entry f (a ∷ e ∷ i ∷ b ∷ c ∷ rest) = err too_many_fields

-- Blank lines and comments.
abbrev pub is_skipped : Bytes → Bool
is_skipped line = equal (trim_space line) [] || has_prefix (codes "#") (trim_space line)

abbrev pub is_used : String → List String → Bool
is_used id [] = false
is_used id (s ∷ seen) = str_eq s id || is_used id seen

abbrev pub added : PublicKey → Result ParseError SignerSet → Result ParseError SignerSet
added k (err e) = err e
added k (ok ks) = ok (k ∷ ks)

-- One entry, then the lines after it.
abbrev pub taken :
    List String
    → (List String → Result ParseError SignerSet)
    → Result ParseError PublicKey
    → Result ParseError SignerSet
taken seen next (err e) = err e
taken seen next (ok k) =
    if is_used k.key_id seen then err duplicate else added k (next (k.key_id ∷ seen))

unfoldable pub parse_lines : Format → List String → List Bytes → Result ParseError SignerSet
unfolding entry
parse_lines f seen [] = ok []
parse_lines f seen (line ∷ lines) =
    let rest = parse_lines f seen lines in
    let next = taken seen (λ s. parse_lines f s lines) (entry f (fields (trim_space line))) in
    if is_skipped line then rest else next

abbrev pub scanned : Bool → Result ParseError SignerSet → Result ParseError SignerSet
scanned stopped (err e) = err e
scanned false (ok ks) = ok ks
scanned true (ok ks) = err unreadable

-- `ParseSigners`
unfoldable pub parse_signers : Format → List Bytes → Bool → Result ParseError SignerSet
unfolding parse_lines
parse_signers f lines stopped = scanned stopped (parse_lines f [] lines)
