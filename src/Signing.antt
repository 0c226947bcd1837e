-- ===== src/Signing.antt =====
-- internal/signing/signers.go: the set of trusted signers and `Verify`.
pub mod Parse
pub mod Trusted
use hostseal.Base.{
  String, Bool, true, false, ◌≡◌, Option, none, some, List, [], ◌∷◌, if◌then◌else◌, Bytes, In, inl,
  inr, Bool-cases, some_inj, subst,
}

-- `PublicKey`. A key is its bytes; which of the two algorithms checks it goes by `algorithm`.
pub record PublicKey : Type 0 where
  pub algorithm : String
  pub key_id : String
  pub backend : String
  pub key : Bytes

-- The keys in file order. The nil set and the empty set are one: no method tells them apart but
-- by the text of a message.
abbrev pub SignerSet : Type 0
SignerSet = List PublicKey

-- `PublicKey.Verify`, of the cryptographic library: key, payload, signature.
abbrev pub Check : Type 0
Check = PublicKey → Bytes → Bytes → Bool

abbrev pub is_empty : SignerSet → Bool
is_empty [] = true
is_empty (_ ∷ _) = false

-- `SignerSet.Verify`: the first key that checks out.
unfoldable pub verify : Check → SignerSet → Bytes → Bytes → Option PublicKey
verify check [] payload sig = none
verify check (k ∷ ks) payload sig =
    if check k payload sig then some k else verify check ks payload sig

-- The key that `Verify` returns is in the set, and checks the payload and the signature.
pub verify_sound :
    (check : Check) (ks : SignerSet) (payload sig : Bytes) {k : PublicKey}
    → verify check ks payload sig ≡ some k
    → In k ks × (check k payload sig ≡ true)
unfolding verify
verify_sound check [] payload sig h = cc
verify_sound check (k ∷ ks) payload sig h = elim (Bool-cases (check k payload sig)) [
  | inl good ↦
      let e : k ≡ _ = some_inj (rw good at h) in
      (inl e, subst (λ j. check j payload sig ≡ true) e good)
  | inr bad ↦ let (i, good) = verify_sound check ks payload sig (rw bad at h) in (inr i, good)
]
