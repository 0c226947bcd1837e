-- ===== src/Signing/Trusted.antt =====
-- internal/signing/signers.go: which keys a trusted-signers file stands for.
use hostseal.Base.{
  ◌≡◌, ◌↔◌, refl, subst, String, Bool, true, false, Option, none, some, List, [], ◌∷◌, Result, ok,
  err, ok_inj, Bytes, inl, inr, Bool-cases, trim_space, fields,
}
use hostseal.Signing.{PublicKey, SignerSet}
use hostseal.Signing.Parse.{
  ParseError, Format, decoded_entry, entry, is_skipped, is_used, added, taken, parse_lines, scanned,
  parse_signers,
}

-- The fields of a line, and the key that they stand for.
pub data Entry (f : Format) : List Bytes → PublicKey → Type 0 where
  of_three :
      {a e i key : Bytes}
      → f.parse_public_key a e ≡ some key
      → Entry f
          (a ∷ e ∷ i ∷ [])
          (record { algorithm = f.text a; key_id = f.text i; backend = ""; key = key })
  of_four :
      {a e i b key : Bytes}
      → f.parse_public_key a e ≡ some key
      → Entry f
          (a ∷ e ∷ i ∷ b ∷ [])
          (record { algorithm = f.text a; key_id = f.text i; backend = f.text b; key = key })

-- The keys that the lines of a file stand for, if each line stands for one or for none.
pub data Lists (f : Format) : List Bytes → SignerSet → Type 0 where
  at_end : Lists f [] []
  skips :
      {line : Bytes} {lines : List Bytes} {ks : SignerSet}
      → is_skipped line ≡ true
      → Lists f lines ks
      → Lists f (line ∷ lines) ks
  takes :
      {line : Bytes} {lines : List Bytes} {k : PublicKey} {ks : SignerSet}
      → is_skipped line ≡ false
      → Entry f (fields (trim_space line)) k
      → Lists f lines ks
      → Lists f (line ∷ lines) (k ∷ ks)

-- No key has the id of one before it.
abbrev pub Fresh : List String → SignerSet → Type 0
Fresh seen [] = Unit
Fresh seen (k ∷ ks) = (is_used k.key_id seen ≡ false) × Fresh (k.key_id ∷ seen) ks

module _ (f : Format) where
  decoded_three :
      (a e i : Bytes) (o : Option Bytes) (k : PublicKey)
      → f.parse_public_key a e ≡ o
      → decoded_entry (f.text a) (f.text i) "" o ≡ ok k
      → Entry f (a ∷ e ∷ i ∷ []) k
  unfolding decoded_entry
  decoded_three a e i none k h q = absurd (cc (q))
  decoded_three a e i (some key) k h q = subst (Entry f (a ∷ e ∷ i ∷ [])) (ok_inj q) (of_three h)

  decoded_four :
      (a e i b : Bytes) (o : Option Bytes) (k : PublicKey)
      → f.parse_public_key a e ≡ o
      → decoded_entry (f.text a) (f.text i) (f.text b) o ≡ ok k
      → Entry f (a ∷ e ∷ i ∷ b ∷ []) k
  unfolding decoded_entry
  decoded_four a e i b none k h q = absurd (cc (q))
  decoded_four a e i b (some key) k h q =
      subst (Entry f (a ∷ e ∷ i ∷ b ∷ [])) (ok_inj q) (of_four h)

  entry-Entry : (xs : List Bytes) (k : PublicKey) → entry f xs ≡ ok k → Entry f xs k
  unfolding entry
  entry-Entry [] k q = absurd (cc (q))
  entry-Entry (a ∷ []) k q = absurd (cc (q))
  entry-Entry (a ∷ e ∷ []) k q = absurd (cc (q))
  entry-Entry (a ∷ e ∷ i ∷ []) k q = decoded_three a e i (f.parse_public_key a e) k refl q
  entry-Entry (a ∷ e ∷ i ∷ b ∷ []) k q = decoded_four a e i b (f.parse_public_key a e) k refl q
  entry-Entry (a ∷ e ∷ i ∷ b ∷ c ∷ rest) k q = absurd (cc (q))

  Entry-entry : {xs : List Bytes} {k : PublicKey} → Entry f xs k → entry f xs ≡ ok k
  unfolding entry decoded_entry
  Entry-entry (of_three h) = rw h refl
  Entry-entry (of_four h) = rw h refl

  Reads : List String → List Bytes → SignerSet → Type 0
  Reads seen lines ks = Lists f lines ks × Fresh seen ks

  added-ok :
      (k : PublicKey) (r : Result ParseError SignerSet) {ks : SignerSet}
      → added k r ≡ ok ks
      → (js : SignerSet) × (r ≡ ok js) × (k ∷ js ≡ ks)
  added-ok k (err e) q = absurd (cc (q))
  added-ok k (ok js) q = (js, refl, ok_inj q)

  taken-ok :
      (seen : List String) (next : List String → Result ParseError SignerSet)
      (r : Result ParseError PublicKey) {ks : SignerSet}
      → taken seen next r ≡ ok ks
      → (k : PublicKey) × (js : SignerSet) × (r ≡ ok k)
        × (is_used k.key_id seen ≡ false)
        × (next (k.key_id ∷ seen) ≡ ok js)
        × (k ∷ js ≡ ks)
  taken-ok seen next (err e) q = absurd (cc (q))
  taken-ok seen next (ok k) q = elim (Bool-cases (is_used k.key_id seen)) [
    | inl d ↦ absurd (cc (rw d at q))
    | inr d ↦
        let (js, a, b) = added-ok k (next (k.key_id ∷ seen)) (rw d at q) in (k, js, refl, d, a, b)
  ]

  parse_lines-Reads :
      (seen : List String) (lines : List Bytes) (ks : SignerSet)
      → parse_lines f seen lines ≡ ok ks
      → Reads seen lines ks
  unfolding parse_lines Reads
  parse_lines-Reads seen [] ks q = subst (Reads seen []) (ok_inj q) (at_end, tt)
  parse_lines-Reads seen (line ∷ lines) ks q = elim (Bool-cases (is_skipped line)) [
    | inl s ↦ let (l, h) = parse_lines-Reads seen lines ks (rw s at q) in (skips s l, h)
    | inr s ↦
        let (k, js, r, d, n, e) =
          taken-ok seen (λ x. parse_lines f x lines) (entry f (fields (trim_space line)))
            (rw s at q) in
        let (l, h) = parse_lines-Reads (k.key_id ∷ seen) lines js n in
        subst (Reads seen (line ∷ lines)) e
          (takes s (entry-Entry (fields (trim_space line)) k r) l, (d, h))
  ]

  Reads-parse_lines :
      (seen : List String) {lines : List Bytes} {ks : SignerSet}
      → Lists f lines ks
      → Fresh seen ks
      → parse_lines f seen lines ≡ ok ks
  unfolding parse_lines
  Reads-parse_lines seen at_end h = refl
  Reads-parse_lines seen (skips s l) h = rw s (Reads-parse_lines seen l h)
  Reads-parse_lines seen (takes {k = k} s e l) (d, h) =
      rw (s, Entry-entry e, d, Reads-parse_lines (k.key_id ∷ seen) l h) refl

  scanned-ok :
      (stopped : Bool) (r : Result ParseError SignerSet) (ks : SignerSet)
      → scanned stopped r ≡ ok ks
      → (stopped ≡ false) × (r ≡ ok ks)
  scanned-ok stopped (err e) ks q = absurd (cc (q))
  scanned-ok false (ok js) ks q = (refl, q)
  scanned-ok true (ok js) ks q = absurd (cc (q))

  -- A trusted-signers file is read exactly if the scanner came to its end, every line that is
  -- neither blank nor a comment stands for a key, and no key has the id of one before it; then the
  -- set holds those keys, all of them and in the order of their lines. Otherwise there is an error
  -- and no set.
  pub parse_signers_iff :
      (lines : List Bytes) (stopped : Bool) (ks : SignerSet)
      → (parse_signers f lines stopped ≡ ok ks)
        ↔ ((stopped ≡ false) × Lists f lines ks × Fresh [] ks)
  unfolding parse_signers Reads
  parse_signers_iff lines stopped ks = (
    (λ q.
        let (s, r) = scanned-ok stopped (parse_lines f [] lines) ks q in
        let (l, h) = parse_lines-Reads [] lines ks r in (s, l, h)),
    (λ (s, l, h). rw (s, Reads-parse_lines [] l h) refl),
  )
