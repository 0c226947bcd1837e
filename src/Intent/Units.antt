-- ===== src/Intent/Units.antt =====
-- internal/intent/params.go: what `validateUnit` lets through.
use hostseal.Base.{
  ◌≤◌, ◌≡◌, ◌≢◌, refl, true, false, List, [], ◌∷◌, ◌++◌, Option, none, some, ok, arith, all, All,
  In, In-All, length, all_of-All, All-append, Bool-cases, inl, inr, Bytes, codes, strip_suffix,
  strip_suffix-append, has_prefix, contains, subst, sym,
}
use hostseal.Intent.Params.{
  unit_byte, unit_suffixes, stem_fits, any_stem_fits, matches_unit, validate_unit,
}

-- A name that is safe to hand to systemd: a stem of unit bytes, and one of the three types.
pub record IsUnitName (u : Bytes) : Type 0 where
  pub stem : Bytes
  pub suffix : Bytes
  pub splits : u ≡ stem ++ suffix
  pub stem_ne_nil : stem ≢ []
  pub known : In suffix unit_suffixes
  pub bytes : All (λ c. unit_byte c ≡ true) u
  pub short : length u ≤ 255
  pub no_option : has_prefix (codes "-") u ≡ false
  pub no_hidden : has_prefix (codes ".") u ≡ false
  pub no_parent : contains (codes "..") u ≡ false

abbrev Splits : List Bytes → Bytes → Type 0
Splits sufs u =
    (stem : Bytes) × (suf : Bytes) × (u ≡ stem ++ suf)
    × (stem ≢ [])
    × In suf sufs
    × (all unit_byte stem ≡ true)

stem_fits-some :
    (suf u : Bytes)
    → stem_fits (strip_suffix suf u) ≡ true
    → (stem : Bytes) × (u ≡ stem ++ suf) × (stem ≢ []) × (all unit_byte stem ≡ true)
stem_fits-some suf u h = go (strip_suffix suf u) refl h
  where
    go :
        (o : Option Bytes)
        → strip_suffix suf u ≡ o
        → stem_fits o ≡ true
        → (stem : Bytes) × (u ≡ stem ++ suf) × (stem ≢ []) × (all unit_byte stem ≡ true)
    go none e k = unfold stem_fits in cc k
    go (some []) e k = unfold stem_fits in cc k
    go (some (c ∷ cs)) e k =
        (c ∷ cs, strip_suffix-append suf u e, (λ z. cc z), unfold stem_fits in k)

any_stem_fits-Splits : (sufs : List Bytes) (u : Bytes) → any_stem_fits sufs u ≡ true → Splits sufs u
unfolding any_stem_fits
any_stem_fits-Splits [] u h = cc
any_stem_fits-Splits (suf ∷ sufs) u h = elim (Bool-cases (stem_fits (strip_suffix suf u))) [
  | inl hit ↦ let (stem, e, ne, b) = stem_fits-some suf u hit in (stem, suf, e, ne, inl refl, b)
  | inr miss ↦
      let (stem, s, e, ne, i, b) = any_stem_fits-Splits sufs u (ground (arith, h, miss)) in
      (stem, s, e, ne, inr i, b)
]

suffix_bytes : {suf : Bytes} → In suf unit_suffixes → All (λ c. unit_byte c ≡ true) suf
suffix_bytes = In-All (All (λ c. unit_byte c ≡ true)) unit_suffixes (
  all_of-All unit_byte (codes ".service") refl,
  (all_of-All unit_byte (codes ".socket") refl, (all_of-All unit_byte (codes ".timer") refl, tt)),
)

matches_unit-Splits : (u : Bytes) → matches_unit u ≡ true → Splits unit_suffixes u
unfolding matches_unit
matches_unit-Splits u h = any_stem_fits-Splits unit_suffixes u h

-- `validateUnit` accepts nothing but the name of a unit of the three types, of at most 255 bytes
-- of the permitted ones, that does not begin with a hyphen or a dot and holds no two dots in a row.
pub validate_unit-IsUnitName : (u : Bytes) → validate_unit u ≡ ok tt → IsUnitName u
unfolding validate_unit
validate_unit-IsUnitName u h =
    let (stem, suf, e, ne, i, b) = matches_unit-Splits u (ground arith) in
    record {
      stem = stem;
      suffix = suf;
      splits = e;
      stem_ne_nil = ne;
      known = i;
      bytes =
          subst (All (λ c. unit_byte c ≡ true)) (sym e)
            (All-append _ stem suf (all_of-All unit_byte stem b) (suffix_bytes i));
      short = ground arith;
      no_option = ground arith;
      no_hidden = ground arith;
      no_parent = ground arith;
    }
