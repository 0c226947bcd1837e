-- ===== src/Base/Text.antt =====
-- Byte strings: what the code walks byte by byte.
use Prim.Native.Nat.{ℕ, ◌+◌}
use Prim.Native.Char.{code}
use Prim.Native.String.{String}
use mathlib.Core.Path.{◌≡◌}
use mathlib.Core.Logic.{◌↔◌}
use mathlib.Core.Bool.{Bool, true, false, ◌&&◌, ◌||◌}
use mathlib.Core.Option.{Option, none, some}
use mathlib.Core.List.{List, [], ◌∷◌, ◌++◌}
use native.Mathlib.Omega.{arith}
use mathlib.Core.Logic.{inl, inr}
use hostseal.Base.Tests.{leb, ◌==◌, if◌then◌else◌, Option-cases}

abbrev pub Bytes : Type 0
Bytes = List ℕ

-- The bytes of a text literal; every literal is ASCII.
abbrev pub codes : String → Bytes
codes String.[] = []
codes (String.◌∷◌ c s) = code c ∷ codes s

abbrev pub within : ℕ → ℕ → ℕ → Bool
within lo hi c = leb lo c && leb c hi

abbrev pub is_digit : ℕ → Bool
is_digit c = within b'0' b'9' c

abbrev pub is_alnum : ℕ → Bool
is_alnum c = within b'a' b'z' c || within b'A' b'Z' c || is_digit c

unfoldable pub equal : Bytes → Bytes → Bool
equal [] [] = true
equal (x ∷ xs) (y ∷ ys) = x == y && equal xs ys
equal _ _ = false

pub equal_iff : (s t : Bytes) → (equal s t ≡ true) ↔ (s ≡ t)
unfolding equal
equal_iff (c ∷ s) (d ∷ t) = ground (arith, equal_iff s t)
equal_iff _ _ = ground arith

-- `strings.HasPrefix`
unfoldable pub has_prefix : Bytes → Bytes → Bool
has_prefix [] s = true
has_prefix (p ∷ ps) [] = false
has_prefix (p ∷ ps) (c ∷ cs) = p == c && has_prefix ps cs

-- `strings.Contains`
unfoldable pub contains : Bytes → Bytes → Bool
unfolding has_prefix
contains sub [] = has_prefix sub []
contains sub (c ∷ cs) = has_prefix sub (c ∷ cs) || contains sub cs

-- What stands before a suffix; `none` if the text does not end in it.
unfoldable pub strip_suffix : Bytes → Bytes → Option Bytes
unfolding equal
strip_suffix suf [] = if equal suf [] then some [] else none
strip_suffix suf (c ∷ cs) =
    let rest : Option Bytes = elim (strip_suffix suf cs) [ none ↦ none | some p ↦ some (c ∷ p) ] in
    if equal suf (c ∷ cs) then some [] else rest

-- The white space of `strings.TrimSpace` and `strings.Fields` below U+0080.
abbrev pub is_space : ℕ → Bool
is_space c = c == b' ' || within 9 13 c

unfoldable pub trim_left : Bytes → Bytes
trim_left [] = []
trim_left (c ∷ cs) = let rest = trim_left cs in if is_space c then rest else c ∷ cs

-- Spaces at the end, and nothing else, are dropped.
unfoldable pub trim_right : Bytes → Bytes
trim_right [] = []
trim_right (c ∷ cs) = elim (trim_right cs) [
  | [] ↦ if is_space c then [] else c ∷ []
  | d ∷ ds ↦ c ∷ d ∷ ds
]

-- `strings.TrimSpace`
unfoldable pub trim_space : Bytes → Bytes
unfolding trim_left trim_right
trim_space s = trim_left (trim_right s)

-- `strings.Cut` at one byte: what stands before and after it, if it occurs.
unfoldable pub cut : ℕ → Bytes → Option (Bytes × Bytes)
cut sep [] = none
cut sep (c ∷ cs) =
    let rest : Option (Bytes × Bytes) = elim (cut sep cs) [
      | none ↦ none
      | some (a, b) ↦ some (c ∷ a, b)
    ] in
    if c == sep then some ([], cs) else rest

-- `strings.Split` at one byte.
unfoldable pub split : ℕ → Bytes → List Bytes
split sep [] = [] ∷ []
split sep (c ∷ cs) = elim (split sep cs) [
  | [] ↦ [] ∷ []
  | p ∷ ps ↦ if c == sep then [] ∷ p ∷ ps else (c ∷ p) ∷ ps
]

push_word : Bytes → List Bytes → List Bytes
push_word [] ws = ws
push_word w ws = w ∷ ws

-- `strings.Fields`: the words between spaces; the first argument is the word being read.
fields_from : Bytes → Bytes → List Bytes
unfolding push_word
fields_from w [] = push_word w []
fields_from w (c ∷ cs) =
    let stop = push_word w (fields_from [] cs) in
    let more = fields_from (w ++ c ∷ []) cs in if is_space c then stop else more

unfoldable pub fields : Bytes → List Bytes
unfolding fields_from
fields s = fields_from [] s

-- `strings.ToLower` below U+0080.
abbrev pub to_lower : Bytes → Bytes
to_lower [] = []
to_lower (c ∷ cs) = (if within b'A' b'Z' c then c + 32 else c) ∷ to_lower cs

pub strip_suffix-append : (suf s : Bytes) {p : Bytes} → strip_suffix suf s ≡ some p → s ≡ p ++ suf
unfolding strip_suffix
strip_suffix-append suf [] h = ground (arith, equal_iff suf [])
strip_suffix-append suf (c ∷ cs) h = elim (Option-cases (strip_suffix suf cs)) [
  | inl e ↦ ground (arith, equal_iff suf (c ∷ cs))
  | inr (q, e) ↦ ground (arith, equal_iff suf (c ∷ cs), strip_suffix-append suf cs e)
]
