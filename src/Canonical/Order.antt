-- ===== src/Canonical/Order.antt =====
-- internal/canonical/canonical.go: the members of an object as Go holds and sorts them.
use hostseal.Base.{Bool, true, false, List, [], ◌∷◌, if◌then◌else◌, ltb, ◌==◌, Bytes, equal}

-- `<` on strings, byte by byte.
unfoldable pub before : Bytes → Bytes → Bool
before [] [] = false
before [] (d ∷ t) = true
before (c ∷ s) [] = false
before (c ∷ s) (d ∷ t) = let rest = before s t in if c == d then rest else ltb c d

module _ {V : Type 0} where
  -- A member is put where its key belongs. One that stands there already came later in the document.
  unfoldable pub insert : Bytes → V → List (Bytes × V) → List (Bytes × V)
  insert k v [] = (k, v) ∷ []
  insert k v ((l, w) ∷ es) =
      let further = (l, w) ∷ insert k v es in
      if equal k l then (l, w) ∷ es else if before k l then (k, v) ∷ (l, w) ∷ es else further

  -- The decoder's `map[string]any`, of which the last member of a key stays, by `sort.Strings`.
  unfoldable pub members : List (Bytes × V) → List (Bytes × V)
  unfolding insert
  members [] = []
  members ((k, v) ∷ es) = insert k v (members es)
