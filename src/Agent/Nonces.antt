-- ===== src/Agent/Nonces.antt =====
-- internal/agent/nonces.go: the replay store.
use hostseal.Base.{
  ◌≤◌, ◌<◌, ◌≡◌, ◌≢◌, inl, inr, sym, subst, String, Bool, true, false, not, ◌||◌, List, [], ◌∷◌,
  arith, ltb, str_eq, eq_iff, if◌then◌else◌, keep, Bool-cases, Result, ok, err, lt→ltb,
}
use hostseal.Policy.Time.{Time, is_zero}

-- `seen`, a map from nonces to expiries. Where a nonce stands twice, the front row counts.
abbrev pub Rows : Type 0
Rows = List (String × Time)

-- The map in memory, and the one that the file holds.
pub record NonceStore : Type 0 where
  pub seen : Rows
  pub file : Rows

unfoldable pub is_seen : String → Rows → Bool
is_seen n [] = false
is_seen n ((m, _) ∷ rest) = str_eq m n || is_seen n rest

-- `delete(n.seen, nonce)`
unfoldable pub remove : String → Rows → Rows
remove n s = keep (λ e. not (str_eq e.0 n)) s

-- What is not expired at `now` is kept.
unfoldable pub prune : Time → Rows → Rows
prune now s = keep (λ e. ltb now e.1) s

pub data NonceError : Type 0 where
  no_nonce no_expiry not_written : NonceError

-- The row is added to the rows given and written to the file, or taken out again if that fails.
record_nonce : String → Time → Bool → Rows → NonceStore → NonceStore × Result NonceError Bool
unfolding remove
record_nonce nonce expires true rows s =
    (record { seen = (nonce, expires) ∷ rows; file = (nonce, expires) ∷ rows }, ok false)
record_nonce nonce expires false rows s =
    (record s { seen = remove nonce ((nonce, expires) ∷ rows) }, err not_written)

-- `Check`, at the time that it reads from the clock; `written` says whether the file was written.
unfoldable pub check :
    String → Time → Time → Bool → NonceStore → NonceStore × Result NonceError Bool
unfolding is_seen prune record_nonce
check nonce expires now written s =
    if str_eq nonce ""
    then (s, err no_nonce)
    else if is_zero expires
    then (s, err no_expiry)
    else if is_seen nonce s.seen
    then (s, ok true)
    else record_nonce nonce expires written (prune now s.seen) s

-- `LoadNonceStore` of the map that the file holds, at the time that it reads from the clock.
unfoldable pub load : Time → Rows → NonceStore
unfolding prune
load now persisted = record { seen = prune now persisted; file = persisted }

-- The rows have this nonce with an expiry from `until` on.
pub data Holds (n : String) (until : Time) : Rows → Type 0 where
  here : {t : Time} {s : Rows} → until ≤ t → Holds n until ((n, t) ∷ s)
  there : {e : String × Time} {s : Rows} → Holds n until s → Holds n until (e ∷ s)

pub Holds-is_seen : {n : String} {until : Time} {s : Rows} → Holds n until s → is_seen n s ≡ true
unfolding is_seen
Holds-is_seen {n} (here h) = ground (arith, eq_iff n n)
Holds-is_seen (there h) = ground (arith, Holds-is_seen h)

Holds-prune :
    {n : String} {until : Time} (now : Time) {s : Rows}
    → now < until
    → Holds n until s
    → Holds n until (prune now s)
unfolding prune
Holds-prune now lt (here {t} h) = rw (lt→ltb now t (omega arith)) (here h)
Holds-prune now lt (there {e} h) = elim (Bool-cases (ltb now e.1)) [
  | inl kept ↦ rw kept (there (Holds-prune now lt h))
  | inr gone ↦ rw gone (Holds-prune now lt h)
]

Holds-remove :
    {n : String} {until : Time} (m : String) {s : Rows}
    → m ≢ n
    → Holds n until s
    → Holds n until (remove m s)
unfolding remove
Holds-remove {n} m ne (here h) = elim (Bool-cases (str_eq n m)) [
  | inl e ↦ absurd (ne (sym ((eq_iff n m).0 e)))
  | inr other ↦ rw other (here h)
]
Holds-remove m ne (there {e} h) = elim (Bool-cases (str_eq e.0 m)) [
  | inl gone ↦ rw gone (Holds-remove m ne h)
  | inr kept ↦ rw kept (there (Holds-remove m ne h))
]

-- A nonce is kept in memory and in the file.
pub record Keeps (n : String) (until : Time) (s : NonceStore) : Type 0 where
  pub in_memory : Holds n until s.seen
  pub on_disk : Holds n until s.file

record_nonce-Keeps :
    {n : String} {until : Time} (m : String) (e : Time) (written : Bool) (rows : Rows)
    (s : NonceStore)
    → m ≢ n
    → Holds n until rows
    → Holds n until s.file
    → Keeps n until (record_nonce m e written rows s).0
unfolding record_nonce
record_nonce-Keeps m e true rows s ne h f = record { in_memory = there h; on_disk = there h }
record_nonce-Keeps m e false rows s ne h f = record {
  in_memory = Holds-remove m ne (there h);
  on_disk = f;
}

-- A nonce whose expiry is yet to come survives `Check` of any nonce, whatever comes of it.
pub check-Keeps :
    {n : String} {until : Time} (m : String) (e now : Time) (written : Bool) (s : NonceStore)
    → now < until
    → Keeps n until s
    → Keeps n until (check m e now written s).0
unfolding check
check-Keeps {n} {until} m e now written s lt h = elim (Bool-cases (str_eq m "")) [
  | inl blank ↦ rw blank h
  | inr named ↦ elim (Bool-cases (is_zero e)) [
    | inl never ↦ rw (named, never) h
    | inr dated ↦ elim (Bool-cases (is_seen m s.seen)) [
      | inl seen ↦ rw (named, dated, seen) h
      | inr fresh ↦
          rw (named, dated, fresh)
            (record_nonce-Keeps m e written (prune now s.seen) s (other fresh)
              (Holds-prune now lt h.in_memory) h.on_disk)
    ]
  ]
]
  where
    other : is_seen m s.seen ≡ false → m ≢ n
    other fresh same =
        cc (subst (λ k. is_seen k s.seen ≡ true) (sym same) (Holds-is_seen h.in_memory), fresh)

record_nonce-new :
    (n : String) (e : Time) (written : Bool) (rows : Rows) (s : NonceStore)
    → (record_nonce n e written rows s).1 ≡ ok false
    → Keeps n e (record_nonce n e written rows s).0
unfolding record_nonce
record_nonce-new n e true rows s h = record {
  in_memory = here (omega arith);
  on_disk = here (omega arith);
}
record_nonce-new n e false rows s h = cc

-- A nonce that `Check` reports as new has been recorded with its expiry, in the file too.
pub check-new :
    (n : String) (e now : Time) (written : Bool) (s : NonceStore)
    → (check n e now written s).1 ≡ ok false
    → Keeps n e (check n e now written s).0
unfolding check
check-new n e now written s h = elim (Bool-cases (str_eq n "")) [
  | inl blank ↦ absurd (cc (rw blank at h))
  | inr named ↦ elim (Bool-cases (is_zero e)) [
    | inl never ↦ absurd (cc (rw (named, never) at h))
    | inr dated ↦ elim (Bool-cases (is_seen n s.seen)) [
      | inl seen ↦ absurd (cc (rw (named, dated, seen) at h))
      | inr fresh ↦
          rw (named, dated, fresh)
            (record_nonce-new n e written (prune now s.seen) s (rw (named, dated, fresh) at h))
    ]
  ]
]

-- What the store holds is never new.
pub check-seen :
    (n : String) {until : Time} (e now : Time) (written : Bool) (s : NonceStore)
    → Holds n until s.seen
    → (check n e now written s).1 ≢ ok false
unfolding check
check-seen n e now written s h = let seen = Holds-is_seen h in ground arith

-- A restart keeps a nonce whose expiry is yet to come.
pub load-Keeps :
    {n : String} {until : Time} (now : Time) {persisted : Rows}
    → now < until
    → Holds n until persisted
    → Keeps n until (load now persisted)
unfolding load
load-Keeps now lt h = record { in_memory = Holds-prune now lt h; on_disk = h }
