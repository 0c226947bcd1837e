-- ===== src/Store/Limits.antt =====
-- internal/store/memory.go: the limits on hosts and on certificates.
use hostseal.Base.{
  subst, ℕ, ◌+◌, ◌≤◌, ◌<◌, ◌≡◌, ◌≢◌, refl, sym, subst₂, String, Bool, true, false, not, ◌&&◌, ◌||◌,
  Option, none, some, some_inj, List, [], ◌∷◌, Result, ok, err, Bool-cases, if◌then◌else◌, inl, inr,
  arith, str_eq, ltb, keep, count_if,
}
use hostseal.Base.Int.{ℤ, pos, negsuc, ltb_ℤ}
use hostseal.Base.Assoc.{Key, get, put, delete}
use hostseal.Policy.Time.{Time, is_zero}
use hostseal.Store.State.{TenantRow, Tenant, by_id, Host, Certificate, Memory, StoreError}
use hostseal.Store.Jobs.{is_some, find_host}
use hostseal.Store.Hosts.{
  is_active, active_hosts, has_room, machine_taken, stamp_certificate, enrol_stamped, enrol_in,
  create_enrolled_host, is_live, count_live_certificates, insert_certificate, supersede_found,
  supersede_certificate, Renewal, renew_stamped, renew_certificate,
}

count_if-keep : {A : Type 0} (p q : A → Bool) (xs : List A) → count_if p (keep q xs) ≤ count_if p xs
count_if-keep p q [] = omega arith
count_if-keep p q (x ∷ xs) = elim (Bool-cases (q x)) [
  | inl e ↦ rw e (omega (arith, count_if-keep p q xs))
  | inr e ↦ rw e (omega (arith, count_if-keep p q xs))
]

abbrev one_if : Bool → ℕ
one_if b = if b then 1 else 0

one_if_le : (b : Bool) → one_if b ≤ 1
one_if_le true = omega arith
one_if_le false = omega arith

below : (n : ℕ) (limit : ℤ) → ltb_ℤ (pos n) limit ≡ true → (l : ℕ) × (limit ≡ pos l) × (n < l)
below n (pos l) h = (l, refl, ground arith)
below n (negsuc l) h = cc

module _ {K V : Type 0} (key : Key K) (p : K × V → Bool) where
  put-count :
      (a : K) (v : V) (m : List (K × V))
      → count_if p (put key a v m) ≤ one_if (p (a, v)) + count_if p m
  unfolding put delete
  put-count a v m = omega (arith, count_if-keep p (λ e. not (key.same e.0 a)) m)

  delete-count :
      (a : K) (m : List (K × V)) {v : V}
      → get key a m ≡ some v
      → one_if (p (a, v)) + count_if p (delete key a m) ≤ count_if p m
  unfolding get delete
  delete-count a [] h = cc
  delete-count a ((b, w) ∷ m) {v} h = elim (Bool-cases (key.same b a)) [
    | inl e ↦ rw e (
        subst₂
          (λ c u.
            one_if (p (c, u)) + count_if p (delete key a m) ≤ one_if (p (b, w)) + count_if p m)
          ((key.same_iff b a).0 e) (some_inj (rw e at h))
          (omega (arith, count_if-keep p (λ e. not (key.same e.0 a)) m)))
    | inr e ↦ rw e (omega (arith, delete-count a m (rw e at h)))
  ]

  -- A row that takes the place of one that counts no less.
  replace-count :
      (a : K) (v u : V) (m : List (K × V))
      → get key a m ≡ some v
      → (p (a, u) ≡ true → p (a, v) ≡ true)
      → count_if p (put key a u m) ≤ count_if p m
  unfolding put
  replace-count a v u m f h = elim (Bool-cases (p (a, u))) [
    | inl e ↦ let g = delete-count a m f in rw e (rw (h e) at g)
    | inr e ↦ let g = delete-count a m f in rw e (omega (arith, g))
  ]

enrol_stamped-active :
    (t : Tenant) (h : Host) (m : Memory) (r : Result StoreError Certificate)
    → active_hosts t (enrol_stamped t h m r).0 ≤ 1 + active_hosts t m
unfolding enrol_stamped
enrol_stamped-active t h m (err e) = omega arith
enrol_stamped-active t h m (ok cert) = elim (Bool-cases (is_some (get by_id h.id m.hosts))) [
  | inl a ↦ rw a (omega arith)
  | inr a ↦ elim (Bool-cases (is_some (get by_id cert.fingerprint m.certs))) [
    | inl b ↦ rw (a, b) (omega arith)
    | inr b ↦ elim (Bool-cases (machine_taken t h m.hosts)) [
      | inl c ↦ rw (a, b, c) (omega arith)
      | inr c ↦
          rw (a, b, c)
            (omega (
              arith,
              put-count by_id (is_active t) h.id (record { host = h; tenant = t }) m.hosts,
              one_if_le (is_active t (h.id, record { host = h; tenant = t })),
            ))
    ]
  ]
]

enrol_in-limit :
    (t : Tenant) (h : Host) (c : Certificate) (m : Memory) (o : Option TenantRow) {row : TenantRow}
    {limit : ℤ}
    → o ≡ some row
    → row.host_limit ≡ some limit
    → (enrol_in t h c m o).1 ≡ ok tt
    → (l : ℕ) × (limit ≡ pos l) × (active_hosts t (enrol_in t h c m o).0 ≤ l)
unfolding enrol_in has_room
enrol_in-limit t h c m none e f k = absurd (cc (e))
enrol_in-limit t h c m (some r) {limit = x} e f k =
    let known : r.host_limit ≡ some x = subst (λ y. y.host_limit ≡ some x) (sym (some_inj e)) f in
    elim (Bool-cases (ltb_ℤ (pos (active_hosts t m)) x)) [
      | inr a ↦ absurd (cc (rw (known, a) at k))
      | inl a ↦ elim (Bool-cases (str_eq c.host_id h.id)) [
        | inr b ↦ absurd (cc (rw (known, a, b) at k))
        | inl b ↦
            let (l, is, lt) = below (active_hosts t m) x a in
            rw (known, a, b)
              (l, is, omega (arith, lt, enrol_stamped-active t h m (stamp_certificate t c)))
      ]
    ]

-- When a host is enrolled in a tenant that has a limit, the tenant has no more hosts that are not
-- revoked than the limit says, the new one included.
pub create_enrolled_host-limit :
    (t : Tenant) (h : Host) (c : Certificate) (m : Memory) {row : TenantRow} {limit : ℤ}
    → get by_id t m.tenants ≡ some row
    → row.host_limit ≡ some limit
    → (create_enrolled_host t h c m).1 ≡ ok tt
    → (l : ℕ) × (limit ≡ pos l) × (active_hosts t (create_enrolled_host t h c m).0 ≤ l)
unfolding create_enrolled_host
create_enrolled_host-limit t h c m e f k = enrol_in-limit t h c m (get by_id t m.tenants) e f k

insert-live :
    (t : Tenant) (host : String) (now : Time) (c : Certificate) (m : Memory)
    → count_live_certificates t host now (insert_certificate c m)
      ≤ 1 + count_live_certificates t host now m
unfolding insert_certificate count_live_certificates
insert-live t host now c m = elim (Bool-cases (is_some (get by_id c.fingerprint m.certs))) [
  | inl e ↦ rw e (omega arith)
  | inr e ↦ rw e (
      omega (
        arith,
        put-count by_id (is_live t host now) c.fingerprint c m.certs,
        one_if_le (is_live t host now (c.fingerprint, c)),
      ))
]

-- An end of validity that is brought forward revives nothing.
is_live_lem :
    (t : Tenant) (host : String) (now at : Time) (fp : String) (c : Certificate)
    → at ≢ 0
    → (is_zero c.superseded_at || ltb at c.superseded_at) ≡ true
    → is_live t host now (fp, record c { superseded_at = at }) ≡ true
    → is_live t host now (fp, c) ≡ true
is_live_lem t host now at fp c ne h k = ground arith

supersede_found-live :
    (t : Tenant) (host : String) (now at : Time) (fp : String) (m : Memory) (o : Option Certificate)
    → at ≢ 0
    → get by_id fp m.certs ≡ o
    → count_live_certificates t host now (supersede_found t fp at m o)
      ≤ count_live_certificates t host now m
unfolding supersede_found count_live_certificates
supersede_found-live t host now at fp m none ne f = omega arith
supersede_found-live t host now at fp m (some c) ne f =
    elim (Bool-cases
      (str_eq c.tenant_id t && (is_zero c.superseded_at || ltb at c.superseded_at))) [
        | inr e ↦ rw e (omega arith)
        | inl e ↦ rw e (
            replace-count by_id (is_live t host now) fp c (record c { superseded_at = at }) m.certs
              f (is_live_lem t host now at fp c ne (ground arith)))
      ]

renew_stamped-live :
    (t : Tenant) (host : String) (r : Renewal) (m : Memory) (c : Result StoreError Certificate)
    → r.supersede_at ≢ 0
    → count_live_certificates t host r.now (renew_stamped t r m c).0
      ≤ 1 + count_live_certificates t host r.now m
unfolding renew_stamped supersede_certificate
renew_stamped-live t host r m (err e) ne = omega arith
renew_stamped-live t host r m (ok c) ne =
    let n = insert_certificate c m in
    omega (
      arith,
      insert-live t host r.now c m,
      supersede_found-live t host r.now r.supersede_at r.presented n (get by_id r.presented n.certs)
          ne refl,
    )

-- When a certificate is renewed with an end for the one that is replaced, no more of the host's
-- certificates could authenticate at that moment than the cap says, the new one included.
pub renew_certificate-limit :
    (t : Tenant) (r : Renewal) (m : Memory)
    → r.supersede_at ≢ 0
    → (renew_certificate t r m).1 ≡ ok tt
    → (l : ℕ) × (r.max_live ≡ pos l)
      × (count_live_certificates t r.replacement.host_id r.now (renew_certificate t r m).0 ≤ l)
unfolding renew_certificate
renew_certificate-limit t r m ne k =
    let host = r.replacement.host_id in
    elim (Bool-cases (is_some (find_host t host m))) [
      | inr e ↦ absurd (cc (rw e at k))
      | inl e ↦
          elim (Bool-cases (ltb_ℤ (pos (count_live_certificates t host r.now m)) r.max_live)) [
            | inr f ↦ absurd (cc (rw (e, f) at k))
            | inl f ↦
                let (l, g, lt) = below (count_live_certificates t host r.now m) r.max_live f in
                rw (e, f)
                  (
                    l,
                    g,
                    omega (
                      arith,
                      lt,
                      renew_stamped-live t host r m (stamp_certificate t r.replacement) ne,
                    ),
                  )
          ]
    ]
