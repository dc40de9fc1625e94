-- ===== src/Enrichment/Laws.antt =====
-- internal/enrichment/cache.go: what a lookup finds, which keys are due, and what the coverage
-- counts.
use mathlib.Core.List.{map-append}
use vless_sub_server.Base.{
  ◌+◌, ◌≡◌, refl, ◌∙◌, ap, Bool, true, false, ◌&&◌, not, List, [], ◌∷◌, map, Option, none, some,
  arith, if◌then◌else◌, length, length-map, length-append, Bool-cases, inl, inr,
}
use vless_sub_server.Base.Text.{Text, is_empty, text_eq, text_ltb}
use vless_sub_server.Base.Text.Laws.{text_eq_iff}
use vless_sub_server.Base.Clock.{Time, within}
use vless_sub_server.Base.Sort.{sort, length-sort}
use vless_sub_server.Base.Dict.{has, lookup, lookup-insert, has-append, has-map-sort, Text-eq}
use vless_sub_server.Enrichment.{
  State, fresh, stale, missing, Coverage, Entry, Cache, Candidate, is_off, is_before, set_at, read,
  get_at, consider, candidates, stale_keys_at, tally, cover, coverage_at, unique, unique_sorted,
}

-- A cache with no time to live holds nothing: `SetAt` ignores every call.
abbrev pub IsValid : {T : Type 0} → Cache T → Type 0
IsValid c = is_off c.ttl ≡ true → c.entries ≡ []

-- Whether a key is due for a check: whatever `GetAt` does not call fresh.
abbrev pub is_due : State → Bool
is_due fresh = false
is_due s = true

tally_sums :
    (s : State) (cov : Coverage)
    → ((tally s cov).fresh + (tally s cov).stale + (tally s cov).missing
        ≡ cov.fresh + cov.stale + cov.missing + 1)
      × ((tally s cov).eligible ≡ cov.eligible)
      × ((tally s cov).stale + (tally s cov).missing
          ≡ cov.stale + cov.missing + (if is_due s then 1 else 0))
unfolding tally
tally_sums fresh cov = omega arith
tally_sums stale cov = omega arith
tally_sums missing cov = omega arith

module _ {T : Type 0} where
  -- A lookup after a store finds the new value under its key, and any other key as before; a
  -- store under the empty key or without a time to live does nothing.
  pub get_at-set_at :
      (c : Cache T) (key key' : Text) (value : T) (checked_at now : Time)
      → get_at (set_at (some c) key value checked_at) key' now ≡ (
          if not (is_off c.ttl) && (not (is_empty key) && text_eq key key')
          then (some value, (if within now checked_at c.ttl then fresh else stale))
          else get_at (some c) key' now)
  unfolding get_at set_at
  get_at-set_at c key key' value checked_at now = ground (
    arith,
    text_eq_iff key key',
    lookup-insert key key' (record { value = value; checked_at = checked_at }) c.entries,
  )

  set_at-IsValid :
      (c c' : Cache T) (key : Text) (value : T) (checked_at : Time)
      → set_at (some c) key value checked_at ≡ some c'
      → IsValid c
      → IsValid c' × (c'.ttl ≡ c.ttl)
  unfolding set_at
  set_at-IsValid c c' key value checked_at h v = ground arith

  consider_due :
      (c : Cache T) (k : Text) (o : Option (Entry T)) (now : Time)
      → length (consider c k o now) ≡ (if is_due (read c o now).1 then 1 else 0)
  unfolding consider read
  consider_due c k none now = refl
  consider_due c k (some e) now = ground arith

  has-consider :
      (q k : Text) (c : Cache T) (o : Option (Entry T)) (now : Time)
      → has q (map (λ x. x.key) (consider c k o now)) ≡ (is_due (read c o now).1 && text_eq k q)
  unfolding consider read
  has-consider q k c none now = ground arith
  has-consider q k c (some e) now = ground arith

  -- In a valid cache the state of a key is that of its entry.
  get_at-read :
      (c : Cache T) (k : Text) (now : Time)
      → IsValid c
      → is_empty k ≡ false
      → (get_at (some c) k now).1 ≡ (read c (lookup k c.entries) now).1
  unfolding get_at read
  get_at-read c k now v h = elim (Bool-cases (is_off c.ttl)) [
    | inl off ↦
        let none_there : lookup k c.entries ≡ none = ap (lookup k) (v off) in rw (off, none_there)
    | inr on ↦ rw (on, h)
  ]

  module _ (c : Cache T) (now : Time) (v : IsValid c) where
    has-candidates :
        (q : Text) (seen keys : List Text)
        → has q (map (λ x. x.key) (candidates c now seen keys)) ≡ (
            is_due (get_at (some c) q now).1
            && (not (is_empty q) && (has q keys && not (has q seen))))
    unfolding candidates
    has-candidates q seen [] = ground arith
    has-candidates q seen (key ∷ keys) = ground (
      arith,
      map-append (λ (x : Candidate). x.key) (consider c key (lookup key c.entries) now)
          (candidates c now (key ∷ seen) keys),
      has-append q (map (λ x. x.key) (consider c key (lookup key c.entries) now))
          (map (λ x. x.key) (candidates c now (key ∷ seen) keys)),
      has-consider q key c (lookup key c.entries) now,
      get_at-read c key now v,
      text_eq_iff key q,
      has-candidates q seen keys,
      has-candidates q (key ∷ seen) keys,
    )

    cover-candidates :
        (seen keys : List Text) (cov : Coverage)
        → (cover (some c) now seen keys cov).stale + (cover (some c) now seen keys cov).missing
          ≡ cov.stale + cov.missing + length (candidates c now seen keys)
    unfolding cover candidates
    cover-candidates seen [] cov = omega arith
    cover-candidates seen (key ∷ keys) cov =
        let counted = record cov { eligible = cov.eligible + 1 } in
        ground (
          arith,
          length-append (consider c key (lookup key c.entries) now)
              (candidates c now (key ∷ seen) keys),
          consider_due c key (lookup key c.entries) now,
          get_at-read c key now v,
          (tally_sums (get_at (some c) key now).1 counted).2,
          cover-candidates seen keys cov,
          cover-candidates (key ∷ seen) keys (tally (get_at (some c) key now).1 counted),
        )

  cover_sums :
      (c : Option (Cache T)) (now : Time) (seen keys : List Text) (cov : Coverage)
      → let cov' = cover c now seen keys cov in
        (cov'.eligible ≡ cov.eligible + length (unique seen keys))
        × (cov'.fresh + cov'.stale + cov'.missing
            ≡ cov.fresh + cov.stale + cov.missing + length (unique seen keys))
  unfolding cover unique
  cover_sums c now seen [] cov = omega arith
  cover_sums c now seen (key ∷ keys) cov =
      let counted = record cov { eligible = cov.eligible + 1 } in
      ground (
        arith,
        tally_sums (get_at c key now).1 counted,
        cover_sums c now seen keys cov,
        cover_sums c now (key ∷ seen) keys (tally (get_at c key now).1 counted),
      )

  -- Every distinct key that is not empty is counted once as eligible, and once as fresh, stale or
  -- missing; with a valid cache the stale and the missing are as many as the keys that are due.
  coverage_at_counts :
      (c : Cache T) (keys : List Text) (now : Time)
      → IsValid c
      → let cov = coverage_at (some c) keys now in
        (cov.eligible ≡ length (unique_sorted keys))
        × (cov.fresh + cov.stale + cov.missing ≡ cov.eligible)
        × (cov.stale + cov.missing ≡ length (stale_keys_at (some c) keys now))
  unfolding coverage_at stale_keys_at unique_sorted
  coverage_at_counts c keys now v =
      let zeros : Coverage = record { eligible = 0; fresh = 0; stale = 0; missing = 0 } in
      let due = candidates c now [] keys in
      omega (
        arith,
        cover_sums (some c) now [] keys zeros,
        cover-candidates c now v [] keys zeros,
        length-map (λ (x : Candidate). x.key) (sort is_before due),
        length-sort is_before due,
        length-sort text_ltb (unique [] keys),
      )

  -- In a valid cache the keys that are due are exactly the given keys, the empty one left out, that
  -- a lookup does not call fresh.
  has-stale_keys_at :
      (c : Cache T) (keys : List Text) (now : Time) (q : Text)
      → IsValid c
      → has q (stale_keys_at (some c) keys now)
        ≡ (has q keys && (not (is_empty q) && is_due (get_at (some c) q now).1))
  unfolding stale_keys_at
  has-stale_keys_at c keys now q v =
      has-map-sort (λ x. x.key) is_before q (candidates c now [] keys)
      ∙ (has-candidates c now v q [] keys ∙ ground arith)
