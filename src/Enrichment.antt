-- ===== src/Enrichment.antt =====
-- internal/enrichment/cache.go: a cache whose entries go stale, generic in the value. `none` for a
-- cache is the nil pointer; a zero value of the result is `none`.
pub mod Laws
use vless_sub_server.Base.{
  ℕ, ◌+◌, Bool, true, false, ◌||◌, not, List, [], ◌∷◌, ◌++◌, map, Option, none, some, ltb, ◌==◌,
  if◌then◌else◌, differ,
}
use vless_sub_server.Base.Int.{ℤ, pos, ltb_ℤ}
use vless_sub_server.Base.Text.{Text, is_empty, text_ltb}
use vless_sub_server.Base.Clock.{Time, Duration, within}
use vless_sub_server.Base.Sort.{sort}
use vless_sub_server.Base.Dict.{Dict, lookup, insert, has, Text-eq}

pub data State : Type 0 where
  fresh stale missing : State

pub record Coverage : Type 0 where
  pub eligible : ℕ
  pub fresh : ℕ
  pub stale : ℕ
  pub missing : ℕ

pub record Entry (T : Type 0) : Type 0 where
  pub value : T
  pub checked_at : Time

pub record Cache (T : Type 0) : Type 0 where
  pub ttl : Duration
  pub entries : Dict Text (Entry T)

abbrev pub new_cache : {T : Type 0} → Duration → Cache T
new_cache ttl = record { ttl = ttl; entries = [] }

-- `c.ttl <= 0`
abbrev pub is_off : Duration → Bool
is_off ttl = not (ltb_ℤ (pos 0) ttl)

-- The local type `candidate` of `StaleKeysAt`.
pub record Candidate : Type 0 where
  pub key : Text
  pub missing : Bool
  pub checked_at : Time

-- The order of its `sort.Slice`.
unfoldable pub is_before : Candidate → Candidate → Bool
is_before a b =
    if differ a.missing b.missing
    then a.missing
    else if not (a.checked_at == b.checked_at)
    then ltb a.checked_at b.checked_at
    else text_ltb a.key b.key

-- The loop of `uniqueSorted`.
unique : List Text → List Text → List Text
unique seen [] = []
unique seen (key ∷ keys) =
    let skipped = unique seen keys in
    let taken = key ∷ unique (key ∷ seen) keys in
    if is_empty key || has key seen then skipped else taken

unfoldable pub unique_sorted : List Text → List Text
unfolding unique
unique_sorted keys = sort text_ltb (unique [] keys)

-- The `switch` of `CoverageAt`.
tally : State → Coverage → Coverage
tally fresh cov = record cov { fresh = cov.fresh + 1 }
tally stale cov = record cov { stale = cov.stale + 1 }
tally missing cov = record cov { missing = cov.missing + 1 }

module _ {T : Type 0} where
  unfoldable pub set_at : Option (Cache T) → Text → T → Time → Option (Cache T)
  set_at none key value checked_at = none
  set_at (some c) key value checked_at =
      if is_off c.ttl || is_empty key
      then some c
      else some (record c {
        entries = insert key (record { value = value; checked_at = checked_at }) c.entries;
      })

  -- The end of `GetAt`, after the lookup.
  read : Cache T → Option (Entry T) → Time → Option T × State
  read c none now = (none, missing)
  read c (some e) now =
      if not (within now e.checked_at c.ttl) then (some e.value, stale) else (some e.value, fresh)

  unfoldable pub get_at : Option (Cache T) → Text → Time → Option T × State
  unfolding read
  get_at none key now = (none, missing)
  get_at (some c) key now =
      if is_off c.ttl || is_empty key then (none, missing) else read c (lookup key c.entries) now

  -- What one new key adds to the candidates.
  consider : Cache T → Text → Option (Entry T) → Time → List Candidate
  consider c key none now = record { key = key; missing = true; checked_at = 0 } ∷ []
  consider c key (some e) now =
      if not (within now e.checked_at c.ttl)
      then record { key = key; missing = false; checked_at = e.checked_at } ∷ []
      else []

  -- The loop of `StaleKeysAt`.
  candidates : Cache T → Time → List Text → List Text → List Candidate
  unfolding consider
  candidates c now seen [] = []
  candidates c now seen (key ∷ keys) =
      let skipped = candidates c now seen keys in
      let taken = consider c key (lookup key c.entries) now ++ candidates c now (key ∷ seen) keys in
      if is_empty key || has key seen then skipped else taken

  unfoldable pub stale_keys_at : Option (Cache T) → List Text → Time → List Text
  unfolding unique_sorted candidates is_before
  stale_keys_at none keys now = unique_sorted keys
  stale_keys_at (some c) keys now = map (λ x. x.key) (sort is_before (candidates c now [] keys))

  -- The loop of `CoverageAt`.
  cover : Option (Cache T) → Time → List Text → List Text → Coverage → Coverage
  unfolding tally
  cover c now seen [] cov = cov
  cover c now seen (key ∷ keys) cov =
      let skipped = cover c now seen keys cov in
      let counted =
        cover c now (key ∷ seen) keys
          (tally (get_at c key now).1 (record cov { eligible = cov.eligible + 1 })) in
      if is_empty key || has key seen then skipped else counted

  unfoldable pub coverage_at : Option (Cache T) → List Text → Time → Coverage
  unfolding cover
  coverage_at c keys now =
      cover c now [] keys (record { eligible = 0; fresh = 0; stale = 0; missing = 0 })
