-- ===== src/IpIntel/Cache/Laws.antt =====
-- What the cache of reputations returns after a write; the deletion of expired entries does not show.
use vless_sub_server.Base.{
  ◌≡◌, refl, ◌∙◌, ◌≤◌, false, ◌||◌, List, [], ◌∷◌, length, Option, none, some, arith, ltb,
  if◌then◌else◌, Bool-cases, inl, inr,
}
use vless_sub_server.Base.Text.{Text, text_eq}
use vless_sub_server.Base.Text.Laws.{text_eq_iff}
use vless_sub_server.Base.Clock.{Time, is_after, add}
use vless_sub_server.Base.Dict.{Dict, lookup, insert, lookup-insert, has, Distinct, Text-eq}
use vless_sub_server.Enrichment.{is_off}
use vless_sub_server.IpIntel.Cache.{CacheEntry, Cache, current, get, sweep, set}
use vless_sub_server.Pipeline.Cached.{Intel}

module _ {F : Type 0} where
  abbrev keys : Dict Text (CacheEntry F) → List Text
  keys [] = []
  keys ((key, e) ∷ m) = key ∷ keys m

  -- No address has two entries.
  abbrev pub IsValid : Option (Cache F) → Type 0
  IsValid none = Unit
  IsValid (some c) = Distinct (keys c.entries)

  has-insert :
      (j k : Text) (v : CacheEntry F) (m : Dict Text (CacheEntry F))
      → has j (keys (insert k v m)) ≡ (text_eq k j || has j (keys m))
  has-insert j k v [] = ground arith
  has-insert j k v ((i, w) ∷ m) =
      ground (arith, text_eq_iff i k, text_eq_iff k j, text_eq_iff i j, has-insert j k v m)

  Distinct-insert :
      (k : Text) (v : CacheEntry F) (m : Dict Text (CacheEntry F))
      → Distinct (keys m)
      → Distinct (keys (insert k v m))
  Distinct-insert k v [] d = (refl, tt)
  Distinct-insert k v ((i, w) ∷ m) (h, d) =
      ground (arith, text_eq_iff i k, text_eq_iff k i, has-insert i k v m, Distinct-insert k v m d)

  has-sweep :
      (j : Text) (now : Time) (m : Dict Text (CacheEntry F))
      → has j (keys m) ≡ false
      → has j (keys (sweep now m)) ≡ false
  unfolding sweep
  has-sweep j now [] h = refl
  has-sweep j now ((i, e) ∷ m) h = ground (arith, has-sweep j now m)

  Distinct-sweep :
      (now : Time) (m : Dict Text (CacheEntry F))
      → Distinct (keys m)
      → Distinct (keys (sweep now m))
  unfolding sweep
  Distinct-sweep now [] d = tt
  Distinct-sweep now ((i, e) ∷ m) (h, d) =
      ground (arith, has-sweep i now m h, Distinct-sweep now m d)

  lookup_absent :
      (j : Text) (m : Dict Text (CacheEntry F)) → has j (keys m) ≡ false → lookup j m ≡ none
  lookup_absent j [] h = refl
  lookup_absent j ((i, e) ∷ m) h = ground (arith, lookup_absent j m)

  current-sweep :
      (now later : Time) (ip : Text) (m : Dict Text (CacheEntry F))
      → now ≤ later
      → Distinct (keys m)
      → current later (lookup ip (sweep now m)) ≡ current later (lookup ip m)
  unfolding sweep
  current-sweep now later ip [] h d = refl
  current-sweep now later ip ((i, e) ∷ m) h (k, d) = ground (
    arith,
    current-sweep now later ip m h d,
    text_eq_iff i ip,
    lookup_absent i (sweep now m) (has-sweep i now m k),
  )

  -- `set` keeps one entry for each address.
  set-IsValid :
      (now : Time) (c : Option (Cache F)) (ip : Text) (intel : Intel F)
      → IsValid c
      → IsValid (set now c ip intel)
  unfolding set
  set-IsValid now none ip intel d = tt
  set-IsValid now (some c) ip intel d =
      let entry : CacheEntry F = record { intel = intel; expires_at = add now c.ttl } in
      let new = Distinct-insert ip entry c.entries d in
      elim (Bool-cases (is_off c.ttl)) [
        | inl e ↦ rw e d
        | inr e ↦ elim (Bool-cases (ltb 5000 (length (insert ip entry c.entries)))) [
          | inl many ↦ rw (e, many) (Distinct-sweep now (insert ip entry c.entries) new)
          | inr few ↦ rw (e, few) new
        ]
      ]

  -- After a write at the time `now`, a read at a later time gives the written value for the address
  -- until its time has run out, and for another address what it gave before; an expired entry that
  -- the write deleted would not have been given.
  pub get-set :
      (now later : Time) (c : Cache F) (ip key : Text) (intel : Intel F)
      → now ≤ later
      → IsValid (some c)
      → is_off c.ttl ≡ false
      → get later (set now (some c) ip intel) key ≡ (
          if text_eq ip key
          then (if is_after later (add now c.ttl) then none else some intel)
          else get later (some c) key)
  unfolding get set
  get-set now later c ip key intel h d on =
      let entry : CacheEntry F = record { intel = intel; expires_at = add now c.ttl } in
      let entries = insert ip entry c.entries in
      let new = Distinct-insert ip entry c.entries d in
      let found = lookup-insert ip key entry c.entries in
      elim (Bool-cases (ltb 5000 (length entries))) [
        | inl many ↦
            rw (on, many)
              (rw on (current-sweep now later key entries h new ∙ rw found (ground arith)))
        | inr few ↦ rw (on, few) (rw on (rw found (ground arith)))
      ]
