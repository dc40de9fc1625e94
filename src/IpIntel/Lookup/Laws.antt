-- ===== src/IpIntel/Lookup/Laws.antt =====
-- What a lookup returns and counts.
use vless_sub_server.Base.{
  ℕ, ◌+◌, ◌-◌, ◌%◌, ◌^◌, ◌≡◌, ◌≤◌, refl, ◌∙◌, Bool, false, ◌&&◌, ◌||◌, not, List, [], ◌∷◌, none,
  some, arith, if◌then◌else◌, Bool-cases, inl, inr,
}
use vless_sub_server.Base.Text.{Text, is_empty, text_eq}
use vless_sub_server.Base.Text.Laws.{text_eq_iff, text_eq_refl}
use vless_sub_server.Base.Clock.{Time, add, is_after}
use vless_sub_server.Base.Dict.{Dict, lookup, lookup-insert}
use vless_sub_server.Enrichment.{is_off}
use vless_sub_server.IpIntel.{is_nil}
use vless_sub_server.IpIntel.Cache.{Cache, get, set}
use vless_sub_server.IpIntel.Cache.Laws.{IsValid, get-set}
use vless_sub_server.IpIntel.Lookup.{
  ProviderStatKey, ProviderStatKey-eq, Aggregator, Answer, outcome_of, count_of, record_provider,
  record_answers, successes, stored, asked, lookup_ip, same_stat, same_stat_iff,
}
use vless_sub_server.Pipeline.Cached.{Intel}
use vless_sub_server.Quality.Scoring.{Float}

abbrev max_uint64 : ℕ
max_uint64 = 2 ^ 64 - 1

-- How many of the answers count for a pair of a provider and an outcome.
abbrev pub matches : {F : Type 0} → ProviderStatKey → Answer F → Bool
matches key a =
    text_eq a.name key.provider
    && text_eq (outcome_of a.response) key.outcome
    && not (is_empty key.provider || is_empty key.outcome)

unfoldable pub tally : {F : Type 0} → ProviderStatKey → List (Answer F) → ℕ
tally key [] = 0
tally key (a ∷ answers) = (if matches key a then 1 else 0) + tally key answers

module _ {F : Type 0} where
  count-record_provider :
      (stats : Dict ProviderStatKey ℕ) (a : Answer F) (key : ProviderStatKey)
      → (if matches key a then 1 else 0) + count_of (lookup key stats) ≤ max_uint64
      → count_of (lookup key (record_provider stats a.name (outcome_of a.response)))
        ≡ (if matches key a then 1 else 0) + count_of (lookup key stats)
  unfolding record_provider same_stat
  count-record_provider stats a key h =
      let own : ProviderStatKey = record { provider = a.name; outcome = outcome_of a.response } in
      ground (
        arith,
        same_stat_iff own key,
        text_eq_iff a.name key.provider,
        text_eq_iff (outcome_of a.response) key.outcome,
        lookup-insert own key ((count_of (lookup own stats) + 1) % 2 ^ 64) stats,
      )

  -- Whatever the order in which the providers finish, the counter of a provider and an outcome grows
  -- by the number of answers of that provider with that outcome, as long as 64 bits hold the sum.
  count-record_answers :
      (stats : Dict ProviderStatKey ℕ) (answers : List (Answer F)) (key : ProviderStatKey)
      → tally key answers + count_of (lookup key stats) ≤ max_uint64
      → count_of (lookup key (record_answers stats answers))
        ≡ tally key answers + count_of (lookup key stats)
  unfolding record_answers tally
  count-record_answers stats [] key h = omega arith
  count-record_answers stats (a ∷ answers) key h = ground (
    arith,
    count-record_provider stats a key,
    count-record_answers (record_provider stats a.name (outcome_of a.response)) answers key,
  )

module _ {F : Type 0} (fl : Float F) where
  some-stored :
      (done : Time) (c : Cache F) (key : Text) (intel : Intel F)
      → some (stored done c key intel) ≡ set done (some c) key intel
  unfolding set
  some-stored done c key intel = ground arith

  get-stored :
      (done later : Time) (c : Cache F) (key : Text) (intel : Intel F)
      → IsValid (some c)
      → is_off c.ttl ≡ false
      → done ≤ later
      → is_after later (add done c.ttl) ≡ false
      → get later (some (stored done c key intel)) key ≡ some intel
  get-stored done later c key intel v on h current =
      rw (some-stored done c key intel)
        (get-set done later c key key intel h v on ∙ rw (text_eq_refl key, current) refl)

  asked-stored :
      (a : Aggregator F) (key : Text) (done : Time) (answers : List (Answer F)) {intel : Intel F}
      {a' : Aggregator F}
      → asked fl a key done answers ≡ (some intel, a')
      → a'.cache ≡ stored done a.cache key intel
  unfolding asked
  asked-stored a key done answers {intel} {a'} got =
      elim (Bool-cases (is_nil (successes answers))) [
        | inl e ↦ cc (rw e at got)
        | inr e ↦ cc (rw e at got)
      ]

  -- A lookup that returned a view has stored it: until its time runs out, each later lookup of the
  -- same address returns the same view, asks no provider, and changes nothing.
  pub lookup_ip_again :
      (a : Aggregator F) (key : Text) (now done later after : Time)
      (answers others : List (Answer F)) {intel : Intel F} {a' : Aggregator F}
      → IsValid (some a.cache)
      → is_off a.cache.ttl ≡ false
      → get now (some a.cache) key ≡ none
      → lookup_ip fl a key now done answers ≡ (some intel, a')
      → done ≤ later
      → is_after later (add done a.cache.ttl) ≡ false
      → lookup_ip fl a' key later after others ≡ (some intel, a')
  unfolding lookup_ip
  lookup_ip_again a key now done later after answers others {intel} {a'} v on miss got h current =
      let kept = asked-stored a key done answers (rw (miss, lookup_ip) at got) in
      let found : get later (some a'.cache) key ≡ some intel =
        rw kept (get-stored done later a.cache key intel v on h current) in
      rw (found, lookup_ip) refl
