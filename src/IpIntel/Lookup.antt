-- ===== src/IpIntel/Lookup.antt =====
-- internal/ipintel/ipintel.go: the aggregator, which asks the providers unless the cache knows the
-- address, and counts how they answer.
pub mod Laws
use vless_sub_server.Base.{
  ℕ, ◌+◌, ◌%◌, ◌^◌, ◌≡◌, ◌↔◌, Bool, true, false, ◌&&◌, ◌||◌, not, List, [], ◌∷◌, Option, none, some,
  arith, if◌then◌else◌,
}
use vless_sub_server.Base.Text.{Text, text, is_empty, text_eq, text_ltb}
use vless_sub_server.Base.Text.Laws.{text_eq_iff}
use vless_sub_server.Base.Clock.{Time, Duration}
use vless_sub_server.Base.Dict.{Eq, Dict, lookup, insert}
use vless_sub_server.Base.Sort.{sort}
use vless_sub_server.IpIntel.{ProviderResult, is_nil}
use vless_sub_server.IpIntel.Cache.{Cache, new_cache, get, set}
use vless_sub_server.IpIntel.Merge.{merge}
use vless_sub_server.Pipeline.Cached.{Intel}
use vless_sub_server.Quality.Scoring.{Float}

abbrev pub provider_success : Text
provider_success = text "success"

abbrev pub provider_transport : Text
provider_transport = text "transport"

pub record ProviderStatKey : Type 0 where
  pub provider : Text
  pub outcome : Text

unfoldable pub same_stat : ProviderStatKey → ProviderStatKey → Bool
same_stat a b = text_eq a.provider b.provider && text_eq a.outcome b.outcome

pub same_stat_iff : (a b : ProviderStatKey) → (same_stat a b ≡ true) ↔ (a ≡ b)
unfolding same_stat
same_stat_iff a b =
    ground (arith, text_eq_iff a.provider b.provider, text_eq_iff a.outcome b.outcome)

instance abbrev pub ProviderStatKey-eq : Eq ProviderStatKey
ProviderStatKey-eq = record { beq = same_stat; beq_iff = same_stat_iff }

pub record ProviderStat : Type 0 where
  pub provider : Text
  pub outcome : Text
  pub count : ℕ

pub record Aggregator (F : Type 0) : Type 0 where
  pub cache : Cache F
  pub stats : Dict ProviderStatKey ℕ

abbrev pub new_aggregator : {F : Type 0} → Duration → Aggregator F
new_aggregator cache_ttl = record { cache = new_cache cache_ttl; stats = [] }

-- What one provider answers: by `LookupDetailed` where it has that method, else by `Lookup`.
pub data Response (F : Type 0) : Type 0 where
  detailed : ProviderResult F → Text → Response F
  plain : Option (ProviderResult F) → Response F

pub record Answer (F : Type 0) : Type 0 where
  pub name : Text
  pub response : Response F

abbrev pub outcome_of : {F : Type 0} → Response F → Text
outcome_of (detailed result outcome) = outcome
outcome_of (plain none) = provider_transport
outcome_of (plain (some value)) = provider_success

-- The result that is appended, if the outcome is success.
abbrev pub success_of : {F : Type 0} → Response F → Option (ProviderResult F)
success_of (detailed result outcome) =
    if not (text_eq outcome provider_success) then none else some result
success_of (plain value) = value

-- `a.stats[key]`, which is 0 for a key that is not there.
abbrev pub count_of : Option ℕ → ℕ
count_of none = 0
count_of (some n) = n

-- The aggregator's counters after `RecordProvider`; a nil aggregator has none.
unfoldable pub record_provider : Dict ProviderStatKey ℕ → Text → Text → Dict ProviderStatKey ℕ
record_provider stats provider outcome =
    let key : ProviderStatKey = record { provider = provider; outcome = outcome } in
    if is_empty provider || is_empty outcome
    then stats
    else insert key ((count_of (lookup key stats) + 1) % 2 ^ 64) stats

-- The goroutines, in the order in which they finish.
unfoldable pub record_answers :
    {F : Type 0} → Dict ProviderStatKey ℕ → List (Answer F) → Dict ProviderStatKey ℕ
unfolding record_provider
record_answers stats [] = stats
record_answers stats (a ∷ answers) =
    record_answers (record_provider stats a.name (outcome_of a.response)) answers

unfoldable pub successes : {F : Type 0} → List (Answer F) → List (ProviderResult F)
successes [] = []
successes (a ∷ answers) =
    let rest = successes answers in elim (success_of a.response) [ none ↦ rest | some r ↦ r ∷ rest ]

abbrev pub stored : {F : Type 0} → Time → Cache F → Text → Intel F → Cache F
stored done cache key intel = elim (set done (some cache) key intel) [ none ↦ cache | some c ↦ c ]

-- A call that reads the cache at the time `now`, and writes it at the time `done`; `key` is
-- `ip.Unmap().String()`, and the answers stand in the order in which the providers finish.
unfoldable pub asked :
    {F : Type 0}
    → Float F
    → Aggregator F
    → Text
    → Time
    → List (Answer F)
    → Option (Intel F) × Aggregator F
unfolding record_answers successes
asked fl a key done answers =
    let results = successes answers in
    let counted : Aggregator _ = record a { stats = record_answers a.stats answers } in
    let intel = merge fl results key done in
    if is_nil results
    then (none, counted)
    else (some intel, record counted { cache = stored done a.cache key intel })

unfoldable pub lookup_ip :
    {F : Type 0}
    → Float F
    → Aggregator F
    → Text
    → Time
    → Time
    → List (Answer F)
    → Option (Intel F) × Aggregator F
unfolding asked
lookup_ip fl a key now done answers = elim (get now (some a.cache) key) [
  | some intel ↦ (some intel, a)
  | none ↦ asked fl a key done answers
]

abbrev stats_list : Dict ProviderStatKey ℕ → List ProviderStat
stats_list [] = []
stats_list ((key, count) ∷ m) =
    record { provider = key.provider; outcome = key.outcome; count = count } ∷ stats_list m

unfoldable pub stat_before : ProviderStat → ProviderStat → Bool
stat_before a b =
    if not (text_eq a.provider b.provider)
    then text_ltb a.provider b.provider
    else text_ltb a.outcome b.outcome

unfoldable pub provider_stats : {F : Type 0} → Option (Aggregator F) → List ProviderStat
provider_stats none = []
provider_stats (some a) = sort stat_before (stats_list a.stats)
