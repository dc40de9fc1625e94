-- ===== src/Tests/Sources.antt =====
-- Tests of the sources, of the parser of their lines, and of the caches.
use vless_sub_server.Base.{ℕ, Bool, ◌≡◌, true, false, List, [], ◌∷◌, All, length, some, arith}
use vless_sub_server.Base.Int.{pos}
use vless_sub_server.Base.Text.{Text, text, text_eq}
use vless_sub_server.Base.Clock.{minute}
use vless_sub_server.Base.Dict.{lookup, has, Distinct, Text-eq}
use vless_sub_server.Fetch.Sources.{FetchResult, MergedSource, no_source, all_lines, merge_one}
use vless_sub_server.Fetch.Sources.History.{
  cache_after, last_good, Fetches, Served, lookup-cache_after, merge_one-Served,
}
use vless_sub_server.Parse.Lines.{parse_all_lines}
use vless_sub_server.Parse.Lines.Laws.{IsUsable, keys, accepted, parse_all_lines_records}
use vless_sub_server.Pipeline.Attribution.{attribute_sources}
use vless_sub_server.Pipeline.Attribution.Laws.{total, attribute_sources_counts}
use vless_sub_server.Enrichment.{Cache}
use vless_sub_server.Enrichment.Laws.{IsValid}
use vless_sub_server.Dns as Dns
use vless_sub_server.Dns.Laws as Laws
use vless_sub_server.Pipeline.Cached.{ServiceResult}
use vless_sub_server.Services.{RouteKey, ServiceCache}
use vless_sub_server.Tests.Values.{parsers, library}

abbrev lines : List Text
lines = text "vless://a" ∷ text "# comment" ∷ text "vless://b" ∷ text "vless://a" ∷ []

abbrev fetched : FetchResult
fetched = record { url = text "u"; status = text "ok"; lines = lines; error = []; via = [] }

abbrev failed : FetchResult
failed = record fetched { status = text "error"; lines = []; error = text "timeout" }

abbrev history : Fetches
history = (5, failed) ∷ (3, fetched) ∷ []

lookup-cache_after_example :
    lookup (text "u") (cache_after (pos minute) history) ≡ last_good (text "u") history
lookup-cache_after_example = lookup-cache_after (pos minute) (text "u") history

merge_one-Served_example :
    let s = (merge_one 9 (pos minute) failed (cache_after (pos minute) history)).1 in
    Served 9 minute history failed s × (s.url ≡ failed.url)
merge_one-Served_example = merge_one-Served 9 minute history failed (ground arith)

parse_all_lines_records_example :
    let records = (parse_all_lines parsers lines).records in
    All IsUsable records
    × Distinct (keys records)
    × ((k : Text) → has k (keys records) ≡ has k (keys (accepted parsers lines)))
parse_all_lines_records_example = parse_all_lines_records parsers lines

abbrev merged : List MergedSource
merged =
    record (no_source (text "u")) { lines = lines; fetch_ok = true }
    ∷ record (no_source (text "v")) {
      lines = text "vless://b" ∷ text "vless://c" ∷ [];
      fetch_ok = true;
    }
    ∷ []

attribute_sources_counts_example :
    let attrs = (attribute_sources library parsers merged).0 in
    let res = parse_all_lines parsers (all_lines merged) in
    (total (λ a. a.unique) attrs ≡ length res.records)
    × (total (λ a. a.duplicates) attrs ≡ res.duplicates)
    × (total (λ a. a.skipped) attrs ≡ res.skipped)
attribute_sources_counts_example = attribute_sources_counts library parsers merged

abbrev cache : Cache ℕ
cache = record { ttl = pos 10; entries = (text "k", record { value = 7; checked_at = 1 }) ∷ [] }

cache-IsValid : IsValid cache
cache-IsValid h = absurd (ground arith)

abbrev dns : Dns.DnsCache
dns = record {
  entries = (text "h", record { ip = text "1.1.1.1"; is_private = false; expires_at = 10 }) ∷ [];
  ttl = pos 9;
}

abbrev resolve : Text → Text × Bool
resolve h = (text "3.3.3.3", false)

lookup-record_all_example :
    lookup
      (text "h")
      (Dns.record_all resolve
        ((5, text "g") ∷ (6, text "h") ∷ [])
        (record { results = []; cache = dns })).results
    ≡ some (Laws.answer resolve (text "h"))
unfolding text_eq
lookup-record_all_example =
    Laws.lookup-record_all resolve ((5, text "g") ∷ (6, text "h") ∷ [])
      (record { results = []; cache = dns }) (text "h")

abbrev helsinki : RouteKey
helsinki = record { route = text "direct"; ip = text "10.0.0.1" }

abbrev chat : ServiceResult
chat = record {
  service = text "chat";
  status = text "available";
  region = [];
  reason = [];
  detail = [];
}

abbrev services : ServiceCache
services = record {
  ttl = pos 10;
  entries = (helsinki, (text "chat", record { result = chat; checked_at = 1 }) ∷ []) ∷ [];
}
