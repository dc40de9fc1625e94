-- ===== src/Tests/Background.antt =====
-- Tests of the background checks and of what they publish.
use vless_sub_server.Base.{◌≡◌, refl, ℕ, false, not, ◌&&◌, [], ◌∷◌, All, none, some, true}
use vless_sub_server.Base.Int.{pos}
use vless_sub_server.Base.Text.{Text, text, is_empty, text_eq, split, has_prefix, trim_space}
use vless_sub_server.Base.Dict.{has, Text-eq}
use vless_sub_server.Country.Evidence.{Addr, invalid, v4, v6}
use vless_sub_server.Enrichment.{Cache, new_cache, set_at}
use vless_sub_server.Pipeline.Background.{
  Checkers, no_needs, unique_healthy_exit_ips, refresh_cached_enrichment, trace_value,
  mark_checks_completed, add_if, add_exit_ip, direct_exit_ip, warp_exit_ip,
}
use vless_sub_server.Pipeline.Background.Laws.{
  AreAddresses, ShowsFacts, is_exit_of, has-unique_healthy_exit_ips, refresh_cached_enrichment-set,
}
use vless_sub_server.Pipeline.Cached.{Intel}
use vless_sub_server.IpIntel.{no_flags}
use vless_sub_server.Tests.Values.{cached_data}

abbrev show : Addr → Text
show invalid = text "invalid IP"
show (v4 n) = text "10.0.0.1"
show (v6 n zone) = text "2001:db8::1"

exits_once : unique_healthy_exit_ips show cached_data.entries ≡ text "10.0.0.1" ∷ []
unfolding unique_healthy_exit_ips add_if add_exit_ip direct_exit_ip warp_exit_ip text_eq
exits_once = refl

trace_found : trace_value (text "fl=1\nip= 10.0.0.1 \nts=2") (text "ip") ≡ text "10.0.0.1"
unfolding trace_value split has_prefix trim_space
trace_found = refl

marked :
    mark_checks_completed
      ((text "a", record no_needs { ports = true })
        ∷ (text "b", record no_needs { dnsbl = true })
        ∷ [])
      (text "a" ∷ [])
      7
      []
    ≡ (text "port", 7) ∷ []
unfolding mark_checks_completed text_eq
marked = refl

abbrev known : Intel ℕ
known = record {
  ip = text "10.0.0.1";
  asn = text "AS1";
  organization = [];
  isp = [];
  country_code = text "FI";
  city = [];
  type = text "hosting";
  risk_level = text "clean";
  risk_score = 0;
  flags = no_flags;
  sources = text "ipapi" ∷ [];
  checked_at = 5;
}

abbrev intel_cache : Cache (Intel ℕ)
intel_cache = new_cache (pos 100)

abbrev checkers : Checkers ℕ
checkers = record {
  intel_enabled = true;
  ports_enabled = false;
  dnsbl_enabled = false;
  intel_cache = set_at (some intel_cache) (text "10.0.0.1") known 5;
  port_cache = none;
  dnsbl_cache = none;
}

has-unique_healthy_exit_ips_example :
    AreAddresses (unique_healthy_exit_ips show cached_data.entries)
    × (has (text "10.0.0.1") (unique_healthy_exit_ips show cached_data.entries) ≡ (
        not (is_empty (text "10.0.0.1")) && is_exit_of show (text "10.0.0.1") cached_data.entries))
has-unique_healthy_exit_ips_example =
    has-unique_healthy_exit_ips show (text "10.0.0.1") cached_data.entries

refresh_cached_enrichment-set_example :
    All
      (ShowsFacts show (text "10.0.0.1") known)
      (refresh_cached_enrichment checkers show 9 cached_data).entries
refresh_cached_enrichment-set_example =
    refresh_cached_enrichment-set show checkers intel_cache (text "10.0.0.1") known 5 9 cached_data
      refl refl refl
