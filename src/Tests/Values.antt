-- ===== src/Tests/Values.antt =====
-- Values that the tests share: interfaces of concrete functions, records, and their well-formedness.
use vless_sub_server.Base.{ℕ, ◌+◌, ◌-◌, ◌*◌, ◌/◌, true, [], ◌∷◌, none, some, ltb, arith}
use vless_sub_server.Base.Int.{pos}
use vless_sub_server.Base.Text.{Text, text}
use vless_sub_server.Country.Evidence.{
  FamilyResult, RouteCountries, Observation, no_evidence, no_countries, v4, confirmed,
}
use vless_sub_server.Country.Evidence.Stable.{IsWell}
use vless_sub_server.Parse.Record.{ProxyRecord, vless}
use vless_sub_server.Parse.Lines.{Parsers}
use vless_sub_server.Quality.Identity.{Library}
use vless_sub_server.Quality.Runtime.{GeoInfo, Runtime}
use vless_sub_server.Quality.Scoring.{Float}
use vless_sub_server.Pipeline.Cached.{Formatters, FormatMetadata, CachedEntry, CachedData}
use vless_sub_server.Pipeline.Probes.{ExitProbeResult, Memory, evidence, no_runtime, no_metrics}
use vless_sub_server.Pipeline.Probes.Laws.{AreWell, IsValid}
use vless_sub_server.Rename.{RenamedEntry}

abbrev pub library : Library
library = record { sha256_hex = λ s. s; canonical_ip = λ s. none }

abbrev pub float : Float ℕ
float = record {
  below = ltb;
  plus = λ a b. a + b;
  minus = λ a b. a - b;
  times = λ a b. a * b;
  over = λ a b. a / b;
  log1p = λ a. a + 1;
  fraction = λ a b. a / b;
}

abbrev pub proxy : Text → ProxyRecord
proxy host = record {
  protocol = vless;
  host = host;
  port = pos 443;
  uuid_or_password = text "id";
  query_params = [];
  fragment = [];
  original_line = [];
}

-- Every scheme gives a proxy at the host that is the line itself.
abbrev pub parsers : Parsers
parsers = record {
  vless = λ s. some (proxy s);
  vmess = λ s. some (proxy s);
  trojan = λ s. some (proxy s);
  ss = λ s. some (proxy s);
  hysteria2 = λ s. some (proxy s);
}

abbrev pub formatters : Formatters
formatters = record {
  output = λ t es m. text "list";
  xray_json = λ es m w p. text "xray";
  singbox_json = λ es m w p. text "singbox";
  clash_yaml = λ es m w p. text "clash";
}

abbrev pub no_counts : FormatMetadata
no_counts = record {
  total_fetched = 0;
  total_parsed = 0;
  total_skipped = 0;
  total_duplicates = 0;
  total_alive = 0;
  total_dead = 0;
  sources_ok = 0;
  sources_failed = 0;
  geo_available = 0;
  geo_total = 0;
}

abbrev pub finland : GeoInfo
finland = record {
  country_code = text "FI";
  city = text "Helsinki";
  isp = text "Host";
  ip = text "10.0.0.1";
}

abbrev pub in_finland : Observation
in_finland = record { ip = v4 1; country = text "fi" }

abbrev pub finnish : FamilyResult
finnish = record {
  available = true;
  ip = v4 1;
  country = text "FI";
  observed_country = text "FI";
  status = confirmed;
  candidate_country = [];
  candidate_count = 0;
  confirmed_at = 1;
  observed_at = 1;
}

abbrev pub finnish_routes : RouteCountries
finnish_routes = record no_countries { direct_v4 = finnish; warp_v4 = finnish }

abbrev pub named_entry : Text → RenamedEntry
named_entry host = record { entry = proxy host; renamed_fragment = host }

abbrev pub cached_entry : Text → CachedEntry ℕ
cached_entry host = record {
  entry = named_entry host;
  warp_entry = named_entry host;
  countries = finnish_routes;
  direct_healthy = true;
  warp_healthy = true;
  intel = none;
  warp_intel = none;
  services = [];
  warp_services = [];
  port_results = [];
  warp_port_results = [];
  dnsbl_results = [];
  warp_dnsbl_results = [];
}

abbrev pub cached_data : CachedData ℕ
cached_data = record {
  output = text "list";
  json_output = text "xray";
  entries = cached_entry (text "a") ∷ cached_entry (text "b") ∷ [];
  metadata = no_counts;
  last_refresh = 1;
}

abbrev pub probe : ExitProbeResult ℕ
probe = record {
  exit_ip = text "10.0.0.1";
  exit_loc = [];
  geo_info = some finland;
  warp_geo_info = none;
  direct_country = in_finland;
  warp_country = in_finland;
  direct_source = [];
  warp_source = [];
  xray_ok = true;
  metrics = record (no_metrics float) {
    sample_count = 5;
    success_count = 4;
    internet_reachable = true;
  };
}

abbrev pub empty_memory : Memory ℕ
empty_memory = record { runtime = []; country_state = some [] }

abbrev pub runtime : Text → Runtime ℕ
runtime key = record (no_runtime float) { key = key; reachable = true; direct_healthy = true }

pub no_evidence-IsWell : IsWell no_evidence
no_evidence-IsWell = record {
  known = ground arith;
  fresh = ground arith;
  seen = ground arith;
  agreed = ground arith;
  disputed = ground arith;
}

pub no_countries-AreWell : AreWell no_countries
no_countries-AreWell = record {
  direct_v4 = no_evidence-IsWell;
  direct_v6 = no_evidence-IsWell;
  warp_v4 = no_evidence-IsWell;
  warp_v6 = no_evidence-IsWell;
}

pub empty_memory-IsValid : IsValid empty_memory
unfolding evidence
empty_memory-IsValid = record {
  runtimes = λ key r h. absurd (ground arith);
  durable = λ key. no_countries-AreWell;
  mirrored = λ key r d h e. absurd (ground arith);
}
