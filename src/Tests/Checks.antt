-- ===== src/Tests/Checks.antt =====
-- Tests of the probes of services, addresses and ports, and of the settings.
use mathlib.Core.List.{Permᴰ}
use vless_sub_server.Base.{
  ◌≡◌, refl, ℕ, Bool, true, false, List, [], ◌∷◌, none, some, All, arith, if◌then◌else◌,
}
use vless_sub_server.Base.Int.{pos}
use vless_sub_server.Base.Text.{Text, text, text_eq}
use vless_sub_server.Checks.{Client, Regexp, answered, failed, fetched, fetch}
use vless_sub_server.Checks.All.{default_checkers}
use vless_sub_server.Checks.Laws.Failure.{Fails, default_checkers-Fails}
use vless_sub_server.Checks.Laws.Reports.{Reports, default_checkers-Reports}
use vless_sub_server.Config.{Ensures, Env}
use vless_sub_server.Config as Config
use vless_sub_server.Config.Load.{AreBounds, load, load-Ensures}
use vless_sub_server.Dnsbl.{Address, found, check_ip, default_lists}
use vless_sub_server.Dnsbl.Laws.{AreVerdicts, answer_for, check_ip-AreVerdicts}
use vless_sub_server.IpIntel.{ProviderResult}
use vless_sub_server.IpIntel.Cache.{get}
use vless_sub_server.IpIntel.Lookup.{Aggregator, Answer, detailed, new_aggregator, lookup_ip}
use vless_sub_server.IpIntel.Lookup.Laws.{lookup_ip_again}
use vless_sub_server.IpIntel.Merge.{merge, merge_result}
use vless_sub_server.IpIntel.Merge.Laws.{SameView, merge-perm, merge-append}
use vless_sub_server.Tests.Values.{float}

abbrev no_match : Regexp
no_match = record { match_string = λ p s. false; find_submatch = λ p s. none }

abbrev welcoming : Client
welcoming url headers = answered 200 (text "welcome, ad-free") url

default_checkers-Reports_example : All (Reports welcoming) (default_checkers no_match)
default_checkers-Reports_example = default_checkers-Reports no_match welcoming

abbrev cut_off : Client
cut_off url headers = failed true

default_checkers-Fails_example : All (Fails cut_off) (default_checkers no_match)
unfolding fetch fetched
default_checkers-Fails_example = default_checkers-Fails no_match cut_off (λ url headers. refl)

abbrev from_provider : Text → Text → Bool → ProviderResult ℕ
from_provider source type tor = record {
  source = source;
  asn = [];
  organization = [];
  isp = [];
  country_code = text "NL";
  city = [];
  type = type;
  proxy = false;
  vpn = false;
  tor = tor;
  abuser = false;
  datacenter = false;
  crawler = false;
  risk_score = 5;
  has_score = true;
}

abbrev first : ProviderResult ℕ
first = from_provider (text "a") (text "mobile") false

abbrev second : ProviderResult ℕ
second = from_provider (text "b") (text "residential") true

abbrev address : Text
address = text "192.0.2.1"

merge-perm_example :
    let m = merge float (first ∷ second ∷ []) address 7 in
    let n = merge float (second ∷ first ∷ []) address 7 in
    (m.flags ≡ n.flags) × (m.type ≡ n.type) × (m.risk_level ≡ n.risk_level)
merge-perm_example = merge-perm float address 7 (Permᴰ.swap refl refl)

merge-append_example :
    SameView float
      (merge float (first ∷ second ∷ []) address 7)
      (merge_result float (merge float (first ∷ []) address 7) second)
merge-append_example = merge-append float (first ∷ []) second address 7 refl

abbrev answers : List (Answer ℕ)
answers = record { name = text "a"; response = detailed first (text "success") } ∷ []

abbrev aggregator : Aggregator ℕ
aggregator = new_aggregator (pos 10)

abbrev looked_up : Aggregator ℕ
looked_up = (lookup_ip float aggregator address 0 1 answers).1

lookup_ip_again_example :
    lookup_ip float looked_up address 5 6 []
    ≡ (some (merge float (first ∷ []) address 1), looked_up)
unfolding get lookup_ip text_eq
lookup_ip_again_example =
    lookup_ip_again float aggregator address 0 1 5 6 answers [] tt refl refl refl (omega arith) refl

check_ip-AreVerdicts_example :
    let ip : Address = record { is_4 = true; shown = address } in
    let resolve = λ (name : Text). found (text "127.0.0.2" ∷ []) in
    AreVerdicts
      (answer_for resolve ip)
      default_lists
      (check_ip (λ list. false) resolve ip default_lists)
check_ip-AreVerdicts_example =
    check_ip-AreVerdicts (λ list. false) (λ name. found (text "127.0.0.2" ∷ []))
      (record { is_4 = true; shown = address }) default_lists

abbrev no_numbers : Config.Library
no_numbers = record {
  atoi = λ s. none;
  parse_int64 = λ s. none;
  parse_bool = λ s. none;
  parse_duration = λ s. none;
}

abbrev env : Env
env name =
    if text_eq name (text "SUBSCRIPTION_URLS")
    then text "https://one.test,https://two.test"
    else if text_eq name (text "HWID")
    then text "device"
    else []

load-Ensures_example : Ensures AreBounds (load no_numbers env)
load-Ensures_example = load-Ensures no_numbers env
