-- ===== src/Country/Evidence.antt =====
-- internal/country/country.go and state.go: the evidence kept for each route, how an observation
-- changes it, and which routes need another probe.
pub mod Stable
use vless_sub_server.Base.{ℕ, ◌+◌, Bool, true, false, ◌&&◌, ◌||◌, not, List, [], leb, if◌then◌else◌}
use vless_sub_server.Base.Text.{Text, is_empty, to_upper, text_eq}
use vless_sub_server.Base.Clock.{Time}
use vless_sub_server.Country.Codes.{is_code}

-- `netip.Addr`: the zero value, an IPv4 address, or an IPv6 address with its zone.
pub data Addr : Type 0 where
  invalid : Addr
  v4 : ℕ → Addr
  v6 : ℕ → Text → Addr

abbrev pub is_valid : Addr → Bool
is_valid invalid = false
is_valid a = true

abbrev pub is_4 : Addr → Bool
is_4 (v4 n) = true
is_4 a = false

-- `unset` is the zero value of the string type.
pub data Status : Type 0 where
  unset unknown confirmed conflict : Status

pub record Observation : Type 0 where
  pub ip : Addr
  pub country : Text

unfoldable pub valid : Observation → Bool
valid o = is_valid o.ip && is_code o.country

pub record FamilyResult : Type 0 where
  pub available : Bool
  pub ip : Addr
  pub country : Text
  pub observed_country : Text
  pub status : Status
  pub candidate_country : Text
  pub candidate_count : ℕ
  pub confirmed_at : Time
  pub observed_at : Time

abbrev pub no_evidence : FamilyResult
no_evidence = record {
  available = false;
  ip = invalid;
  country = [];
  observed_country = [];
  status = unset;
  candidate_country = [];
  candidate_count = 0;
  confirmed_at = 0;
  observed_at = 0;
}

pub record RouteCountries : Type 0 where
  pub direct_v4 : FamilyResult
  pub direct_v6 : FamilyResult
  pub warp_v4 : FamilyResult
  pub warp_v6 : FamilyResult

abbrev pub no_countries : RouteCountries
no_countries = record {
  direct_v4 = no_evidence;
  direct_v6 = no_evidence;
  warp_v4 = no_evidence;
  warp_v6 = no_evidence;
}

abbrev pub is_unknown : Status → Bool
is_unknown unknown = true
is_unknown s = false

abbrev pub is_confirmed : Status → Bool
is_confirmed confirmed = true
is_confirmed s = false

-- `previous` becomes confirmed at `code`, and has no candidate.
confirm : FamilyResult → Text → Time → FamilyResult
confirm f code now = record f {
  country = code;
  status = confirmed;
  confirmed_at = now;
  candidate_country = [];
  candidate_count = 0;
}

-- The last part of `Observe`: another country than the confirmed one has been seen.
challenge : FamilyResult → Text → Time → FamilyResult
unfolding confirm
challenge f code now =
    let count = if text_eq f.candidate_country code then f.candidate_count + 1 else 1 in
    if leb 2 count
    then confirm f code now
    else record f { status = conflict; candidate_country = code; candidate_count = count }

-- `Observe` after the check of the observation, `code` in upper case.
weigh : FamilyResult → Text → Time → FamilyResult
unfolding confirm challenge
weigh f code now =
    if is_empty f.country || is_unknown f.status
    then confirm f code now
    else if text_eq code f.country
    then record f { status = confirmed; candidate_country = []; candidate_count = 0 }
    else challenge f code now

unfoldable pub observe : FamilyResult → Observation → Time → FamilyResult
unfolding weigh valid
observe f o now =
    let code = to_upper o.country in
    if not (valid o)
    then f
    else weigh
        (record f { available = true; ip = o.ip; observed_country = code; observed_at = now }) code
        now

unfoldable pub apply : RouteCountries → Bool → Observation → Time → RouteCountries
apply r warp o now =
    if not (valid o)
    then r
    else if warp
    then (if is_4 o.ip
        then record r { warp_v4 = observe r.warp_v4 o now }
        else record r { warp_v6 = observe r.warp_v6 o now })
    else (if is_4 o.ip
        then record r { direct_v4 = observe r.direct_v4 o now }
        else record r { direct_v6 = observe r.direct_v6 o now })

-- `primary.Available && primary.Status == Confirmed && primary.Country != ""`
abbrev is_stable : FamilyResult → Bool
is_stable f = f.available && (is_confirmed f.status && not (is_empty f.country))

unfoldable pub family_needs_reprobe : FamilyResult → FamilyResult → Bool
family_needs_reprobe primary secondary =
    if is_stable primary
    then secondary.available && (not (is_confirmed secondary.status) || is_empty secondary.country)
    else true

unfoldable pub needs_warp_reprobe : RouteCountries → Bool
unfolding family_needs_reprobe
needs_warp_reprobe r = family_needs_reprobe r.warp_v4 r.warp_v6

unfoldable pub needs_reprobe : RouteCountries → Bool
unfolding family_needs_reprobe
needs_reprobe r =
    family_needs_reprobe r.direct_v4 r.direct_v6 || family_needs_reprobe r.warp_v4 r.warp_v6
