-- ===== src/Subview/Request.antt =====
-- internal/subview/view.go: the options of a request, and the client that makes it.
pub mod Laws
use vless_sub_server.Base.{
  ℕ, ◌+◌, map, leb, Bool, true, false, ◌&&◌, ◌||◌, not, List, [], ◌∷◌, Option, none, some,
  if◌then◌else◌,
}
use vless_sub_server.Base.Text.{Text, text, is_empty, text_eq, trim_space, to_lower, has_prefix}
use vless_sub_server.Base.Dict.{Dict, lookup, Text-eq}
use vless_sub_server.Base.Result.{Result, ok, err, ◌>>=◌}
use vless_sub_server.Country.Codes.{Codes, parse_codes}
use vless_sub_server.Pipeline.Cached.{RoutingProfile, unset, russia, without_rules}

pub data Format : Type 0 where
  url json singbox clash : Format

pub data Client : Type 0 where
  unknown v2rayng incy exclave husi : Client

pub record Options : Type 0 where
  pub format : Format
  pub warp : Bool
  pub profile : RoutingProfile
  pub exclude : Codes

-- The errors, each with the value that its message quotes.
pub data ParseError : Type 0 where
  unsupported_format : Text → ParseError
  warp_by_client : Client → ParseError
  unsupported_warp : Text → ParseError
  warp_requires_json : ParseError
  unsupported_profile : Text → ParseError
  profile_requires_json : Text → ParseError
  bad_code : Text → ParseError

-- `url.Values`
abbrev pub Values : Type 0
Values = Dict Text (List Text)

abbrev pub all_values : Text → Values → List Text
all_values key values = elim (lookup key values) [ none ↦ [] | some vs ↦ vs ]

-- `Get`: the first value, empty if there is none.
abbrev pub first : List Text → Text
first [] = []
first (v ∷ vs) = v

abbrev pub get : Text → Values → Text
get key values = first (all_values key values)

unfoldable pub parse_format : Text → Result ParseError Format
parse_format value =
    if is_empty value
    then ok url
    else if text_eq value (text "url")
    then ok url
    else if text_eq value (text "json")
    then ok json
    else if text_eq value (text "singbox")
    then ok singbox
    else if text_eq value (text "clash")
    then ok clash
    else err (unsupported_format value)

abbrev pub is_url : Format → Bool
is_url url = true
is_url f = false

-- The clients that flatten the outbounds of a complete config, asked for such a config.
unfoldable pub is_flattened : Format → Client → Bool
is_flattened json exclave = true
is_flattened json husi = true
is_flattened f c = false

unfoldable pub parse_warp : Format → Client → Text → Result ParseError Bool
parse_warp f client value =
    if is_empty value
    then ok (not (is_url f) && not (is_flattened f client))
    else if text_eq value (text "on")
    then (if is_flattened f client then err (warp_by_client client) else ok true)
    else if text_eq value (text "off")
    then ok false
    else err (unsupported_warp value)

unfoldable pub check_warp : Format → Bool → Result ParseError Bool
check_warp f warp = if warp && is_url f then err warp_requires_json else ok warp

-- The check after the `switch value`.
unfoldable pub check_profile : Format → Text → RoutingProfile → Result ParseError RoutingProfile
check_profile f value p = if is_url f then err (profile_requires_json value) else ok p

unfoldable pub parse_profile : Format → Text → Result ParseError RoutingProfile
unfolding check_profile
parse_profile f value =
    if is_empty value
    then ok russia
    else if text_eq value (text "ru")
    then check_profile f value russia
    else if text_eq value (text "none")
    then check_profile f value without_rules
    else err (unsupported_profile value)

unfoldable pub parse_exclude : List Text → Result ParseError Codes
parse_exclude values = elim (parse_codes values) [
  | ok set ↦ ok set
  | err part ↦ err (bad_code part)
]

unfoldable pub parse_for_client : Values → Client → Result ParseError Options
parse_for_client values client = parse_format (get (text "format") values) >>= λ f.
    parse_warp f client (get (text "warp") values) >>= λ w. check_warp f w >>= λ warp.
    parse_profile f (get (text "profile") values) >>= λ p.
    parse_exclude (all_values (text "exclude") values) >>= λ set.
    ok (record { format = f; warp = warp; profile = p; exclude = set })

abbrev pub parse : Values → Result ParseError Options
parse values = parse_for_client values unknown

-- `strings.EqualFold` with a text in ASCII without K and S, which fold with letters of ASCII only.
fold_code : ℕ → ℕ
fold_code c = if leb b'A' c && leb c b'Z' then c + 32 else c

unfoldable pub equal_fold : Text → Text → Bool
unfolding fold_code
equal_fold s t = text_eq (map fold_code s) (map fold_code t)

unfoldable pub detect_client : Text → Text → Client
unfolding equal_fold
detect_client user_agent x_client =
    let ua = to_lower (trim_space user_agent) in
    if equal_fold (trim_space x_client) (text "INCY")
    then incy
    else if has_prefix ua (text "v2rayng/")
    then v2rayng
    else if has_prefix ua (text "incy/")
    then incy
    else if has_prefix ua (text "exclave/")
    then exclave
    else if has_prefix ua (text "husi/")
    then husi
    else unknown
