-- ===== src/Tests/Fetching.antt =====
-- Tests of the fetch of subscriptions, of the parsers of links, and of the links that are printed.
use vless_sub_server.Base.{
  ◌≡◌, refl, ap, ◌≢◌, ◌↔◌, ℕ, ◌+◌, ◌-◌, ◌%◌, ◌≤◌, true, false, ◌||◌, ◌&&◌, List, [], ◌∷◌, map, none,
  some, arith, if◌then◌else◌,
}
use vless_sub_server.Base.Int.{pos}
use vless_sub_server.Base.Text.{Text, text, text_eq, split, has_prefix, trim_space}
use vless_sub_server.Base.Dict.{Dict, lookup, Text-eq}
use vless_sub_server.Config.Sources.{SourceSettings}
use vless_sub_server.Fetch.Decode.{
  decoded_lines, keep_lines, Decoders, answered, no_answer, fetch_single, decode_subscription,
  split_non_empty, has_proxy_scheme,
}
use vless_sub_server.Fetch.Decode.Failures.{fetch_single_status}
use vless_sub_server.Fetch.Decode.Laws.{in_standard, IsDecoded, decode_subscription-IsDecoded}
use vless_sub_server.Fetch.Sources.{is_ok, is_authoritative_failure}
use vless_sub_server.Format.Links.{Encoders, reconstruct_ss, format_host, has_colon}
use vless_sub_server.Format.Links.Laws.{
  IsCodec, IsAddress, mentions, escaped, parse_ss-reconstruct_ss,
}
use vless_sub_server.Parse.Lines.{
  parse_all_lines, has_scheme, keep, line_record, check_record, is_usable,
}
use vless_sub_server.Parse.Params.{normalize_insecure}
use vless_sub_server.Parse.Params.Laws.{is_given, lookup-normalize_insecure}
use vless_sub_server.Parse.Query.{byte_length, itoa, decimal}
use vless_sub_server.Parse.Record.{ss, ProxyRecord}
use vless_sub_server.Parse.Schemes.{Library, make_record, parse_vless}
use vless_sub_server.Parse.Schemes.Shares.{share_parsers, IsFaithful, parse_all_lines-IsFaithful}
use vless_sub_server.Parse.Schemes.Vmess.{standard_alphabet}
use vless_sub_server.Parse.Schemes.Shadowsocks.{pad, parse_ss}
use vless_sub_server.Parse.Schemes.Shadowsocks.Laws.{IsPadded, pad_full}
use vless_sub_server.Pipeline.Fetching.{Network, fetch_all_sources}
use vless_sub_server.Pipeline.Fetching.Laws.{AreFetched, fetch_all_sources-AreFetched}

abbrev link : Text
link = text "ss://bWV0aG9kOnB3@h:8388#n"

abbrev decoders : Decoders
decoders = record { singbox_urls = λ s. []; std_base64 = λ s. some link }

fetch_single_status_example :
    let r = fetch_single decoders (text "https://one.test") [] (answered 404 none) in
    (is_ok r ≡ false)
    × ((is_authoritative_failure r.error ≡ true)
        ↔ ((400 ≤ 404) × (404 ≤ 499) × ◌≢◌ {A = ℕ} 404 429))
fetch_single_status_example =
    fetch_single_status decoders (text "https://one.test") [] 404 none (omega arith) (omega arith)
      (omega arith)

decode_subscription-IsDecoded_example :
    (code : Text) × IsPadded 3 (in_standard (trim_space (text "YWJj"))) code
    × (byte_length code % 4 ≡ 0)
    × IsDecoded decoders
        (trim_space (text "YWJj"))
        code
        (decode_subscription decoders (text "YWJj"))
decode_subscription-IsDecoded_example = decode_subscription-IsDecoded decoders (text "YWJj")

-- The body is the base64 of a link.
decoded_link : decode_subscription decoders (text "YWJj") ≡ link ∷ []
unfolding decode_subscription decoded_lines split_non_empty keep_lines split has_proxy_scheme
    has_scheme has_prefix trim_space standard_alphabet pad
decoded_link = refl

pad_full_example :
    (byte_length (pad (text "YWI")) % 4 ≡ 0)
    × (byte_length (text "YWI") % 4 ≡ 0 → pad (text "YWI") ≡ text "YWI")
pad_full_example = pad_full (text "YWI")

abbrev settings : SourceSettings
settings = record {
  subscription_urls = text "https://one.test" ∷ text "https://two.test" ∷ [];
  hwid = text "device";
  name_include = [];
  name_exclude = [];
  port = pos 8080;
  metrics_port = pos 9090;
  source_aliases = [];
  source_fetch_proxies = text "socks5://proxy.test" ∷ [];
}

abbrev network : Network
network = record {
  direct = λ url. answered 200 (some link);
  socks5 = λ proxy. some (λ url. no_answer);
}

fetch_all_sources-AreFetched_example :
    AreFetched decoders network settings 0 settings.subscription_urls
      (fetch_all_sources decoders network settings)
fetch_all_sources-AreFetched_example = fetch_all_sources-AreFetched decoders network settings

abbrev refusing : Dict Text Text
refusing = (text "insecure", text "0") ∷ []

lookup-normalize_insecure_example : lookup (text "insecure") (normalize_insecure refusing) ≡ (
    if text_eq (text "allow_insecure") (text "insecure")
      || text_eq (text "allowInsecure") (text "insecure")
    then none
    else if text_eq (text "insecure") (text "insecure")
        && (is_given (text "allowInsecure") refusing
            || (is_given (text "insecure") refusing || is_given (text "allow_insecure") refusing))
    then some (text "1")
    else lookup (text "insecure") refusing)
lookup-normalize_insecure_example = lookup-normalize_insecure (text "insecure") refusing

-- A value that says no becomes one that says yes.
refusal_lost : lookup (text "insecure") (normalize_insecure refusing) ≡ some (text "1")
unfolding normalize_insecure text_eq
refusal_lost = refl

-- A coder that moves each character far beyond ASCII.
abbrev encode_far : Text → Text
encode_far = map (λ c. c + 1000)

abbrev decode_far : Text → Text
decode_far = map (λ c. c - 1000)

far_back : (s : Text) → decode_far (encode_far s) ≡ s
far_back [] = refl
far_back (c ∷ s) = ground (arith, far_back s)

far_avoids : (sep : ℕ) (s : Text) → sep ≤ 999 → mentions sep (encode_far s) ≡ false
unfolding mentions
far_avoids sep [] h = refl
far_avoids sep (c ∷ s) h = ground (arith, far_avoids sep s h)

abbrev encoders : Encoders
encoders = record {
  path_escape = λ s. s;
  user_info = λ s. s;
  raw_url_base64 = encode_far;
  std_base64 = encode_far;
}

abbrev lib : Library
lib = record {
  parse_url = λ s. none;
  atoi = λ s. record { value = pos 8388; is_ok = true };
  split_host_port = λ s. some (text "h", text "8388");
  raw_url_base64 = λ s. some (decode_far s);
  url_base64 = λ s. none;
  std_base64 = λ s. none;
  unmarshal_vmess = λ s. none;
  normalize_extra = λ s. none;
}

codec : IsCodec encoders lib
codec = record {
  decodes = λ s. ap some (far_back s);
  no_hash = λ s. far_avoids b'#' s (omega arith);
  no_question = λ s. far_avoids b'?' s (omega arith);
  no_colon = λ s. far_avoids b':' s (omega arith);
  no_slash = λ s. far_avoids b'/' s (omega arith);
}

h-IsAddress : IsAddress lib (text "h") (pos 8388)
unfolding mentions format_host has_colon itoa decimal
h-IsAddress = record {
  some_host = refl;
  some_port = refl;
  splits = refl;
  reads_value = refl;
  reads_ok = refl;
  no_hash = refl;
  no_question = refl;
  no_at = refl;
  no_slash = refl;
}

abbrev shadowsocks : ProxyRecord
shadowsocks =
    make_record ss (text "h") (pos 8388) (text "pw") ((text "method", text "aes") ∷ []) [] []

parse_ss-reconstruct_ss_example :
    let line = reconstruct_ss encoders shadowsocks (text "name") in
    parse_ss lib line
    ≡ some (
        make_record ss
          (text "h")
          (pos 8388)
          (text "pw")
          ((text "method", text "aes") ∷ [])
          (escaped encoders (text "name"))
          line)
unfolding mentions text_eq
parse_ss-reconstruct_ss_example =
    parse_ss-reconstruct_ss encoders lib shadowsocks (text "name") codec h-IsAddress refl

abbrev two_lines : List Text
two_lines = text " ss://aes:pw@h:8388#n " ∷ text "vless://x" ∷ []

-- The first line is read, and the second has no URL that the library accepts.
one_read :
    (parse_all_lines (share_parsers lib) two_lines).records
    ≡ make_record ss
        (text "h")
        (pos 8388)
        (text "pw")
        ((text "method", text "aes") ∷ [])
        (text "n")
        (text "ss://aes:pw@h:8388#n")
      ∷ []
unfolding parse_all_lines keep line_record check_record is_usable parse_vless parse_ss trim_space
    has_prefix text_eq
one_read = refl

parse_all_lines-IsFaithful_example :
    IsFaithful two_lines (parse_all_lines (share_parsers lib) two_lines).records
parse_all_lines-IsFaithful_example = parse_all_lines-IsFaithful lib two_lines
