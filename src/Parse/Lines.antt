-- ===== src/Parse/Lines.antt =====
-- internal/parse/parse.go, `ParseAllLines`: which lines become records, and which are dropped as
-- duplicates. The parsers of the single schemes are the fields of `Parsers`.
pub mod Laws
pub mod Passes
use vless_sub_server.Base.{
  ℕ, ◌+◌, Bool, true, false, ◌&&◌, ◌||◌, not, List, [], ◌∷◌, ◌++◌, Option, none, some,
  if◌then◌else◌,
}
use vless_sub_server.Base.Int.{ℤ, pos, ltb_ℤ}
use vless_sub_server.Base.Text.{Text, text, is_empty, has_prefix, trim_space, text_eq}
use vless_sub_server.Base.Dict.{has, Text-eq}
use vless_sub_server.Parse.Record.{ProxyRecord}
use vless_sub_server.Parse.Query.{dedup_key}

-- `parseVless`, `parseVMess`, `parseTrojan`, `parseSS`, `parseHysteria2`; `none` is the nil pointer.
pub record Parsers : Type 0 where
  pub vless : Text → Option ProxyRecord
  pub vmess : Text → Option ProxyRecord
  pub trojan : Text → Option ProxyRecord
  pub ss : Text → Option ProxyRecord
  pub hysteria2 : Text → Option ProxyRecord

pub record ParseResult : Type 0 where
  pub records : List ProxyRecord
  pub skipped : ℕ
  pub duplicates : ℕ

abbrev pub proxy_schemes : List Text
proxy_schemes =
    text "vless://"
    ∷ text "vmess://"
    ∷ text "trojan://"
    ∷ text "ss://"
    ∷ text "hysteria2://"
    ∷ text "hy2://"
    ∷ []

-- internal/config/config.go
abbrev pub placeholder_hosts : List Text
placeholder_hosts =
    text "example.com"
    ∷ text "example.org"
    ∷ text "0.0.0.0"
    ∷ text "127.0.0.1"
    ∷ text "localhost"
    ∷ text "::1"
    ∷ []

unfoldable pub has_scheme : Text → List Text → Bool
has_scheme s [] = false
has_scheme s (p ∷ ps) = if has_prefix s p then true else has_scheme s ps

-- The `switch` over the schemes.
unfoldable pub parse_scheme : Parsers → Text → Option ProxyRecord
parse_scheme p s =
    if has_prefix s (text "vless://")
    then p.vless s
    else if has_prefix s (text "vmess://")
    then p.vmess s
    else if has_prefix s (text "trojan://")
    then p.trojan s
    else if has_prefix s (text "ss://")
    then p.ss s
    else if has_prefix s (text "hysteria2://") || has_prefix s (text "hy2://")
    then p.hysteria2 s
    else none

-- The guards after the `switch`: `false` counts as skipped.
unfoldable pub is_usable : ProxyRecord → Bool
is_usable r =
    if is_empty r.host || (not (ltb_ℤ (pos 0) r.port) || ltb_ℤ (pos 65535) r.port)
    then false
    else not (has r.host placeholder_hosts)

unfoldable pub check_record : Option ProxyRecord → Option ProxyRecord
check_record none = none
check_record (some r) = if is_usable r then some r else none

-- The record that one line stands for, if the loop gets as far as its key.
unfoldable pub line_record : Parsers → Text → Option ProxyRecord
unfolding has_scheme parse_scheme
line_record p line =
    let trimmed = trim_space line in
    if is_empty trimmed || has_prefix trimmed (text "#")
    then none
    else if not (has_scheme trimmed proxy_schemes)
    then none
    else check_record (parse_scheme p trimmed)

-- The variables of the loop.
pub record Progress : Type 0 where
  pub seen : List Text
  pub result : ParseResult

-- The end of the loop's body.
unfoldable pub keep : Progress → Option ProxyRecord → Progress
keep s none = record s { result = record (s.result) { skipped = s.result.skipped + 1 } }
keep s (some r) =
    if has (dedup_key r) s.seen
    then record s { result = record (s.result) { duplicates = s.result.duplicates + 1 } }
    else record {
      seen = dedup_key r ∷ s.seen;
      result = record (s.result) { records = s.result.records ++ r ∷ [] };
    }

unfoldable pub parse_from : Parsers → Progress → List Text → Progress
parse_from p s [] = s
parse_from p s (line ∷ lines) = parse_from p (keep s (line_record p line)) lines

abbrev pub empty_result : ParseResult
empty_result = record { records = []; skipped = 0; duplicates = 0 }

unfoldable pub parse_all_lines : Parsers → List Text → ParseResult
unfolding parse_from
parse_all_lines p lines = (parse_from p (record { seen = []; result = empty_result }) lines).result
