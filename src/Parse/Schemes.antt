-- ===== src/Parse/Schemes.antt =====
-- internal/parse/parse.go: the parsers of the links that are URLs (vless, trojan, hysteria2). Packages
-- `net/url`, `net`, `strconv`, `encoding/base64` and `encoding/json` are parameters, and so is the
-- function `NormalizeExtra` of internal/xhttp.
pub mod Shadowsocks
pub mod Vmess
pub mod Laws
pub mod Shares
use vless_sub_server.Base.{
  ℕ, ◌≡◌, Bool, true, false, ◌&&◌, not, List, [], ◌∷◌, ◌++◌, Option, none, some, ◌==◌,
  if◌then◌else◌,
}
use vless_sub_server.Base.Int.{ℤ, pos}
use vless_sub_server.Base.Text.{Text, text, is_empty}
use vless_sub_server.Base.Dict.{Dict, insert, Text-eq}
use vless_sub_server.Parse.Params.{get_param, first_values, normalize_insecure, normalize_xhttp}
use vless_sub_server.Parse.Record.{Protocol, vless, vmess, trojan, ss, hysteria2, ProxyRecord}

-- `*url.Userinfo`
pub record User : Type 0 where
  pub username : Text
  pub password : Option Text

-- What the parsers read of a `*url.URL`; `query` is `u.Query()`.
pub record Url : Type 0 where
  pub user : Option User
  pub hostname : Text
  pub port : Text
  pub query : Dict Text (List Text)
  pub fragment : Text

-- The value that `strconv.Atoi` returns, and whether its error is nil.
pub record Atoi : Type 0 where
  pub value : ℤ
  pub is_ok : Bool

-- The field `port` of a VMess object, by its JSON type; a number is cut to an integer.
pub data VmessPort : Type 0 where
  number : ℤ → VmessPort
  string : Text → VmessPort
  other : VmessPort

-- The object that a VMess link encodes; `extra` is its text as it stands.
pub record VmessConfig : Type 0 where
  pub v : Text
  pub host : Text
  pub port : VmessPort
  pub id : Text
  pub ps : Text
  pub net : Text
  pub type : Text
  pub tls : Text
  pub sni : Text
  pub path : Text
  pub host2 : Text
  pub flow : Text
  pub scy : Text
  pub alpn : Text
  pub fp : Text
  pub pbk : Text
  pub sid : Text
  pub spx : Text
  pub allow_insecure : Bool
  pub mode : Text
  pub extra : Text

-- `none` is an error. A decoded string is read as a text.
pub record Library : Type 0 where
  pub parse_url : Text → Option Url
  pub atoi : Text → Atoi
  pub split_host_port : Text → Option (Text × Text)
  pub raw_url_base64 : Text → Option Text
  pub url_base64 : Text → Option Text
  pub std_base64 : Text → Option Text
  pub unmarshal_vmess : Text → Option VmessConfig
  pub normalize_extra : Text → Option Text

-- `port := 443`, and the port of the URL if it is a number.
unfoldable pub port_of : Library → Text → ℤ
port_of lib p = if not (is_empty p) && (lib.atoi p).is_ok then (lib.atoi p).value else pos 443

-- `strings.TrimRight(line, "\\")`
unfoldable pub trim_backslashes : Text → Text
trim_backslashes [] = []
trim_backslashes (c ∷ s) =
    let rest = trim_backslashes s in if (c == 92) && is_empty rest then [] else c ∷ rest

abbrev pub make_record : Protocol → Text → ℤ → Text → Dict Text Text → Text → Text → ProxyRecord
make_record protocol host port secret params fragment line = record {
  protocol = protocol;
  host = host;
  port = port;
  uuid_or_password = secret;
  query_params = params;
  fragment = fragment;
  original_line = line;
}

-- `u.User.Username()`, also on a nil pointer.
abbrev pub username_of : Option User → Text
username_of none = []
username_of (some user) = user.username

-- The user name, with the password behind a colon if there is one.
abbrev pub credentials : User → Text
credentials user = elim user.password [
  | none ↦ user.username
  | some password ↦ user.username ++ b':' ∷ password
]

-- The end of a parser: the record, unless the parameters were refused.
abbrev pub with_params :
    Option (Dict Text Text) → (Dict Text Text → ProxyRecord) → Option ProxyRecord
with_params none make = none
with_params (some params) make = some (make params)

unfoldable pub default_security : Dict Text Text → Dict Text Text
default_security params =
    if is_empty (get_param (text "security") params)
    then insert (text "security") (text "tls") params
    else params

module _ (lib : Library) where
  abbrev pub url_params : Url → Option (Dict Text Text)
  url_params u = normalize_xhttp lib.normalize_extra (normalize_insecure (first_values u.query))

  unfoldable pub vless_of : Text → Option Url → Option ProxyRecord
  unfolding port_of
  vless_of line none = none
  vless_of line (some u) = with_params (url_params u) (λ params.
      make_record vless u.hostname (port_of lib u.port) (username_of u.user) params u.fragment line)

  unfoldable pub parse_vless : Text → Option ProxyRecord
  unfolding trim_backslashes vless_of
  parse_vless line = vless_of line (lib.parse_url (trim_backslashes line))

  unfoldable pub trojan_of : Text → Url → Option User → Option ProxyRecord
  unfolding port_of
  trojan_of line u none = none
  trojan_of line u (some user) = with_params (url_params u) (λ params.
      make_record trojan u.hostname (port_of lib u.port) (credentials user) params u.fragment line)

  unfoldable pub parse_trojan : Text → Option ProxyRecord
  unfolding trojan_of
  parse_trojan line = elim (lib.parse_url line) [ none ↦ none | some u ↦ trojan_of line u u.user ]

  unfoldable pub hysteria2_of : Text → Url → Option User → Option ProxyRecord
  unfolding port_of default_security
  hysteria2_of line u none = none
  hysteria2_of line u (some user) =
      let params = default_security (normalize_insecure (first_values u.query)) in
      some (
        make_record hysteria2 u.hostname (port_of lib u.port) (credentials user) params u.fragment
          line)

  unfoldable pub parse_hysteria2 : Text → Option ProxyRecord
  unfolding hysteria2_of
  parse_hysteria2 line = elim (lib.parse_url line) [
    | none ↦ none
    | some u ↦ hysteria2_of line u u.user
  ]
