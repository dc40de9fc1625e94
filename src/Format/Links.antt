-- ===== src/Format/Links.antt =====
-- internal/format/format.go: a record becomes a link again. `net/url` and `encoding/base64` are
-- parameters, and the link of a VMess record, which is an object of its own.
pub mod Laws
use vless_sub_server.Base.{Bool, true, false, not, List, [], ◌∷◌, ◌++◌, filter, ◌==◌, if◌then◌else◌}
use vless_sub_server.Base.Int.{ℤ}
use vless_sub_server.Base.Text.{Text, text, is_empty, text_eq}
use vless_sub_server.Base.Dict.{Dict, Text-eq}
use vless_sub_server.Parse.Params.{get_param}
use vless_sub_server.Parse.Query.{itoa, encode}
use vless_sub_server.Parse.Record.{
  unset, vless, vmess, trojan, ss, hysteria2, Protocol, ProxyRecord,
}

-- `url.PathEscape`, `url.User(name).String()`, and the encodings of `encoding/base64`.
pub record Encoders : Type 0 where
  pub path_escape : Text → Text
  pub user_info : Text → Text
  pub raw_url_base64 : Text → Text
  pub std_base64 : Text → Text

-- `strings.Contains(host, ":")`
unfoldable pub has_colon : Text → Bool
has_colon [] = false
has_colon (c ∷ s) = if c == b':' then true else has_colon s

unfoldable pub format_host : Text → Text
unfolding has_colon
format_host host = if has_colon host then b'[' ∷ (host ++ b']' ∷ []) else host

-- `host:port`, as the links are printed.
abbrev pub authority : Text → ℤ → Text
authority host port = format_host host ++ b':' ∷ itoa port

abbrev pub method_of : ProxyRecord → Text
method_of r =
    let method = get_param (text "method") r.query_params in
    if is_empty method then text "aes-256-gcm" else method

module _ (enc : Encoders) where
  abbrev pub fragment_part : Text → Text
  fragment_part fragment = if not (is_empty fragment) then b'#' ∷ enc.path_escape fragment else []

  -- `"…://%s@%s:%d?%s%s"`
  unfoldable pub reconstruct_url_link : Text → ProxyRecord → Text → Text
  unfolding format_host
  reconstruct_url_link scheme r fragment =
      scheme
      ++ (enc.user_info r.uuid_or_password
          ++ b'@'
            ∷ (authority r.host r.port ++ b'?' ∷ (encode r.query_params ++ fragment_part fragment)))

  unfoldable pub reconstruct_vless : ProxyRecord → Text → Text
  unfolding reconstruct_url_link
  reconstruct_vless r fragment = reconstruct_url_link (text "vless://") r fragment

  unfoldable pub reconstruct_trojan : ProxyRecord → Text → Text
  unfolding reconstruct_url_link
  reconstruct_trojan r fragment = reconstruct_url_link (text "trojan://") r fragment

  unfoldable pub reconstruct_ss : ProxyRecord → Text → Text
  unfolding format_host
  reconstruct_ss r fragment =
      text "ss://"
      ++ (enc.raw_url_base64 (method_of r ++ b':' ∷ r.uuid_or_password)
          ++ b'@' ∷ (authority r.host r.port ++ fragment_part fragment))

  unfoldable pub reconstruct_hysteria2 : ProxyRecord → Text → Text
  unfolding format_host
  reconstruct_hysteria2 r fragment =
      let query =
        encode (filter (λ (p : Text × Text). not (text_eq p.0 (text "security"))) r.query_params) in
      text "hysteria2://"
      ++ (enc.user_info r.uuid_or_password
          ++ b'@'
            ∷ (authority r.host r.port
                ++ ((if not (is_empty query) then b'?' ∷ query else []) ++ fragment_part fragment)))

  -- `reconstructURL`; `vmess_link` is `reconstructVMess`.
  unfoldable pub reconstruct_url : (ProxyRecord → Text → Text) → ProxyRecord → Text → Text
  unfolding reconstruct_vless reconstruct_trojan reconstruct_ss reconstruct_hysteria2
  reconstruct_url vmess_link r fragment = elim r.protocol [
    | vless ↦ reconstruct_vless r fragment
    | vmess ↦ vmess_link r fragment
    | trojan ↦ reconstruct_trojan r fragment
    | ss ↦ reconstruct_ss r fragment
    | hysteria2 ↦ reconstruct_hysteria2 r fragment
    | unset ↦ r.original_line
  ]
