-- ===== src/Parse/Schemes/Vmess.antt =====
-- internal/parse/parse.go: the parser of the links of VMess, which encode an object.
pub mod Laws
use vless_sub_server.Base.{
  ℕ, ◌≡◌, Bool, true, false, ◌&&◌, ◌||◌, not, List, [], ◌∷◌, drop, map, Option, none, some, ◌==◌,
  if◌then◌else◌,
}
use vless_sub_server.Base.Int.{ℤ, pos}
use vless_sub_server.Base.Text.{Text, text, is_empty, text_eq}
use vless_sub_server.Base.Dict.{Dict, insert, Text-eq}
use vless_sub_server.Parse.Params.{normalize_insecure, normalize_xhttp, with_extra}
use vless_sub_server.Parse.Record.{vmess, ProxyRecord}
use vless_sub_server.Parse.Schemes.{
  Library, Atoi, VmessPort, number, string, other, VmessConfig, make_record, with_params,
}
use vless_sub_server.Parse.Schemes.Shadowsocks.{pad}

-- `strings.ReplaceAll` of "-" and "_".
unfoldable pub standard_code : ℕ → ℕ
standard_code c = if c == b'-' then b'+' else if c == b'_' then b'/' else c

unfoldable pub standard_alphabet : Text → Text
unfolding standard_code
standard_alphabet s = map standard_code s

unfoldable pub vmess_port : Library → VmessPort → ℤ
vmess_port lib (number p) = p
vmess_port lib (string p) = (lib.atoi p).value
vmess_port lib other = pos 0

-- `if value != "" { params[key] = value }`
abbrev pub set_text : Text → Text → Dict Text Text → Dict Text Text
set_text key value params = if not (is_empty value) then insert key value params else params

unfoldable pub vmess_type : VmessConfig → Dict Text Text → Dict Text Text
vmess_type cfg params =
    insert (text "type") (if not (is_empty cfg.net) then cfg.net else text "tcp") params

unfoldable pub vmess_security : VmessConfig → Dict Text Text → Dict Text Text
vmess_security cfg params =
    if text_eq cfg.tls (text "tls")
    then insert (text "security") (text "tls") params
    else if text_eq cfg.tls (text "reality")
    then insert (text "security") (text "reality") params
    else params

unfoldable pub vmess_header : VmessConfig → Dict Text Text → Dict Text Text
vmess_header cfg params =
    if not (is_empty cfg.type) && not (text_eq cfg.type (text "none"))
    then insert (text "headerType") cfg.type params
    else params

unfoldable pub vmess_insecure : VmessConfig → Dict Text Text → Dict Text Text
vmess_insecure cfg params =
    if cfg.allow_insecure then insert (text "insecure") (text "1") params else params

-- The parameters in the order in which they are set; `extra` comes after them.
unfoldable pub vmess_params : VmessConfig → Dict Text Text
unfolding vmess_type vmess_security vmess_header vmess_insecure
vmess_params cfg =
    let p1 = vmess_security cfg (vmess_type cfg []) in
    let p2 = set_text (text "path") cfg.path (set_text (text "sni") cfg.sni p1) in
    let p3 = set_text (text "flow") cfg.flow (set_text (text "host") cfg.host2 p2) in
    let p4 =
      set_text (text "alpn") cfg.alpn (set_text (text "scy") cfg.scy (vmess_header cfg p3)) in
    let p5 = set_text (text "pbk") cfg.pbk (set_text (text "fp") cfg.fp p4) in
    let p6 = set_text (text "spx") cfg.spx (set_text (text "sid") cfg.sid p5) in
    set_text (text "mode") cfg.mode (vmess_insecure cfg p6)

unfoldable pub vmess_extra : (Text → Option Text) → Text → Dict Text Text → Option (Dict Text Text)
vmess_extra normalize_extra extra params =
    if not (is_empty extra) && not (text_eq extra (text "null"))
    then with_extra params (normalize_extra extra)
    else some params

abbrev pub then_normalized :
    (Text → Option Text) → Option (Dict Text Text) → Option (Dict Text Text)
then_normalized normalize_extra none = none
then_normalized normalize_extra (some params) =
    normalize_xhttp normalize_extra (normalize_insecure params)

unfoldable pub vmess_of : Library → Text → VmessConfig → Option ProxyRecord
unfolding vmess_params vmess_extra vmess_port
vmess_of lib line cfg =
    let params =
      then_normalized lib.normalize_extra
        (vmess_extra lib.normalize_extra cfg.extra (vmess_params cfg)) in
    if not (is_empty cfg.v) && not (text_eq cfg.v (text "2"))
    then none
    else with_params params
        (λ params. make_record vmess cfg.host (vmess_port lib cfg.port) cfg.id params cfg.ps line)

abbrev pub unmarshalled : Library → Option Text → Option VmessConfig
unmarshalled lib none = none
unmarshalled lib (some decoded) = lib.unmarshal_vmess decoded

unfoldable pub parse_vmess : Library → Text → Option ProxyRecord
unfolding standard_alphabet pad vmess_of
parse_vmess lib line =
    let encoded = pad (standard_alphabet (drop 8 line)) in
    elim (unmarshalled lib (lib.std_base64 encoded)) [
      | none ↦ none
      | some cfg ↦ vmess_of lib line cfg
    ]
