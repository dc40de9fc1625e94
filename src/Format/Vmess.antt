-- ===== src/Format/Vmess.antt =====
-- internal/format/format.go: the link of a VMess record. `encoding/json` and `encoding/base64` are
-- parameters, and so is the function `NormalizeExtra` of internal/xhttp.
use vless_sub_server.Base.{
  Bool, false, ◌||◌, not, List, [], ◌∷◌, ◌++◌, Option, none, some, ◌==◌, ◌&&◌, if◌then◌else◌,
}
use vless_sub_server.Base.Int.{ℤ}
use vless_sub_server.Base.Text.{Text, text, is_empty, text_eq}
use vless_sub_server.Base.Dict.{Dict, insert, Text-eq}
use vless_sub_server.Parse.Params.{get_param}
use vless_sub_server.Parse.Record.{ProxyRecord}

-- The values of the map: `raw` is a `json.RawMessage`.
pub data Value : Type 0 where
  string : Text → Value
  number : ℤ → Value
  raw : Text → Value

pub record VmessLibrary : Type 0 where
  pub marshal : Dict Text Value → Text
  pub std_base64 : Text → Text
  pub normalize_extra : Text → Option Text

abbrev set_field : Text → Text → Dict Text Value → Dict Text Value
set_field key v config = if not (is_empty v) then insert key (string v) config else config

-- The first loop of fields: the literal of the map, and what is set over it.
unfoldable pub vmess_base : ProxyRecord → Text → Dict Text Value
vmess_base r fragment =
    let params = r.query_params in
    (text "v", string (text "2"))
    ∷ (text "ps", string fragment)
    ∷ (text "add", string r.host)
    ∷ (text "port", number r.port)
    ∷ (text "id", string r.uuid_or_password)
    ∷ (text "net", string (get_param (text "type") params))
    ∷ (text "type", string (get_param (text "type") params))
    ∷ (text "tls", string [])
    ∷ (text "sni", string (get_param (text "sni") params))
    ∷ (text "path", string (get_param (text "path") params))
    ∷ (text "host", string (get_param (text "host") params))
    ∷ []

unfoldable pub vmess_transport : Dict Text Text → Dict Text Value → Dict Text Value
vmess_transport params config =
    let header = get_param (text "headerType") params in
    let with_header = set_field (text "headerType") header config in
    let with_net =
      if is_empty (get_param (text "type") params)
      then insert (text "type") (string (text "tcp"))
          (insert (text "net") (string (text "tcp")) with_header)
      else with_header in
    set_field (text "type") header with_net

unfoldable pub vmess_tls : Dict Text Text → Dict Text Value → Dict Text Value
vmess_tls params config =
    let security = get_param (text "security") params in
    if text_eq security (text "tls") || text_eq security (text "reality")
    then insert (text "tls") (string (text "tls")) config
    else config

abbrev optional_fields : List Text
optional_fields =
    text "flow"
    ∷ text "scy"
    ∷ text "alpn"
    ∷ text "fp"
    ∷ text "pbk"
    ∷ text "sid"
    ∷ text "spx"
    ∷ text "mode"
    ∷ []

-- The parameters that are copied under their own names, if they have a value.
unfoldable pub vmess_optional : List Text → Dict Text Text → Dict Text Value → Dict Text Value
vmess_optional [] params config = config
vmess_optional (key ∷ keys) params config =
    vmess_optional keys params (set_field key (get_param key params) config)

abbrev set_raw : Dict Text Value → Option Text → Dict Text Value
set_raw config none = config
set_raw config (some normalized) = insert (text "extra") (raw normalized) config

unfoldable pub vmess_extra_field : VmessLibrary → Dict Text Text → Dict Text Value → Dict Text Value
vmess_extra_field lib params config =
    let v = get_param (text "extra") params in
    if not (is_empty v) then set_raw config (lib.normalize_extra v) else config

abbrev is_blank : Value → Bool
is_blank (string s) = is_empty s
is_blank (number n) = false
is_blank (raw s) = false

-- `delete(vmConfig, k)` for each empty string.
unfoldable pub drop_blank : Dict Text Value → Dict Text Value
drop_blank [] = []
drop_blank ((k, v) ∷ config) =
    let rest = drop_blank config in if is_blank v then rest else (k, v) ∷ rest

-- `strings.TrimRight(encoded, "=")`
unfoldable pub trim_padding : Text → Text
trim_padding [] = []
trim_padding (c ∷ s) =
    let rest = trim_padding s in if (c == b'=') && is_empty rest then [] else c ∷ rest

unfoldable pub vmess_object : VmessLibrary → ProxyRecord → Text → Dict Text Value
unfolding vmess_base vmess_transport vmess_tls vmess_optional vmess_extra_field drop_blank
vmess_object lib r fragment =
    let params = r.query_params in
    let secured = vmess_tls params (vmess_transport params (vmess_base r fragment)) in
    drop_blank (vmess_extra_field lib params (vmess_optional optional_fields params secured))

unfoldable pub reconstruct_vmess : VmessLibrary → ProxyRecord → Text → Text
unfolding vmess_object trim_padding
reconstruct_vmess lib r fragment =
    text "vmess://" ++ trim_padding (lib.std_base64 (lib.marshal (vmess_object lib r fragment)))
