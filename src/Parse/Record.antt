-- ===== src/Parse/Record.antt =====
-- internal/parse/types.go: the record of one proxy.
use vless_sub_server.Base.{Bool, true, false, []}
use vless_sub_server.Base.Int.{ℤ}
use vless_sub_server.Base.Text.{Text, text}
use vless_sub_server.Base.Dict.{Dict}

-- `unset` is the zero value of the string type.
pub data Protocol : Type 0 where
  unset vless vmess trojan ss hysteria2 : Protocol

abbrev pub protocol_text : Protocol → Text
protocol_text unset = []
protocol_text vless = text "vless"
protocol_text vmess = text "vmess"
protocol_text trojan = text "trojan"
protocol_text ss = text "ss"
protocol_text hysteria2 = text "hysteria2"

abbrev pub is_set : Protocol → Bool
is_set unset = false
is_set p = true

pub record ProxyRecord : Type 0 where
  pub protocol : Protocol
  pub host : Text
  pub port : ℤ
  pub uuid_or_password : Text
  pub query_params : Dict Text Text
  pub fragment : Text
  pub original_line : Text
