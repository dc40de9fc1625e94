-- ===== src/Parse/Schemes/Vmess/Laws.antt =====
-- A record of a VMess link keeps the line and has normalised parameters.
use vless_sub_server.Base.{◌&&◌, not, Option, none, some, inl, inr, Bool-cases, drop}
use vless_sub_server.Base.Text.{Text, text, is_empty, text_eq}
use vless_sub_server.Base.Dict.{Dict}
use vless_sub_server.Parse.Params.{normalize_insecure}
use vless_sub_server.Parse.Params.Laws.{normalize_insecure-IsNormal}
use vless_sub_server.Parse.Record.{vmess}
use vless_sub_server.Parse.Schemes.{Library, VmessConfig}
use vless_sub_server.Parse.Schemes.Laws.{
  Gives, IsOf, Accepts, normalize_xhttp-Accepts, with_params-Gives,
}
use vless_sub_server.Parse.Schemes.Shadowsocks.{pad}
use vless_sub_server.Parse.Schemes.Vmess.{
  vmess_of, parse_vmess, then_normalized, vmess_extra, vmess_params, vmess_port, unmarshalled,
  standard_alphabet,
}

then_normalized-Accepts :
    (normalize_extra : Text → Option Text) (params : Option (Dict Text Text))
    → Accepts (then_normalized normalize_extra params)
then_normalized-Accepts normalize_extra none = tt
then_normalized-Accepts normalize_extra (some params) =
    normalize_xhttp-Accepts normalize_extra (normalize_insecure params)
      (normalize_insecure-IsNormal params)

vmess_of-IsOf :
    (lib : Library) (line : Text) (cfg : VmessConfig)
    → Gives (IsOf vmess line) (vmess_of lib line cfg)
unfolding vmess_of
vmess_of-IsOf lib line cfg =
    let extra = vmess_extra lib.normalize_extra cfg.extra (vmess_params cfg) in
    elim (Bool-cases (not (is_empty cfg.v) && not (text_eq cfg.v (text "2")))) [
      | inl e ↦ rw e tt
      | inr e ↦ rw e (
          with_params-Gives vmess line cfg.host cfg.id cfg.ps (vmess_port lib cfg.port)
            (then_normalized lib.normalize_extra extra)
            (then_normalized-Accepts lib.normalize_extra extra))
    ]

pub parse_vmess-IsOf :
    (lib : Library) (line : Text) → Gives (IsOf vmess line) (parse_vmess lib line)
unfolding parse_vmess
parse_vmess-IsOf lib line =
    elim (unmarshalled lib (lib.std_base64 (pad (standard_alphabet (drop 8 line)))))
      as (λ o.
        Gives (IsOf vmess line) (elim o [ none ↦ none | some cfg ↦ vmess_of lib line cfg ])) [
          | none ↦ tt
          | some cfg ↦ vmess_of-IsOf lib line cfg
        ]
