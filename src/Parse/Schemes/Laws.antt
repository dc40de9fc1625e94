-- ===== src/Parse/Schemes/Laws.antt =====
-- What the records of the five parsers have in common.
use vless_sub_server.Base.{◌≡◌, refl, ◌&&◌, not, Option, none, some, inl, inr, Bool-cases}
use vless_sub_server.Base.Int.{ℤ}
use vless_sub_server.Base.Text.{Text, text, is_empty, text_eq}
use vless_sub_server.Base.Dict.{Dict, insert, Text-eq}
use vless_sub_server.Parse.Params.{
  get_param, first_values, normalize_insecure, normalize_xhttp, with_extra,
}
use vless_sub_server.Parse.Params.Laws.{IsNormal, normalize_insecure-IsNormal, insert-IsNormal}
use vless_sub_server.Parse.Record.{Protocol, vless, trojan, hysteria2, ProxyRecord}
use vless_sub_server.Parse.Schemes.{
  Library, Url, User, make_record, with_params, url_params, vless_of, parse_vless, trojan_of,
  parse_trojan, default_security, hysteria2_of, parse_hysteria2, credentials, port_of, username_of,
}

-- What holds of a record, if there is one.
abbrev pub Gives : (ProxyRecord → Type 0) → Option ProxyRecord → Type 0
Gives P none = Unit
Gives P (some r) = P r

-- A record of a protocol whose parameters are normalised.
pub record IsOf (protocol : Protocol) (line : Text) (r : ProxyRecord) : Type 0 where
  pub own_protocol : r.protocol ≡ protocol
  pub own_line : r.original_line ≡ line
  pub normal : IsNormal r.query_params

-- What holds of the parameters, if they were accepted.
abbrev pub Accepts : Option (Dict Text Text) → Type 0
Accepts none = Unit
Accepts (some params) = IsNormal params

pub with_extra-Accepts :
    (params : Dict Text Text) (extra : Option Text)
    → IsNormal params
    → Accepts (with_extra params extra)
unfolding text_eq
with_extra-Accepts params none n = tt
with_extra-Accepts params (some extra) n = insert-IsNormal (text "extra") extra params refl n

pub normalize_xhttp-Accepts :
    (normalize_extra : Text → Option Text) (params : Dict Text Text)
    → IsNormal params
    → Accepts (normalize_xhttp normalize_extra params)
unfolding normalize_xhttp
normalize_xhttp-Accepts normalize_extra params n =
    let type = get_param (text "type") params in
    let typed = insert (text "type") (text "xhttp") params in
    let m : IsNormal typed =
      insert-IsNormal (text "type") (text "xhttp") params (unfold text_eq in refl) n in
    elim (Bool-cases (not (text_eq type (text "xhttp")) && not (text_eq type (text "splithttp")))) [
      | inl e ↦ rw e n
      | inr e ↦ elim (Bool-cases (is_empty (get_param (text "extra") typed))) [
        | inl e' ↦ rw (e, e') m
        | inr e' ↦
            rw (e, e')
              (with_extra-Accepts typed (normalize_extra (get_param (text "extra") typed)) m)
      ]
    ]

pub with_params-Gives :
    (protocol : Protocol) (line host secret fragment : Text) (port : ℤ)
    (params : Option (Dict Text Text))
    → Accepts params
    → Gives
        (IsOf protocol line)
        (with_params params (λ p. make_record protocol host port secret p fragment line))
with_params-Gives protocol line host secret fragment port none n = tt
with_params-Gives protocol line host secret fragment port (some p) n = record {
  own_protocol = refl;
  own_line = refl;
  normal = n;
}

module _ (lib : Library) where
  url_params-Accepts : (u : Url) → Accepts (url_params lib u)
  url_params-Accepts u =
      normalize_xhttp-Accepts lib.normalize_extra (normalize_insecure (first_values u.query))
        (normalize_insecure-IsNormal (first_values u.query))

  vless_of-IsOf : (line : Text) (u : Option Url) → Gives (IsOf vless line) (vless_of lib line u)
  unfolding vless_of
  vless_of-IsOf line none = tt
  vless_of-IsOf line (some u) =
      with_params-Gives vless line u.hostname (username_of u.user) u.fragment (port_of lib u.port)
        (url_params lib u) (url_params-Accepts u)

  pub parse_vless-IsOf : (line : Text) → Gives (IsOf vless line) (parse_vless lib line)
  unfolding parse_vless
  parse_vless-IsOf line = vless_of-IsOf line _

  trojan_of-IsOf :
      (line : Text) (u : Url) (user : Option User)
      → Gives (IsOf trojan line) (trojan_of lib line u user)
  unfolding trojan_of
  trojan_of-IsOf line u none = tt
  trojan_of-IsOf line u (some user) =
      with_params-Gives trojan line u.hostname (credentials user) u.fragment (port_of lib u.port)
        (url_params lib u) (url_params-Accepts u)

  pub parse_trojan-IsOf : (line : Text) → Gives (IsOf trojan line) (parse_trojan lib line)
  unfolding parse_trojan
  parse_trojan-IsOf line =
      elim (lib.parse_url line)
        as (λ o.
          Gives (IsOf trojan line)
            (elim o [ none ↦ none | some u ↦ trojan_of lib line u u.user ])) [
              | none ↦ tt
              | some u ↦ trojan_of-IsOf line u u.user
            ]

  default_security-IsNormal :
      (params : Dict Text Text) → IsNormal params → IsNormal (default_security params)
  unfolding default_security
  default_security-IsNormal params n =
      elim (Bool-cases (is_empty (get_param (text "security") params))) [
        | inl e ↦
            rw e (insert-IsNormal (text "security") (text "tls") params (unfold text_eq in refl) n)
        | inr e ↦ rw e n
      ]

  hysteria2_of-IsOf :
      (line : Text) (u : Url) (user : Option User)
      → Gives (IsOf hysteria2 line) (hysteria2_of lib line u user)
  unfolding hysteria2_of
  hysteria2_of-IsOf line u none = tt
  hysteria2_of-IsOf line u (some user) =
      let params = normalize_insecure (first_values u.query) in
      record {
        own_protocol = refl;
        own_line = refl;
        normal =
            default_security-IsNormal params (normalize_insecure-IsNormal (first_values u.query));
      }

  pub parse_hysteria2-IsOf : (line : Text) → Gives (IsOf hysteria2 line) (parse_hysteria2 lib line)
  unfolding parse_hysteria2
  parse_hysteria2-IsOf line =
      elim (lib.parse_url line)
        as (λ o.
          Gives (IsOf hysteria2 line)
            (elim o [ none ↦ none | some u ↦ hysteria2_of lib line u u.user ])) [
              | none ↦ tt
              | some u ↦ hysteria2_of-IsOf line u u.user
            ]
