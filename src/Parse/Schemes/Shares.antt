-- ===== src/Parse/Schemes/Shares.antt =====
-- internal/parse/parse.go: `ParseAllLines` with the parsers of the five schemes.
use vless_sub_server.Base.{◌≡◌, true, ◌||◌, List, [], ◌∷◌, Option, none, some, inl, inr, Bool-cases}
use vless_sub_server.Base.Text.{Text, text, is_empty, has_prefix, trim_space}
use vless_sub_server.Base.Dict.{has, Text-eq}
use vless_sub_server.Parse.Query.{dedup_key}
use vless_sub_server.Parse.Lines.{
  Parsers, parse_scheme, check_record, is_usable, line_record, parse_all_lines, has_scheme,
  proxy_schemes,
}
use vless_sub_server.Parse.Lines.Laws.{accepted, optional, firsts, parse_all_lines-firsts}
use vless_sub_server.Parse.Record.{vless, vmess, trojan, hysteria2, ProxyRecord}
use vless_sub_server.Parse.Schemes.{Library, parse_vless, parse_trojan, parse_hysteria2}
use vless_sub_server.Parse.Schemes.Laws.{
  Gives, IsOf, parse_vless-IsOf, parse_trojan-IsOf, parse_hysteria2-IsOf,
}
use vless_sub_server.Parse.Schemes.Shadowsocks.{parse_ss}
use vless_sub_server.Parse.Schemes.Shadowsocks.Laws.{IsSs, parse_ss-IsSs}
use vless_sub_server.Parse.Schemes.Vmess.{parse_vmess}
use vless_sub_server.Parse.Schemes.Vmess.Laws.{parse_vmess-IsOf}

abbrev pub share_parsers : Library → Parsers
share_parsers lib = record {
  vless = parse_vless lib;
  vmess = parse_vmess lib;
  trojan = parse_trojan lib;
  ss = parse_ss lib;
  hysteria2 = parse_hysteria2 lib;
}

-- A record of the line, by the scheme that the line begins with.
pub data IsShare (line : Text) (r : ProxyRecord) : Type 0 where
  of_vless : has_prefix line (text "vless://") ≡ true → IsOf vless line r → IsShare line r
  of_vmess : has_prefix line (text "vmess://") ≡ true → IsOf vmess line r → IsShare line r
  of_trojan : has_prefix line (text "trojan://") ≡ true → IsOf trojan line r → IsShare line r
  of_ss : has_prefix line (text "ss://") ≡ true → IsSs line r → IsShare line r
  of_hysteria2 :
      (has_prefix line (text "hysteria2://") || has_prefix line (text "hy2://")) ≡ true
      → IsOf hysteria2 line r
      → IsShare line r

map-Gives :
    {P Q : ProxyRecord → Type 0} (o : Option ProxyRecord)
    → ((r : ProxyRecord) → P r → Q r)
    → Gives P o
    → Gives Q o
map-Gives none f h = tt
map-Gives (some r) f h = f r h

pub parse_scheme-IsShare :
    (lib : Library) (line : Text) → Gives (IsShare line) (parse_scheme (share_parsers lib) line)
unfolding parse_scheme
parse_scheme-IsShare lib line = elim (Bool-cases (has_prefix line (text "vless://"))) [
  | inl e ↦ rw e (map-Gives (parse_vless lib line) (λ r. of_vless e) (parse_vless-IsOf lib line))
  | inr e1 ↦ elim (Bool-cases (has_prefix line (text "vmess://"))) [
    | inl e ↦
        rw (e1, e) (map-Gives (parse_vmess lib line) (λ r. of_vmess e) (parse_vmess-IsOf lib line))
    | inr e2 ↦ elim (Bool-cases (has_prefix line (text "trojan://"))) [
      | inl e ↦
          rw (e1, e2, e)
            (map-Gives (parse_trojan lib line) (λ r. of_trojan e) (parse_trojan-IsOf lib line))
      | inr e3 ↦ elim (Bool-cases (has_prefix line (text "ss://"))) [
        | inl e ↦
            rw (e1, e2, e3, e)
              (map-Gives (parse_ss lib line) (λ r. of_ss e) (parse_ss-IsSs lib line))
        | inr e4 ↦
            elim (Bool-cases
              (has_prefix line (text "hysteria2://") || has_prefix line (text "hy2://"))) [
                | inl e ↦
                    rw (e1, e2, e3, e4, e)
                      (map-Gives (parse_hysteria2 lib line) (λ r. of_hysteria2 e)
                        (parse_hysteria2-IsOf lib line))
                | inr e ↦ rw (e1, e2, e3, e4, e) tt
              ]
      ]
    ]
  ]
]

-- The records are read from the lines: each is that of a line of its own, trimmed, and they come in
-- the order of the lines.
pub data IsFaithful : List Text → List ProxyRecord → Type 0 where
  done : IsFaithful [] []
  pass :
      {line : Text} {lines : List Text} {rs : List ProxyRecord}
      → IsFaithful lines rs
      → IsFaithful (line ∷ lines) rs
  read :
      {line : Text} {lines : List Text} {r : ProxyRecord} {rs : List ProxyRecord}
      → IsShare (trim_space line) r
      → IsFaithful lines rs
      → IsFaithful (line ∷ lines) (r ∷ rs)

firsts-IsFaithful :
    {lines : List Text} {rs : List ProxyRecord} (seen : List Text)
    → IsFaithful lines rs
    → IsFaithful lines (firsts seen rs)
firsts-IsFaithful seen done = done
firsts-IsFaithful seen (pass h) = pass (firsts-IsFaithful seen h)
firsts-IsFaithful seen (read {r = r} s h) = elim (Bool-cases (has (dedup_key r) seen)) [
  | inl twice ↦ rw twice (pass (firsts-IsFaithful seen h))
  | inr new ↦ rw new (read s (firsts-IsFaithful (dedup_key r ∷ seen) h))
]

check_record-Gives :
    (P : ProxyRecord → Type 0) (o : Option ProxyRecord) → Gives P o → Gives P (check_record o)
unfolding check_record
check_record-Gives P none h = tt
check_record-Gives P (some r) h = elim (Bool-cases (is_usable r)) [
  | inl e ↦ rw e h
  | inr e ↦ rw e tt
]

line_record-IsShare :
    (lib : Library) (line : Text)
    → Gives (IsShare (trim_space line)) (line_record (share_parsers lib) line)
unfolding line_record
line_record-IsShare lib line =
    let trimmed = trim_space line in
    let parsed = parse_scheme (share_parsers lib) trimmed in
    elim (Bool-cases (is_empty trimmed || has_prefix trimmed (text "#"))) [
      | inl e ↦ rw e tt
      | inr e ↦ elim (Bool-cases (has_scheme trimmed proxy_schemes)) [
        | inl e' ↦
            rw (e, e')
              (check_record-Gives (IsShare trimmed) parsed (parse_scheme-IsShare lib trimmed))
        | inr e' ↦ rw (e, e') tt
      ]
    ]

optional-IsFaithful :
    (line : Text) (lines : List Text) (o : Option ProxyRecord) (rs : List ProxyRecord)
    → Gives (IsShare (trim_space line)) o
    → IsFaithful lines rs
    → IsFaithful (line ∷ lines) (optional o rs)
optional-IsFaithful line lines none rs h hs = pass hs
optional-IsFaithful line lines (some r) rs h hs = read h hs

accepted-IsFaithful :
    (lib : Library) (lines : List Text) → IsFaithful lines (accepted (share_parsers lib) lines)
accepted-IsFaithful lib [] = done
accepted-IsFaithful lib (line ∷ lines) =
    optional-IsFaithful line lines (line_record (share_parsers lib) line)
      (accepted (share_parsers lib) lines) (line_record-IsShare lib line)
      (accepted-IsFaithful lib lines)

-- The records that `ParseAllLines` returns are read from different lines, in the order of the lines.
-- Each keeps its line, trimmed, and is of the protocol of the line's scheme. A record of a URL or of
-- VMess has none of the aliases of the parameter `insecure`, which is 1 where it has a value; a
-- Shadowsocks record has a host, a port other than 0 and a method.
pub parse_all_lines-IsFaithful :
    (lib : Library) (lines : List Text)
    → IsFaithful lines (parse_all_lines (share_parsers lib) lines).records
parse_all_lines-IsFaithful lib lines =
    rw (parse_all_lines-firsts (share_parsers lib) lines)
      (firsts-IsFaithful [] (accepted-IsFaithful lib lines))
