-- ===== src/Quality/Identity.antt =====
-- internal/quality/runtime.go, `Identity`: the key under which the state of a proxy is kept. SHA-256
-- and the reading of IP addresses are functions of Go's library that stand as parameters.
use vless_sub_server.Base.{
  ◌||◌, List, [], ◌∷◌, ◌++◌, map, reverse, Option, none, some, if◌then◌else◌, ◌==◌,
}
use vless_sub_server.Base.Text.{Text, text_ltb, to_lower}
use vless_sub_server.Base.Sort.{sort}
use vless_sub_server.Parse.Query.{itoa}
use vless_sub_server.Parse.Record.{ProxyRecord, protocol_text}

pub record Library : Type 0 where
  -- The hexadecimal SHA-256 of the bytes of a text.
  pub sha256_hex : Text → Text
  -- `net.ParseIP`, and the canonical form by `String`.
  pub canonical_ip : Text → Option Text

trim_left_brackets : Text → Text
trim_left_brackets [] = []
trim_left_brackets (c ∷ s) = if c == b'[' || c == b']' then trim_left_brackets s else c ∷ s

-- `strings.Trim(s, "[]")`
unfoldable pub trim_brackets : Text → Text
unfolding trim_left_brackets
trim_brackets s = reverse (trim_left_brackets (reverse (trim_left_brackets s)))

canonical : Library → Text → Text
canonical lib host = elim (lib.canonical_ip host) [ none ↦ host | some ip ↦ ip ]

-- `strings.Join(parts, "\x00")`
join_nul : List Text → Text
join_nul [] = []
join_nul (part ∷ []) = part
join_nul (part ∷ part' ∷ parts) = part ++ (0 ∷ join_nul (part' ∷ parts))

unfoldable pub identity : Library → ProxyRecord → Text
unfolding canonical join_nul trim_brackets to_lower
identity lib r =
    let params = sort (λ a b. text_ltb a.0 b.0) r.query_params in
    lib.sha256_hex (
      join_nul (
        protocol_text r.protocol
        ∷ canonical lib (trim_brackets (to_lower r.host))
        ∷ itoa r.port
        ∷ r.uuid_or_password
        ∷ map (λ e. e.0 ++ (b'=' ∷ e.1)) params))
