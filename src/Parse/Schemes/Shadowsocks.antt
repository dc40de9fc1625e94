-- ===== src/Parse/Schemes/Shadowsocks.antt =====
-- internal/parse/parse.go: the parser of the links of Shadowsocks.
pub mod Laws
use vless_sub_server.Base.{
  ℕ, zero, suc, ◌≡◌, ◌%◌, Bool, true, false, ◌&&◌, ◌||◌, not, List, [], ◌∷◌, ◌++◌, drop, Option,
  none, some, ◌==◌, if◌then◌else◌,
}
use vless_sub_server.Base.Int.{ℤ, pos, negsuc}
use vless_sub_server.Base.Text.{Text, text, is_empty, split}
use vless_sub_server.Base.Dict.{Dict, insert, Text-eq}
use vless_sub_server.Parse.Query.{byte_length}
use vless_sub_server.Parse.Record.{ss, ProxyRecord}
use vless_sub_server.Parse.Schemes.{Library, Atoi, make_record}

-- The parts around the first separator (`strings.Index`), and around the last (`strings.LastIndex`).
unfoldable pub cut_first : ℕ → Text → Option (Text × Text)
cut_first sep [] = none
cut_first sep (c ∷ s) =
    let rest = cut_first sep s in
    if c == sep then some ([], s) else elim rest [ none ↦ none | some (a, b) ↦ some (c ∷ a, b) ]

unfoldable pub cut_last : ℕ → Text → Option (Text × Text)
cut_last sep [] = none
cut_last sep (c ∷ s) = elim (cut_last sep s) [
  | none ↦ if c == sep then some ([], s) else none
  | some (a, b) ↦ some (c ∷ a, b)
]

-- `for len(s)%4 != 0 { s += "=" }`; three rounds are enough.
unfoldable pub pad_rounds : ℕ → Text → Text
unfolding byte_length
pad_rounds zero s = s
pad_rounds (suc rounds) s =
    let rest = pad_rounds rounds (s ++ b'=' ∷ []) in
    if not (byte_length s % 4 == 0) then rest else s

unfoldable pub pad : Text → Text
unfolding pad_rounds
pad s = pad_rounds 3 s

-- The first value that there is.
abbrev pub first_of : Option Text → Option Text → Option Text
first_of none other = other
first_of (some s) other = some s

unfoldable pub base64decode : Library → Text → Option Text
unfolding pad
base64decode lib s =
    first_of (lib.raw_url_base64 s)
      (first_of (lib.url_base64 (pad s)) (first_of (lib.std_base64 s) (lib.std_base64 (pad s))))

unfoldable pub split_host_port : Library → Text → Text × ℤ
split_host_port lib host_port = elim (lib.split_host_port host_port) [
  | none ↦ ([], pos 0)
  | some (host, port) ↦ (host, if (lib.atoi port).is_ok then (lib.atoi port).value else pos 0)
]

-- `strings.TrimSuffix(s, "/")`
unfoldable pub trim_slash : Text → Text
trim_slash [] = []
trim_slash (c ∷ s) = if (c == b'/') && is_empty s then [] else c ∷ trim_slash s

-- The loop over the pairs of the query: `key=value`, or a key alone.
unfoldable pub ss_pairs : Dict Text Text → List Text → Dict Text Text
unfolding cut_first
ss_pairs params [] = params
ss_pairs params (pair ∷ pairs) = elim (cut_first b'=' pair) [
  | none ↦ ss_pairs (insert pair [] params) pairs
  | some (key, value) ↦ ss_pairs (insert key value params) pairs
]

abbrev pub is_zero_port : ℤ → Bool
is_zero_port (pos n) = n == 0
is_zero_port (negsuc n) = false

-- The end of both forms: a method and a password, and a host with its port.
unfoldable pub ss_record :
    Library → Text → Text → Dict Text Text → Text × Text → Text → Option ProxyRecord
unfolding split_host_port
ss_record lib line fragment params (method, password) host_port =
    let (host, port) = split_host_port lib host_port in
    if is_empty host || is_zero_port port
    then none
    else some
        (make_record ss host port password (insert (text "method") method params) fragment line)

abbrev pub then_text : {A : Type 0} → Option Text → (Text → Option A) → Option A
then_text none next = none
then_text (some s) next = next s

abbrev pub then_parts : {A : Type 0} → Option (Text × Text) → (Text × Text → Option A) → Option A
then_parts none next = none
then_parts (some parts) next = next parts

-- The method and the password of a SIP002 link, which may be encoded.
unfoldable pub ss_method : Library → Text → Option (Text × Text)
unfolding base64decode cut_first
ss_method lib s = elim (cut_first b':' s) [
  | some parts ↦ some parts
  | none ↦ then_text (base64decode lib s) (λ decoded. cut_first b':' decoded)
]

-- `main` and the parameters, without the fragment and the query.
unfoldable pub ss_main : Library → Text → Text → Dict Text Text → Text → Option ProxyRecord
unfolding ss_record ss_method base64decode cut_first cut_last
ss_main lib line fragment params main = elim (cut_last b'@' main) [
  | some (method_password, host_port) ↦
      then_parts (ss_method lib method_password)
        (λ m. ss_record lib line fragment params m host_port)
  | none ↦ then_text (base64decode lib main) (λ decoded.
      then_parts (cut_last b'@' decoded) (λ parts.
        then_parts (cut_first b':' parts.0) (λ m. ss_record lib line fragment params m parts.1)))
]

unfoldable pub ss_query : Library → Text → Text → Text → Option ProxyRecord
unfolding ss_pairs cut_first trim_slash ss_main
ss_query lib line fragment main = elim (cut_first b'?' main) [
  | some (host_port, query) ↦
      ss_main lib line fragment (ss_pairs [] (split b'&' query)) (trim_slash host_port)
  | none ↦ ss_main lib line fragment [] (trim_slash main)
]

unfoldable pub parse_ss : Library → Text → Option ProxyRecord
unfolding cut_first ss_query
parse_ss lib line = elim (cut_first b'#' (drop 5 line)) [
  | some (main, fragment) ↦ ss_query lib line fragment main
  | none ↦ ss_query lib line [] (drop 5 line)
]
