-- ===== src/Parse/Query.antt =====
-- `strconv.Itoa` and `url.Values.Encode`, as internal/parse/parse.go calls them, and `DedupKey`.
use vless_sub_server.Base.{
  ℕ, zero, suc, ◌+◌, ◌/◌, ◌%◌, Bool, ◌&&◌, ◌||◌, List, [], ◌∷◌, ◌++◌, length, leb, ltb, ◌==◌,
  if◌then◌else◌,
}
use vless_sub_server.Base.Int.{ℤ, pos, negsuc}
use vless_sub_server.Base.Text.{Text, text_ltb}
use vless_sub_server.Base.Sort.{sort}
use vless_sub_server.Base.Dict.{Dict}
use vless_sub_server.Parse.Record.{ProxyRecord, protocol_text}

-- Decimal digits, at most `fuel` of them.
unfoldable pub decimal_from : ℕ → ℕ → Text → Text
decimal_from zero n out = out
decimal_from (suc fuel) n out =
    let more = decimal_from fuel (n / 10) ((48 + n % 10) ∷ out) in
    if ltb n 10 then (48 + n % 10) ∷ out else more

-- A 64-bit number has at most 20 decimal digits.
unfoldable pub decimal : ℕ → Text
unfolding decimal_from
decimal n = decimal_from 20 n []

unfoldable pub itoa : ℤ → Text
unfolding decimal
itoa (pos n) = decimal n
itoa (negsuc n) = b'-' ∷ decimal (suc n)

-- The UTF-8 bytes of a code point.
unfoldable pub utf8 : ℕ → List ℕ
utf8 c =
    if ltb c 0x80
    then c ∷ []
    else if ltb c 0x800
    then (0xc0 + c / 64) ∷ (0x80 + c % 64) ∷ []
    else if ltb c 0x10000
    then (0xe0 + c / 4096) ∷ (0x80 + c / 64 % 64) ∷ (0x80 + c % 64) ∷ []
    else (0xf0 + c / 262144) ∷ (0x80 + c / 4096 % 64) ∷ (0x80 + c / 64 % 64) ∷ (0x80 + c % 64) ∷ []

hex : ℕ → ℕ
hex d = if ltb d 10 then 48 + d else 55 + d

-- A byte that `url.QueryEscape` keeps.
is_unreserved : ℕ → Bool
is_unreserved b =
    (leb b'a' b && leb b b'z')
    || (leb b'A' b && leb b b'Z')
    || (leb b'0' b && leb b b'9')
    || b == b'-'
    || b == b'_'
    || b == b'.'
    || b == b'~'

escape_byte : ℕ → Text
unfolding hex is_unreserved
escape_byte b =
    if is_unreserved b
    then b ∷ []
    else if b == 32
    then b'+' ∷ []
    else b'%' ∷ hex (b / 16) ∷ hex (b % 16) ∷ []

escape_bytes : List ℕ → Text
unfolding escape_byte
escape_bytes [] = []
escape_bytes (b ∷ bs) = escape_byte b ++ escape_bytes bs

-- `url.QueryEscape`
unfoldable pub query_escape : Text → Text
unfolding escape_bytes utf8
query_escape [] = []
query_escape (c ∷ s) = escape_bytes (utf8 c) ++ query_escape s

join_pairs : List (Text × Text) → Text
unfolding query_escape
join_pairs [] = []
join_pairs ((k, v) ∷ []) = query_escape k ++ (b'=' ∷ query_escape v)
join_pairs ((k, v) ∷ p ∷ ps) =
    query_escape k ++ (b'=' ∷ (query_escape v ++ (b'&' ∷ join_pairs (p ∷ ps))))

-- `Encode` of values with one value to a key, the keys in order.
unfoldable pub encode : Dict Text Text → Text
unfolding join_pairs text_ltb
encode params = join_pairs (sort (λ a b. text_ltb a.0 b.0) params)

-- `DedupKey`
unfoldable pub dedup_key : ProxyRecord → Text
unfolding itoa encode
dedup_key r =
    r.host
    ++ (b':'
        ∷ (itoa r.port
            ++ (b':'
                ∷ (protocol_text r.protocol
                    ++ (b':' ∷ (r.uuid_or_password ++ (b':' ∷ encode r.query_params)))))))

-- `len(s)`: the number of its bytes.
unfoldable pub byte_length : Text → ℕ
unfolding utf8
byte_length [] = 0
byte_length (c ∷ s) = length (utf8 c) + byte_length s
