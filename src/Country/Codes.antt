-- ===== src/Country/Codes.antt =====
-- internal/country/country.go: ISO 3166-1 codes, and the parsing of the `exclude` parameter.
pub mod Laws
use vless_sub_server.Base.{ℕ, Bool, true, false, ◌&&◌, not, List, [], ◌∷◌, ◌++◌, if◌then◌else◌}
use vless_sub_server.Base.Text.{
  Text, text, is_empty, is_space, split, split_first, trim_space, to_upper, text_eq,
}
use vless_sub_server.Base.Dict.{has, Text-eq}
use vless_sub_server.Base.Result.{Result, ok, err, ◌>>=◌}

-- `strings.Fields`: the words between white space.
fields_from : Text → Text → List Text
fields_from word [] = if is_empty word then [] else word ∷ []
fields_from word (c ∷ s) =
    let closed = fields_from [] s in
    let longer = fields_from (word ++ c ∷ []) s in
    if not (is_space c) then longer else if is_empty word then closed else word ∷ closed

unfoldable pub fields : Text → List Text
unfolding fields_from is_space
fields s = fields_from [] s

-- The constant `codes`.
codes : Text
codes =
    text "AD AE AF AG AI AL AM AO AQ AR AS AT AU AW AX AZ BA BB BD BE BF BG BH BI BJ BL BM "
    ++ text "BN BO BQ BR BS BT BV BW BY BZ CA CC CD CF CG CH CI CK CL CM CN CO CR CU CV CW CX "
    ++ text "CY CZ DE DJ DK DM DO DZ EC EE EG EH ER ES ET FI FJ FK FM FO FR GA GB GD GE GF GG "
    ++ text "GH GI GL GM GN GP GQ GR GS GT GU GW GY HK HM HN HR HT HU ID IE IL IM IN IO IQ IR "
    ++ text "IS IT JE JM JO JP KE KG KH KI KM KN KP KR KW KY KZ LA LB LC LI LK LR LS LT LU LV "
    ++ text "LY MA MC MD ME MF MG MH MK ML MM MN MO MP MQ MR MS MT MU MV MW MX MY MZ NA NC NE "
    ++ text "NF NG NI NL NO NP NR NU NZ OM PA PE PF PG PH PK PL PM PN PR PS PT PW PY QA RE RO "
    ++ text "RS RU RW SA SB SC SD SE SG SH SI SJ SK SL SM SN SO SR SS ST SV SX SY SZ TC TD TF "
    ++ text "TG TH TJ TK TL TM TN TO TR TT TV TW TZ UA UG UM US UY UZ VA VC VE VG VI VN VU WF "
    ++ text "WS YE YT ZA ZM ZW "

unfoldable pub iso_alpha2 : List Text
unfolding fields codes
iso_alpha2 = fields codes

unfoldable pub is_code : Text → Bool
unfolding iso_alpha2 to_upper trim_space text_eq
is_code code = has (to_upper (trim_space code)) iso_alpha2

-- The set of codes: its members in the order of their first occurrence.
abbrev pub Codes : Type 0
Codes = List Text

-- `result[code] = struct{}{}`
unfoldable pub add_code : Text → Codes → Codes
add_code code set = if has code set then set else set ++ code ∷ []

-- One part of a value; the error is the part that is no code.
unfoldable pub parse_part : Codes → Text → Result Text Codes
unfolding add_code
parse_part set part =
    let code = to_upper (trim_space part) in
    if is_empty code
    then ok set
    else if not (is_code code)
    then err part
    else ok (add_code code set)

unfoldable pub parse_parts : Codes → List Text → Result Text Codes
unfolding parse_part
parse_parts set [] = ok set
parse_parts set (part ∷ parts) = parse_part set part >>= λ set'. parse_parts set' parts

unfoldable pub parse_values : Codes → List Text → Result Text Codes
unfolding parse_parts
parse_values set [] = ok set
parse_values set (value ∷ values) =
    parse_parts set (split b',' value) >>= λ set'. parse_values set' values

unfoldable pub parse_codes : List Text → Result Text Codes
unfolding parse_values
parse_codes values = parse_values [] values
