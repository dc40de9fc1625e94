-- ===== src/Base/Text.antt =====
-- Go's strings: a text is the list of its code points. The operations are those of package
-- `strings` that the program calls; the bytes of a UTF-8 text and its code points are ordered,
-- compared and cut at ASCII separators alike. A text is taken to be valid UTF-8.
pub mod Laws
use Prim.Native.Char.{code}
use Prim.Native.String.{String}
use vless_sub_server.Base.{
  ℕ, zero, suc, ◌+◌, ◌-◌, ◌≡◌, refl, ◌↔◌, Bool, true, false, ◌&&◌, ◌||◌, not, List, [], ◌∷◌, ◌++◌,
  map, Option, none, some, arith, leb, ltb, ◌==◌, if◌then◌else◌,
}

abbrev pub Text : Type 0
Text = List ℕ

-- A literal of the source.
abbrev pub text : String → Text
text String.[] = []
text (String.◌∷◌ c s) = code c ∷ text s

unfoldable pub text_eq : Text → Text → Bool
text_eq [] [] = true
text_eq (a ∷ s) (b ∷ t) = (a == b) && text_eq s t
text_eq _ _ = false

-- `s < t`
unfoldable pub text_ltb : Text → Text → Bool
text_ltb [] [] = false
text_ltb [] (b ∷ t) = true
text_ltb (a ∷ s) [] = false
text_ltb (a ∷ s) (b ∷ t) = ltb a b || ((a == b) && text_ltb s t)

-- `s == ""`
abbrev pub is_empty : Text → Bool
is_empty [] = true
is_empty (c ∷ s) = false

-- `unicode.IsSpace`
unfoldable pub is_space : ℕ → Bool
is_space c =
    (leb 9 c && leb c 13)
    || c == 32
    || c == 0x85
    || c == 0xa0
    || c == 0x1680
    || (leb 0x2000 c && leb c 0x200a)
    || c == 0x2028
    || c == 0x2029
    || c == 0x202f
    || c == 0x205f
    || c == 0x3000

unfoldable pub trim_left : Text → Text
unfolding is_space
trim_left [] = []
trim_left (c ∷ s) = if is_space c then trim_left s else c ∷ s

unfoldable pub trim_right : Text → Text
unfolding is_space
trim_right [] = []
trim_right (c ∷ s) = let rest = trim_right s in if is_space c && is_empty rest then [] else c ∷ rest

-- `strings.TrimSpace`
unfoldable pub trim_space : Text → Text
unfolding trim_left trim_right
trim_space s = trim_right (trim_left s)

-- `unicode.ToUpper` on ASCII, and on the two other code points that it maps into ASCII (dotless i
-- and long s). It maps every other code point outside ASCII to one outside ASCII, which this
-- function leaves as it is.
unfoldable pub upper_code : ℕ → ℕ
upper_code c =
    if leb b'a' c && leb c b'z'
    then c - 32
    else if c == 0x131
    then b'I'
    else if c == 0x17f
    then b'S'
    else c

unfoldable pub to_upper : Text → Text
unfolding upper_code
to_upper s = map upper_code s

-- `unicode.ToLower` in the same way: a dotted capital I and the Kelvin sign fall into ASCII.
unfoldable pub lower_code : ℕ → ℕ
lower_code c =
    if leb b'A' c && leb c b'Z'
    then c + 32
    else if c == 0x130
    then b'i'
    else if c == 0x212a
    then b'k'
    else c

unfoldable pub to_lower : Text → Text
unfolding lower_code
to_lower s = map lower_code s

unfoldable pub has_prefix : Text → Text → Bool
has_prefix s [] = true
has_prefix [] (p ∷ ps) = false
has_prefix (c ∷ s) (p ∷ ps) = (c == p) && has_prefix s ps

-- `strings.Contains`
unfoldable pub contains : Text → Text → Bool
unfolding has_prefix
contains [] sub = has_prefix [] sub
contains (c ∷ s) sub = has_prefix (c ∷ s) sub || contains s sub

-- The parts of `strings.Split(s, sep)` for a separator of one character: the first, and the rest.
unfoldable pub split_first : ℕ → Text → Text × List Text
split_first sep [] = ([], [])
split_first sep (c ∷ s) =
    let (part, parts) = split_first sep s in
    if c == sep then ([], part ∷ parts) else (c ∷ part, parts)

unfoldable pub split : ℕ → Text → List Text
unfolding split_first
split sep s = let (part, parts) = split_first sep s in part ∷ parts
