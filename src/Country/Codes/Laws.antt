-- ===== src/Country/Codes/Laws.antt =====
-- internal/country/country.go, `ParseCodes`: what it accepts, and the set that it returns.
use vless_sub_server.Base.{
  ◌≡◌, refl, ◌↔◌, ◌∙◌, sym, ap, subst, true, not, ◌||◌, List, [], ◌∷◌, ◌++◌, map, filter, All,
  arith, Bool-cases, inl, inr,
}
use vless_sub_server.Base.Text.{Text, is_empty, split, trim_space, to_upper}
use vless_sub_server.Base.Text.Laws.{text_eq_iff}
use vless_sub_server.Base.Dict.{has, has-append, Distinct, Distinct-snoc, Text-eq}
use vless_sub_server.Base.Result.{ok, ◌>>=◌, >>=-eq-ok, >>=_assoc, >>=_cong}
use vless_sub_server.Country.Codes.{
  Codes, is_code, add_code, parse_part, parse_parts, parse_values, parse_codes,
}

-- A part as it is looked up.
abbrev pub normal : Text → Text
normal part = to_upper (trim_space part)

abbrev pub normals : List Text → List Text
normals parts = filter (λ code. not (is_empty code)) (map normal parts)

-- The comma-separated parts of all values.
abbrev pub parts_of : List Text → List Text
parts_of [] = []
parts_of (value ∷ values) = split b',' value ++ parts_of values

-- The parts of all values as they are looked up, those left out that are blank.
abbrev pub requested : List Text → List Text
requested values = normals (parts_of values)

parse_parts-append :
    (set : Codes) (xs ys : List Text)
    → parse_parts set (xs ++ ys) ≡ (parse_parts set xs >>= λ set'. parse_parts set' ys)
unfolding parse_parts
parse_parts-append set [] ys = refl
parse_parts-append set (x ∷ xs) ys =
    >>=_cong (parse_part set x) _ _ (λ set'. parse_parts-append set' xs ys)
    ∙ sym (>>=_assoc (parse_part set x) (λ set'. parse_parts set' xs) (λ set'. parse_parts set' ys))

parse_values-parts :
    (set : Codes) (values : List Text) → parse_values set values ≡ parse_parts set (parts_of values)
unfolding parse_values parse_parts
parse_values-parts set [] = refl
parse_values-parts set (value ∷ values) =
    >>=_cong (parse_parts set (split b',' value)) _ _ (λ set'. parse_values-parts set' values)
    ∙ sym (parse_parts-append set (split b',' value) (parts_of values))

has-add_code :
    (c code : Text) (set : Codes) → has c (add_code code set) ≡ (has c set || has c (code ∷ []))
unfolding add_code
has-add_code c code set = ground (arith, has-append c set (code ∷ []), text_eq_iff code c)

Distinct-add_code : (code : Text) (set : Codes) → Distinct set → Distinct (add_code code set)
unfolding add_code
Distinct-add_code code set d = ground (arith, Distinct-snoc code set)

-- What a successful pass over the parts has done to the set.
record Collects (set : Codes) (parts : List Text) (set' : Codes) : Type 0 where
  known : All (λ code. is_code code ≡ true) (normals parts)
  members : (c : Text) → has c set' ≡ (has c set || has c (normals parts))
  distinct : Distinct set → Distinct set'

parse_part-Collects :
    (set : Codes) (part : Text) {set' : Codes}
    → parse_part set part ≡ ok set'
    → Collects set (part ∷ []) set'
unfolding parse_part
parse_part-Collects set part {set'} h = elim (Bool-cases (is_empty (normal part))) [
  | inl blank ↦
      let same : set ≡ set' = ground arith in
      record {
        known = ground arith;
        members = λ c. ground (arith, ap (has c) same);
        distinct = λ d. subst Distinct same d;
      }
  | inr filled ↦
      let valid : is_code (normal part) ≡ true = ground arith in
      let same : add_code (normal part) set ≡ set' = ground arith in
      record {
        known = ground arith;
        members = λ c. ground (arith, ap (has c) same, has-add_code c (normal part) set);
        distinct = λ d. subst Distinct same (Distinct-add_code (normal part) set d);
      }
]

known-cons :
    (part : Text) (parts : List Text)
    → All (λ code. is_code code ≡ true) (normals (part ∷ []))
    → All (λ code. is_code code ≡ true) (normals parts)
    → All (λ code. is_code code ≡ true) (normals (part ∷ parts))
known-cons part parts h k = ground arith

has-normals-cons :
    (c part : Text) (parts : List Text)
    → has c (normals (part ∷ parts)) ≡ (has c (normals (part ∷ [])) || has c (normals parts))
has-normals-cons c part parts = ground arith

parse_parts-Collects :
    (set : Codes) (parts : List Text) {set' : Codes}
    → parse_parts set parts ≡ ok set'
    → Collects set parts set'
unfolding parse_parts
parse_parts-Collects set [] {set'} h =
    let same : set ≡ set' = cc in
    record {
      known = tt;
      members = λ c. ground (arith, ap (has c) same);
      distinct = λ d. subst Distinct same d;
    }
parse_parts-Collects set (part ∷ parts) h =
    let (mid, first, rest) = >>=-eq-ok (parse_part set part) _ h in
    let a = parse_part-Collects set part first in
    let b = parse_parts-Collects mid parts rest in
    record {
      known = known-cons part parts a.known b.known;
      members = λ c. ground (arith, a.members c, b.members c, has-normals-cons c part parts);
      distinct = λ d. b.distinct (a.distinct d);
    }

parse_part-ok :
    (set : Codes) (part : Text)
    → All (λ code. is_code code ≡ true) (normals (part ∷ []))
    → (set' : Codes) × (parse_part set part ≡ ok set')
unfolding parse_part
parse_part-ok set part h = elim (Bool-cases (is_empty (normal part))) [
  | inl blank ↦ (set, rw blank)
  | inr other ↦ (add_code (normal part) set, ground arith)
]

parse_parts-ok :
    (set : Codes) (parts : List Text)
    → All (λ code. is_code code ≡ true) (normals parts)
    → (set' : Codes) × (parse_parts set parts ≡ ok set')
unfolding parse_parts
parse_parts-ok set [] h = (set, refl)
parse_parts-ok set (part ∷ parts) h =
    let (mid, first) = parse_part-ok set part (ground arith) in
    let (last, rest) = parse_parts-ok mid parts (ground arith) in (last, rw (first, ◌>>=◌) rest)

-- The values are accepted exactly when every part that is not blank is a code; then the result is
-- the set of those codes, upper-cased and trimmed, each once.
pub parse_codes-ok_iff :
    (values : List Text)
    → (((set : Codes) × (parse_codes values ≡ ok set))
        ↔ All (λ code. is_code code ≡ true) (requested values))
      × ((set : Codes)
          → parse_codes values ≡ ok set
          → ((c : Text) → has c set ≡ has c (requested values)) × Distinct set)
unfolding parse_codes
parse_codes-ok_iff values = rw (parse_values-parts [] values) (
  (
    (λ p. (parse_parts-Collects [] (parts_of values) p.1).known),
    parse_parts-ok [] (parts_of values),
  ),
  λ set h. let c = parse_parts-Collects [] (parts_of values) h in (c.members, c.distinct tt),
)
