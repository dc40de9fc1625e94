-- ===== src/Tests/Country.antt =====
-- Tests of the country evidence, of the filter by countries, and of the codes in a request.
use vless_sub_server.Base.{◌≡◌, ◌⊎◌, ◌↔◌, refl, true, false, [], ◌∷◌, All, arith}
use vless_sub_server.Base.Text.{Text, text, to_upper, trim_space, split, text_eq}
use vless_sub_server.Base.Dict.{has, Distinct, Text-eq}
use vless_sub_server.Base.Result.{ok}
use vless_sub_server.Country.Codes.{Codes, is_code, parse_codes}
use vless_sub_server.Country.Codes.Laws.{requested, parse_codes-ok_iff}
use vless_sub_server.Country.Evidence.{
  Observation, FamilyResult, valid, v4, observe, apply, confirmed, conflict,
}
use vless_sub_server.Country.Evidence.Stable.{
  IsWell, view, observe_all, hear_all, view-observe_all, observe_twice,
}
use vless_sub_server.Country.Filter.{filter}
use vless_sub_server.Country.Filter.Closed.{
  IsClear, main_family, other_family, filter-included_iff, filter-apply_excluded,
}
use vless_sub_server.Tests.Values.{in_finland, finnish, finnish_routes}

abbrev in_romania : Observation
in_romania = record { ip = v4 2; country = text "RO" }

-- Codes are trimmed and put into upper case, and each is kept once.
two_values :
    parse_codes (text "fi, ro" ∷ text "FI,by" ∷ []) ≡ ok (text "FI" ∷ text "RO" ∷ text "BY" ∷ [])
unfolding parse_codes is_code to_upper trim_space split text_eq
two_values = refl

valid_finland : valid in_finland ≡ true
unfolding valid is_code
valid_finland = refl

valid_romania : valid in_romania ≡ true
unfolding valid is_code
valid_romania = refl

finnish-IsWell : IsWell finnish
finnish-IsWell = record {
  known = ground arith;
  fresh = ground arith;
  seen = ground arith;
  agreed = ground arith;
  disputed = ground arith;
}

abbrev disputed : FamilyResult
disputed = record finnish {
  observed_country = text "RO";
  status = conflict;
  candidate_country = text "RO";
  candidate_count = 1;
}

disputed-IsWell : IsWell disputed
unfolding text_eq
disputed-IsWell = record {
  known = ground arith;
  fresh = ground arith;
  seen = ground arith;
  agreed = ground arith;
  disputed = λ h. (refl, refl, refl, refl);
}

view-observe_all_example :
    view (observe_all finnish ((in_romania, 2) ∷ (in_finland, 3) ∷ []))
    ≡ hear_all (view finnish) ((in_romania, 2) ∷ (in_finland, 3) ∷ [])
view-observe_all_example =
    view-observe_all finnish ((in_romania, 2) ∷ (in_finland, 3) ∷ []) finnish-IsWell

observe_twice_example :
    ((observe (observe finnish in_romania 2) in_romania 3).country ≡ to_upper (text "RO"))
    × ((observe (observe finnish in_romania 2) in_romania 3).status ≡ confirmed)
observe_twice_example =
    observe_twice finnish in_romania in_romania 2 3 finnish-IsWell valid_romania valid_romania refl

filter-included_iff_example : ((filter finnish_routes true (text "RO" ∷ [])).included ≡ true) ↔ (
    (((main_family finnish_routes true).available ≡ true)
      ⊎ ((other_family finnish_routes true).available ≡ true))
    × ((main_family finnish_routes true).available ≡ true
        → IsClear (text "RO" ∷ []) (main_family finnish_routes true))
    × ((other_family finnish_routes true).available ≡ true
        → IsClear (text "RO" ∷ []) (other_family finnish_routes true)))
filter-included_iff_example =
    filter-included_iff finnish_routes true (text "RO" ∷ []) (ground arith)

filter-apply_excluded_example :
    let d = filter (apply finnish_routes true in_romania 5) true (text "RO" ∷ []) in
    (d.filtered ≡ true) × (d.included ≡ false)
unfolding to_upper text_eq
filter-apply_excluded_example =
    filter-apply_excluded finnish_routes true (text "RO" ∷ []) in_romania 5 valid_romania refl

parse_codes-ok_iff_example :
    (((set : Codes) × (parse_codes (text "fi" ∷ []) ≡ ok set))
      ↔ All (λ code. is_code code ≡ true) (requested (text "fi" ∷ [])))
    × ((set : Codes)
        → parse_codes (text "fi" ∷ []) ≡ ok set
        → ((c : Text) → has c set ≡ has c (requested (text "fi" ∷ []))) × Distinct set)
parse_codes-ok_iff_example = parse_codes-ok_iff (text "fi" ∷ [])
