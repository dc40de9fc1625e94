-- ===== src/Country/Filter.antt =====
-- internal/country/country.go, `Filter`: whether a route is served when countries are excluded.
pub mod Closed
use vless_sub_server.Base.{
  ℕ, suc, Bool, true, false, ◌&&◌, ◌||◌, not, List, [], ◌∷◌, ◌==◌, if◌then◌else◌,
}
use vless_sub_server.Base.Text.{Text, is_empty}
use vless_sub_server.Base.Dict.{has, Text-eq}
use vless_sub_server.Country.Codes.{Codes}
use vless_sub_server.Country.Evidence.{
  FamilyResult, RouteCountries, Status, unset, unknown, confirmed, conflict,
}

pub record Decision : Type 0 where
  pub included : Bool
  pub filtered : Bool
  pub unknown : ℕ
  pub conflict : ℕ

-- The `switch family.Status`.
count_status : FamilyResult → Status → Decision → Decision
count_status f confirmed d = if is_empty f.country then record d { unknown = 1 } else d
count_status f conflict d = record d { conflict = 1 }
count_status f _ d = record d { unknown = 1 }

-- The three lookups in `excluded`.
unfoldable pub is_excluded : Codes → FamilyResult → Bool
is_excluded excluded f =
    has f.country excluded || (has f.observed_country excluded || has f.candidate_country excluded)

-- One round of the loop; the number is `available`.
judge : Codes → FamilyResult → ℕ × Decision → ℕ × Decision
unfolding count_status is_excluded
judge excluded f (available, d) = if not f.available then (available, d) else (
  suc available,
  count_status f f.status (record d { filtered = d.filtered || is_excluded excluded f }),
)

judge_all : Codes → List FamilyResult → ℕ × Decision → ℕ × Decision
unfolding judge
judge_all excluded [] s = s
judge_all excluded (f ∷ fs) s = judge_all excluded fs (judge excluded f s)

-- What follows the loop.
conclude : ℕ × Decision → Decision
conclude (available, d) =
    let d' = record d { unknown = if available == 0 then 1 else d.unknown } in
    record d' { included = not d'.filtered && (d'.unknown == 0 && d'.conflict == 0) }

unfoldable pub families : RouteCountries → Bool → List FamilyResult
families r warp = if warp then r.warp_v4 ∷ r.warp_v6 ∷ [] else r.direct_v4 ∷ r.direct_v6 ∷ []

abbrev pub undecided : Decision
undecided = record { included = false; filtered = false; unknown = 0; conflict = 0 }

unfoldable pub filter : RouteCountries → Bool → Codes → Decision
unfolding judge_all conclude families
filter r warp [] = record undecided { included = true }
filter r warp (code ∷ codes) = conclude (judge_all (code ∷ codes) (families r warp) (0, undecided))
