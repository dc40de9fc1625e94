-- ===== src/Country/Filter/Closed.antt =====
-- internal/country/country.go, `Filter`: it lets a route through only on clear evidence.
use vless_sub_server.Base.{
  ℕ, suc, ◌<◌, ◌≡◌, refl, ◌≢◌, ◌↔◌, ◌⊎◌, Bool, true, false, [], ◌∷◌, arith, if◌then◌else◌,
}
use mathlib.Core.Bool.{false≢true}
use vless_sub_server.Base.Text.{is_empty, to_upper}
use vless_sub_server.Base.Clock.{Time}
use vless_sub_server.Base.Dict.{has, Text-eq}
use vless_sub_server.Country.Codes.{Codes}
use vless_sub_server.Country.Evidence.{
  FamilyResult, RouteCountries, confirmed, Observation, valid, observe, apply, family_needs_reprobe,
  needs_warp_reprobe,
}
use vless_sub_server.Country.Filter.{Decision, filter, judge, undecided, conclude}

-- Evidence that allows a family: its country is confirmed, and neither that country nor one that
-- was seen otherwise is excluded.
pub record IsClear (excluded : Codes) (f : FamilyResult) : Type 0 where
  pub sure : f.status ≡ confirmed
  pub named : is_empty f.country ≡ false
  pub allowed : has f.country excluded ≡ false
  pub observed : has f.observed_country excluded ≡ false
  pub candidate : has f.candidate_country excluded ≡ false

-- The two families of a route.
abbrev pub main_family : RouteCountries → Bool → FamilyResult
main_family r warp = if warp then r.warp_v4 else r.direct_v4

abbrev pub other_family : RouteCountries → Bool → FamilyResult
other_family r warp = if warp then r.warp_v6 else r.direct_v6

abbrev Clear : Codes → FamilyResult → Type 0
Clear excluded f = f.available ≡ true → IsClear excluded f

-- Nothing speaks against the route so far.
abbrev Spotless : Decision → Type 0
Spotless d = (d.filtered ≡ false) × (d.unknown ≡ 0) × (d.conflict ≡ 0)

judge-Spotless_iff :
    (excluded : Codes) (f : FamilyResult) (n : ℕ) (d : Decision)
    → Spotless (judge excluded f (n, d)).1 ↔ (Spotless d × Clear excluded f)
unfolding judge
judge-Spotless_iff excluded f n d = ground arith

judge_count :
    (excluded : Codes) (f : FamilyResult) (n : ℕ) (d : Decision)
    → (judge excluded f (n, d)).0 ≡ (if f.available then suc n else n)
unfolding judge
judge_count excluded f n d = ground arith

conclude-included_iff :
    (n : ℕ) (d : Decision) → ((conclude (n, d)).included ≡ true) ↔ ((0 < n) × Spotless d)
unfolding conclude
conclude-included_iff n d = ground arith

pair_included_iff :
    (excluded : Codes) (f g : FamilyResult)
    → ((conclude (judge excluded g (judge excluded f (0, undecided)))).included ≡ true)
      ↔ (((f.available ≡ true) ⊎ (g.available ≡ true)) × Clear excluded f × Clear excluded g)
pair_included_iff excluded f g =
    let s = judge excluded f (0, undecided) in
    let u = judge excluded g s in
    ground (
      arith,
      conclude-included_iff u.0 u.1,
      judge-Spotless_iff excluded g s.0 s.1,
      judge-Spotless_iff excluded f 0 undecided,
      judge_count excluded g s.0 s.1,
      judge_count excluded f 0 undecided,
    )

-- With exclusions a route is served exactly when some family of the chosen exit is available and
-- every available one has clear evidence.
pub filter-included_iff :
    (r : RouteCountries) (warp : Bool) (excluded : Codes)
    → excluded ≢ []
    → ((filter r warp excluded).included ≡ true) ↔ (
        (((main_family r warp).available ≡ true) ⊎ ((other_family r warp).available ≡ true))
        × ((main_family r warp).available ≡ true → IsClear excluded (main_family r warp))
        × ((other_family r warp).available ≡ true → IsClear excluded (other_family r warp)))
unfolding filter
filter-included_iff r warp [] h = absurd (h refl)
filter-included_iff r true (c ∷ cs) h = pair_included_iff (c ∷ cs) r.warp_v4 r.warp_v6
filter-included_iff r false (c ∷ cs) h = pair_included_iff (c ∷ cs) r.direct_v4 r.direct_v6

judge-filtered :
    (excluded : Codes) (f : FamilyResult) (n : ℕ) (d : Decision)
    → ((d.filtered ≡ true) ⊎ ((f.available ≡ true) × (has f.observed_country excluded ≡ true)))
    → (judge excluded f (n, d)).1.filtered ≡ true
unfolding judge
judge-filtered excluded f n d h = ground arith

conclude-filtered :
    (n : ℕ) (d : Decision)
    → d.filtered ≡ true
    → ((conclude (n, d)).filtered ≡ true) × ((conclude (n, d)).included ≡ false)
unfolding conclude
conclude-filtered n d h = ground arith

-- An exit that was just seen in an excluded country.
abbrev Sighted : Codes → FamilyResult → Type 0
Sighted excluded f = (f.available ≡ true) × (has f.observed_country excluded ≡ true)

pair_filtered :
    (excluded : Codes) (f g : FamilyResult)
    → Sighted excluded f ⊎ Sighted excluded g
    → let d = conclude (judge excluded g (judge excluded f (0, undecided))) in
      (d.filtered ≡ true) × (d.included ≡ false)
pair_filtered excluded f g h =
    let s = judge excluded f (0, undecided) in
    let u = judge excluded g s in
    ground (
      arith,
      conclude-filtered u.0 u.1,
      judge-filtered excluded g s.0 s.1,
      judge-filtered excluded f 0 undecided,
    )

observe-Sighted :
    (excluded : Codes) (f : FamilyResult) (o : Observation) (now : Time)
    → valid o ≡ true
    → has (to_upper o.country) excluded ≡ true
    → Sighted excluded (observe f o now)
unfolding observe
observe-Sighted excluded f o now v h = ground arith

pair_of_apply :
    (r : RouteCountries) (warp : Bool) (excluded : Codes) (o : Observation) (now : Time)
    → valid o ≡ true
    → has (to_upper o.country) excluded ≡ true
    → Sighted excluded (main_family (apply r warp o now) warp)
      ⊎ Sighted excluded (other_family (apply r warp o now) warp)
unfolding apply
pair_of_apply r true excluded o now v h =
    ground
      (arith, observe-Sighted excluded r.warp_v4 o now, observe-Sighted excluded r.warp_v6 o now)
pair_of_apply r false excluded o now v h =
    ground (
      arith,
      observe-Sighted excluded r.direct_v4 o now,
      observe-Sighted excluded r.direct_v6 o now,
    )

-- As soon as the chosen exit has been observed once in an excluded country the route is filtered,
-- whatever its history.
pub filter-apply_excluded :
    (r : RouteCountries) (warp : Bool) (excluded : Codes) (o : Observation) (now : Time)
    → valid o ≡ true
    → has (to_upper o.country) excluded ≡ true
    → let d = filter (apply r warp o now) warp excluded in
      (d.filtered ≡ true) × (d.included ≡ false)
unfolding filter
filter-apply_excluded r warp [] o now v h = absurd (false≢true h)
filter-apply_excluded r true (c ∷ cs) o now v h =
    pair_filtered (c ∷ cs) (apply r true o now).warp_v4 (apply r true o now).warp_v6
      (pair_of_apply r true (c ∷ cs) o now v h)
filter-apply_excluded r false (c ∷ cs) o now v h =
    pair_filtered (c ∷ cs) (apply r false o now).direct_v4 (apply r false o now).direct_v6
      (pair_of_apply r false (c ∷ cs) o now v h)

judge_settled :
    (excluded : Codes) (f g : FamilyResult)
    → family_needs_reprobe f g ≡ false
    → let d = conclude (judge excluded g (judge excluded f (0, undecided))) in
      (d.unknown ≡ 0) × (d.conflict ≡ 0) × ((d.included ≡ false) ↔ (d.filtered ≡ true))
unfolding family_needs_reprobe judge conclude
judge_settled excluded f g h = ground arith

-- A route whose WARP evidence asks for no further probe is never held back as unknown or in
-- conflict: only an excluded country can filter it.
filter-settled :
    (r : RouteCountries) (excluded : Codes)
    → needs_warp_reprobe r ≡ false
    → let d = filter r true excluded in
      (d.unknown ≡ 0) × (d.conflict ≡ 0) × ((d.included ≡ false) ↔ (d.filtered ≡ true))
unfolding filter needs_warp_reprobe
filter-settled r [] h = (refl, refl, ground arith)
filter-settled r (c ∷ cs) h = judge_settled (c ∷ cs) r.warp_v4 r.warp_v6 h
