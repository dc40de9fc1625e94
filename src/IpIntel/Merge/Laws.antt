-- ===== src/IpIntel/Merge/Laws.antt =====
-- The merged view: it does not depend on the order in which the providers answer, and a provider
-- that is added later is merged as if it had been among the first.
use mathlib.Core.List.{Permᴰ}
use mathlib.Core.Path.{fun_ext}
use vless_sub_server.Base.{
  ◌≡◌, refl, ◌∙◌, false, ◌&&◌, not, List, [], ◌∷◌, ◌++◌, if◌then◌else◌, arith, Bool-cases, inl, inr,
}
use vless_sub_server.Base.Text.{Text, is_empty}
use vless_sub_server.Base.Clock.{Time}
use vless_sub_server.Base.Dict.{has, Text-eq, Distinct, Distinct-snoc}
use vless_sub_server.IpIntel.{
  ProviderResult, no_flags, add_flags, is_nil, has_provider_type, normalize_type,
}
use vless_sub_server.IpIntel.Merge.{
  fill, merge_flags, merge_sources, fill_from, merge, merge_result,
}
use vless_sub_server.Pipeline.Cached.{Flags, Intel}
use vless_sub_server.Quality.Scoring.{Float}

module _ {F : Type 0} where
  merge_flags_swap :
      (flags : Flags) (r s : ProviderResult F)
      → add_flags (add_flags flags r) s ≡ add_flags (add_flags flags s) r
  unfolding add_flags
  merge_flags_swap flags r s = ground arith

  merge_flags-perm :
      (flags : Flags) {rs ss : List (ProviderResult F)}
      → Permᴰ rs ss
      → merge_flags flags rs ≡ merge_flags flags ss
  unfolding merge_flags
  merge_flags-perm flags Permᴰ.nil = refl
  merge_flags-perm flags (Permᴰ.cons {a = a} e p) =
      rw (← e) (merge_flags-perm (add_flags flags a) p)
  merge_flags-perm flags (Permᴰ.swap {a = a} {b = b} e e') =
      rw (← e, ← e', merge_flags_swap flags a b) refl
  merge_flags-perm flags (Permᴰ.trans p q) = merge_flags-perm flags p ∙ merge_flags-perm flags q

  has_provider_type-perm :
      (t : Text) {rs ss : List (ProviderResult F)}
      → Permᴰ rs ss
      → has_provider_type rs t ≡ has_provider_type ss t
  unfolding has_provider_type
  has_provider_type-perm t Permᴰ.nil = refl
  has_provider_type-perm t (Permᴰ.cons e p) = rw (e, has_provider_type-perm t p)
  has_provider_type-perm t (Permᴰ.swap {a = a} {b = b} {l = l} e e') = rw (← e, ← e') (ground arith)
  has_provider_type-perm t (Permᴰ.trans p q) =
      has_provider_type-perm t p ∙ has_provider_type-perm t q

  is_nil-perm : {rs ss : List (ProviderResult F)} → Permᴰ rs ss → is_nil rs ≡ is_nil ss
  is_nil-perm Permᴰ.nil = refl
  is_nil-perm (Permᴰ.cons e p) = refl
  is_nil-perm (Permᴰ.swap e e') = refl
  is_nil-perm (Permᴰ.trans p q) = is_nil-perm p ∙ is_nil-perm q

  normalize_type-perm :
      (flags : Flags) {rs ss : List (ProviderResult F)}
      → Permᴰ rs ss
      → normalize_type rs flags ≡ normalize_type ss flags
  unfolding normalize_type
  normalize_type-perm flags {rs} {ss} p =
      rw (is_nil-perm p, fun_ext (λ (t : Text). has_provider_type-perm t p)) refl

module _ {F : Type 0} (fl : Float F) where
  -- The providers answer in any order: two merges of the same results in different orders have the
  -- same flags, type and level of risk.
  pub merge-perm :
      {rs ss : List (ProviderResult F)} (ip : Text) (now : Time)
      → Permᴰ rs ss
      → ((merge fl rs ip now).flags ≡ (merge fl ss ip now).flags)
        × ((merge fl rs ip now).type ≡ (merge fl ss ip now).type)
        × ((merge fl rs ip now).risk_level ≡ (merge fl ss ip now).risk_level)
  unfolding merge
  merge-perm {rs} {ss} ip now p =
      let flags = merge_flags-perm no_flags p in
      (flags, rw flags (normalize_type-perm _ p), rw (flags, is_nil-perm p) refl)

  merge_flags-append :
      (flags : Flags) (rs : List (ProviderResult F)) (r : ProviderResult F)
      → merge_flags flags (rs ++ r ∷ []) ≡ add_flags (merge_flags flags rs) r
  unfolding merge_flags
  merge_flags-append flags [] r = refl
  merge_flags-append flags (s ∷ rs) r = merge_flags-append (add_flags flags s) rs r

  fill_from-append :
      (value : ProviderResult F → Text) (field : Text) (rs : List (ProviderResult F))
      (r : ProviderResult F)
      → fill_from value field (rs ++ r ∷ []) ≡ fill (fill_from value field rs) (value r)
  unfolding fill_from
  fill_from-append value field [] r = refl
  fill_from-append value field (s ∷ rs) r = fill_from-append value (fill field (value s)) rs r

  merge_sources-append :
      (sources : List Text) (rs : List (ProviderResult F)) (r : ProviderResult F)
      → merge_sources sources (rs ++ r ∷ []) ≡ (
          if not (has r.source (merge_sources sources rs))
          then merge_sources sources rs ++ r.source ∷ []
          else merge_sources sources rs)
  unfolding merge_sources
  merge_sources-append sources [] r = refl
  merge_sources-append sources (s ∷ rs) r =
      merge_sources-append
        (if not (has s.source sources) then sources ++ s.source ∷ [] else sources) rs r

  is_nil-append :
      (rs : List (ProviderResult F)) (r : ProviderResult F) → is_nil (rs ++ r ∷ []) ≡ false
  is_nil-append [] r = refl
  is_nil-append (s ∷ rs) r = refl

  -- The parts of two views that are the same: the flags, the level of risk, the descriptive fields
  -- and the sources.
  pub record SameView (a b : Intel F) : Type 0 where
    pub same_flags : a.flags ≡ b.flags
    pub same_level : a.risk_level ≡ b.risk_level
    pub same_asn : a.asn ≡ b.asn
    pub same_organization : a.organization ≡ b.organization
    pub same_isp : a.isp ≡ b.isp
    pub same_country_code : a.country_code ≡ b.country_code
    pub same_city : a.city ≡ b.city
    pub same_sources : a.sources ≡ b.sources

  -- A provider with a name that is added to a merged view later changes the flags, the level of risk,
  -- the descriptive fields and the sources as if its result had been merged last among the others.
  pub merge-append :
      (rs : List (ProviderResult F)) (r : ProviderResult F) (ip : Text) (now : Time)
      → is_empty r.source ≡ false
      → SameView (merge fl (rs ++ r ∷ []) ip now) (merge_result fl (merge fl rs ip now) r)
  unfolding merge merge_result
  merge-append rs r ip now h = record {
    same_flags = merge_flags-append no_flags rs r;
    same_level = rw (merge_flags-append no_flags rs r, is_nil-append rs r) refl;
    same_asn = fill_from-append (λ s. s.asn) [] rs r;
    same_organization = fill_from-append (λ s. s.organization) [] rs r;
    same_isp = fill_from-append (λ s. s.isp) [] rs r;
    same_country_code = fill_from-append (λ s. s.country_code) [] rs r;
    same_city = fill_from-append (λ s. s.city) [] rs r;
    same_sources = rw (merge_sources-append [] rs r, h) refl;
  }

  merge_sources-Distinct :
      (sources : List Text) (rs : List (ProviderResult F))
      → Distinct sources
      → Distinct (merge_sources sources rs)
  unfolding merge_sources
  merge_sources-Distinct sources [] d = d
  merge_sources-Distinct sources (r ∷ rs) d = elim (Bool-cases (has r.source sources)) [
    | inl e ↦ rw e (merge_sources-Distinct sources rs d)
    | inr e ↦
        rw e (
          merge_sources-Distinct (sources ++ r.source ∷ []) rs (Distinct-snoc r.source sources e d))
  ]

  merge_result-Distinct :
      (intel : Intel F) (r : ProviderResult F)
      → Distinct intel.sources
      → Distinct (merge_result fl intel r).sources
  unfolding merge_result
  merge_result-Distinct intel r d =
      elim (Bool-cases (not (is_empty r.source) && not (has r.source intel.sources))) [
        | inl e ↦ rw e (Distinct-snoc r.source intel.sources (ground arith) d)
        | inr e ↦ rw e d
      ]

  abbrev pub merge_later : Intel F → List (ProviderResult F) → Intel F
  merge_later intel [] = intel
  merge_later intel (r ∷ rs) = merge_later (merge_result fl intel r) rs

  merge_later-Distinct :
      (intel : Intel F) (later : List (ProviderResult F))
      → Distinct intel.sources
      → Distinct (merge_later intel later).sources
  merge_later-Distinct intel [] d = d
  merge_later-Distinct intel (r ∷ rs) d =
      merge_later-Distinct (merge_result fl intel r) rs (merge_result-Distinct intel r d)

  -- A merged view, also after any number of results are added to it one by one, names no source
  -- twice.
  merge-Distinct :
      (rs later : List (ProviderResult F)) (ip : Text) (now : Time)
      → Distinct (merge_later (merge fl rs ip now) later).sources
  unfolding merge
  merge-Distinct rs later ip now =
      merge_later-Distinct (merge fl rs ip now) later (merge_sources-Distinct [] rs tt)
