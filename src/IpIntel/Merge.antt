-- ===== src/IpIntel/Merge.antt =====
-- internal/ipintel/ipintel.go: `merge`, and `MergeResult`, which adds one provider's result later.
pub mod Laws
use vless_sub_server.Base.{Bool, true, false, ◌&&◌, ◌||◌, not, List, [], ◌∷◌, ◌++◌, if◌then◌else◌}
use vless_sub_server.Base.Text.{Text, text, is_empty, text_eq}
use vless_sub_server.Base.Clock.{Time}
use vless_sub_server.Base.Dict.{has, Text-eq}
use vless_sub_server.IpIntel.{
  type_residential, type_hosting, ProviderResult, no_flags, add_flags, is_nil, normalize_type,
  classify_risk, composite_score, max_f,
}
use vless_sub_server.Pipeline.Cached.{Flags, Intel}
use vless_sub_server.Quality.Scoring.{Float, number}

-- `if field == "" && value != "" { field = value }`
unfoldable pub fill : Text → Text → Text
fill field value = if is_empty field && not (is_empty value) then value else field

module _ {F : Type 0} where
  -- The first loop of `merge`, one variable at a time; `seen` has the same texts as `sources`.
  unfoldable pub merge_flags : Flags → List (ProviderResult F) → Flags
  merge_flags flags [] = flags
  merge_flags flags (r ∷ rs) = merge_flags (add_flags flags r) rs

  unfoldable pub merge_sources : List Text → List (ProviderResult F) → List Text
  merge_sources sources [] = sources
  merge_sources sources (r ∷ rs) =
      merge_sources (if not (has r.source sources) then sources ++ r.source ∷ [] else sources) rs

  unfoldable pub has_any_score : List (ProviderResult F) → Bool
  has_any_score [] = false
  has_any_score (r ∷ rs) = r.has_score || has_any_score rs

  -- One field of the second loop.
  unfoldable pub fill_from : (ProviderResult F → Text) → Text → List (ProviderResult F) → Text
  unfolding fill
  fill_from value field [] = field
  fill_from value field (r ∷ rs) = fill_from value (fill field (value r)) rs

module _ {F : Type 0} (fl : Float F) where
  unfoldable pub max_score : F → List (ProviderResult F) → F
  max_score best [] = best
  max_score best (r ∷ rs) =
      max_score (if r.has_score && fl.below best r.risk_score then r.risk_score else best) rs

  -- `ip` is `ip.Unmap().String()`, and `now` the time of the call.
  unfoldable pub merge : List (ProviderResult F) → Text → Time → Intel F
  unfolding merge_flags merge_sources has_any_score fill_from max_score
  merge results ip now =
      let flags = merge_flags no_flags results in
      let best = max_score (number fl 0) results in
      let score = composite_score fl flags in
      record {
        ip = ip;
        type = normalize_type results flags;
        risk_level = classify_risk flags (not (is_nil results));
        risk_score = if has_any_score results && fl.below score best then best else score;
        flags = flags;
        sources = merge_sources [] results;
        checked_at = now;
        asn = fill_from (λ r. r.asn) [] results;
        organization = fill_from (λ r. r.organization) [] results;
        isp = fill_from (λ r. r.isp) [] results;
        country_code = fill_from (λ r. r.country_code) [] results;
        city = fill_from (λ r. r.city) [] results;
      }

  unfoldable pub merged_type : Text → ProviderResult F → Text
  merged_type type r =
      if r.datacenter || text_eq r.type type_hosting
      then type_hosting
      else if is_empty type && not (is_empty r.type)
      then r.type
      else if text_eq type type_residential
          && (not (is_empty r.type) && not (text_eq r.type type_residential))
      then r.type
      else type

  unfoldable pub merge_result : Intel F → ProviderResult F → Intel F
  unfolding merged_type
  merge_result intel r =
      let flags = add_flags intel.flags r in
      let score : F =
        if r.has_score && fl.below intel.risk_score r.risk_score
        then r.risk_score
        else intel.risk_score in
      record intel {
        flags = flags;
        type = merged_type intel.type r;
        asn = fill intel.asn r.asn;
        organization = fill intel.organization r.organization;
        isp = fill intel.isp r.isp;
        country_code = fill intel.country_code r.country_code;
        city = fill intel.city r.city;
        sources =
            if not (is_empty r.source) && not (has r.source intel.sources)
            then intel.sources ++ r.source ∷ []
            else intel.sources;
        risk_level = classify_risk flags true;
        risk_score = max_f fl score (composite_score fl flags);
      }
