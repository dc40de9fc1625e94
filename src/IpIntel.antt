-- ===== src/IpIntel.antt =====
-- internal/ipintel/ipintel.go: what the providers say of an address, as flags, a type, a level and a
-- score. `F` is the type of float64.
pub mod Merge
pub mod Cache
pub mod Lookup
use vless_sub_server.Base.{◌≡◌, Bool, true, false, ◌&&◌, ◌||◌, not, List, [], ◌∷◌, if◌then◌else◌}
use vless_sub_server.Base.Text.{Text, text, text_eq}
use vless_sub_server.Pipeline.Cached.{Flags}
use vless_sub_server.Quality.Scoring.{Float, number}

abbrev pub type_residential : Text
type_residential = text "residential"

abbrev pub type_mobile : Text
type_mobile = text "mobile"

abbrev pub type_hosting : Text
type_hosting = text "hosting"

abbrev pub type_business : Text
type_business = text "business"

abbrev pub type_cdn : Text
type_cdn = text "cdn"

abbrev pub type_education : Text
type_education = text "education"

abbrev pub type_government : Text
type_government = text "government"

abbrev pub type_unknown : Text
type_unknown = text "unknown"

abbrev pub risk_clean : Text
risk_clean = text "clean"

abbrev pub risk_suspicious : Text
risk_suspicious = text "suspicious"

abbrev pub risk_risky : Text
risk_risky = text "risky"

abbrev pub risk_unknown : Text
risk_unknown = text "unknown"

-- `Result`: what one provider contributes.
pub record ProviderResult (F : Type 0) : Type 0 where
  pub source : Text
  pub asn : Text
  pub organization : Text
  pub isp : Text
  pub country_code : Text
  pub city : Text
  pub type : Text
  pub proxy : Bool
  pub vpn : Bool
  pub tor : Bool
  pub abuser : Bool
  pub datacenter : Bool
  pub crawler : Bool
  pub risk_score : F
  pub has_score : Bool

abbrev pub no_flags : Flags
no_flags = record {
  proxy = false;
  vpn = false;
  tor = false;
  abuser = false;
  datacenter = false;
  crawler = false;
}

unfoldable pub add_flags : {F : Type 0} → Flags → ProviderResult F → Flags
add_flags flags r = record {
  proxy = flags.proxy || r.proxy;
  vpn = flags.vpn || r.vpn;
  tor = flags.tor || r.tor;
  abuser = flags.abuser || r.abuser;
  datacenter = flags.datacenter || r.datacenter;
  crawler = flags.crawler || r.crawler;
}

unfoldable pub has_provider_type : {F : Type 0} → List (ProviderResult F) → Text → Bool
has_provider_type [] t = false
has_provider_type (r ∷ rs) t = text_eq r.type t || has_provider_type rs t

abbrev pub is_nil : {A : Type 0} → List A → Bool
is_nil [] = true
is_nil (x ∷ xs) = false

-- Each of the five `has…` of the loop tells whether some result has that type.
unfoldable pub normalize_type : {F : Type 0} → List (ProviderResult F) → Flags → Text
normalize_type results flags =
    if flags.datacenter || has_provider_type results type_hosting
    then type_hosting
    else if has_provider_type results type_mobile
    then type_mobile
    else if has_provider_type results type_cdn
    then type_cdn
    else if has_provider_type results type_business
    then type_business
    else if has_provider_type results type_education
    then type_education
    else if has_provider_type results type_government
    then type_government
    else if not (is_nil results)
    then type_residential
    else type_unknown

unfoldable pub classify_risk : Flags → Bool → Text
classify_risk flags has_data =
    if not has_data
    then risk_unknown
    else if flags.abuser || flags.tor
    then risk_risky
    else if flags.proxy || (flags.vpn || flags.datacenter)
    then risk_suspicious
    else risk_clean

module _ {F : Type 0} (fl : Float F) where
  -- `if flag { score += points }`
  abbrev add_if : Bool → F → F → F
  add_if flag points score = if flag then fl.plus score points else score

  unfoldable pub composite_score : Flags → F
  composite_score flags =
      let score : F = add_if flags.crawler (number fl 5) (
        add_if flags.tor (number fl 35) (
          add_if flags.abuser (number fl 40) (
            add_if flags.datacenter (number fl 10) (
              add_if flags.vpn (number fl 25)
                (add_if flags.proxy (number fl 25) (number fl 0)))))) in
      if fl.below (number fl 100) score then number fl 100 else score

  unfoldable pub max_f : F → F → F
  max_f a b = if fl.below b a then a else b
