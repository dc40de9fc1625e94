-- ===== src/Checks/Ai.antt =====
-- internal/servicecheck/ai.go: the probes of the APIs, one for each row of a catalogue.
use vless_sub_server.Base.{ℕ, Bool, false, ◌||◌, List, [], ◌∷◌, ◌==◌, if◌then◌else◌}
use vless_sub_server.Base.Text.{Text, text, contains, to_lower}
use vless_sub_server.Base.Dict.{Dict}
use vless_sub_server.Checks.{
  available, blocked, unknown, verdict, Client, fetch, unless_failed, is_challenge, Checker,
}
use vless_sub_server.Pipeline.Cached.{ServiceResult}

pub record AiEndpoint : Type 0 where
  pub id : Text
  pub name : Text
  pub url : Text
  pub headers : Dict Text Text
  pub auth_status : List ℕ
  pub region_markers : List Text

unfoldable pub ai_catalog : List AiEndpoint
ai_catalog =
    record {
      id = text "openai_api";
      name = text "OpenAI API";
      url = text "https://api.openai.com/v1/models";
      headers = [];
      auth_status = 401 ∷ [];
      region_markers =
          text "unsupported_country_region_territory"
          ∷ text "country, region, or territory not supported"
          ∷ [];
    }
    ∷ record {
      id = text "anthropic_api";
      name = text "Anthropic API";
      url = text "https://api.anthropic.com/v1/models";
      headers = (text "anthropic-version", text "2023-06-01") ∷ [];
      auth_status = 401 ∷ [];
      region_markers = text "request not allowed" ∷ text "unsupported_country" ∷ [];
    }
    ∷ record {
      id = text "gemini_api";
      name = text "Gemini API";
      url = text "https://generativelanguage.googleapis.com/v1beta/models";
      headers = [];
      auth_status = 401 ∷ 403 ∷ [];
      region_markers = [];
    }
    ∷ record {
      id = text "deepseek_api";
      name = text "DeepSeek API";
      url = text "https://api.deepseek.com/models";
      headers = [];
      auth_status = 401 ∷ [];
      region_markers = [];
    }
    ∷ record {
      id = text "qwen_intl_api";
      name = text "Qwen API (intl)";
      url = text "https://dashscope-intl.aliyuncs.com/compatible-mode/v1/models";
      headers = [];
      auth_status = 401 ∷ [];
      region_markers = [];
    }
    ∷ record {
      id = text "qwen_cn_api";
      name = text "Qwen API (CN)";
      url = text "https://dashscope.aliyuncs.com/compatible-mode/v1/models";
      headers = [];
      auth_status = 401 ∷ [];
      region_markers = [];
    }
    ∷ record {
      id = text "moonshot_api";
      name = text "Kimi / Moonshot API";
      url = text "https://api.moonshot.cn/v1/models";
      headers = [];
      auth_status = 401 ∷ [];
      region_markers = [];
    }
    ∷ record {
      id = text "zhipu_api";
      name = text "Zhipu GLM API";
      url = text "https://open.bigmodel.cn/api/paas/v4/models";
      headers = [];
      auth_status = 401 ∷ [];
      region_markers = [];
    }
    ∷ []

-- `for _, m := range e.regionMarkers`, where each marker is lowered as it is read.
unfoldable pub has_region_marker : List Text → Text → Bool
has_region_marker [] lower = false
has_region_marker (m ∷ ms) lower = contains lower (to_lower m) || has_region_marker ms lower

unfoldable pub has_auth_status : List ℕ → ℕ → Bool
has_auth_status [] status = false
has_auth_status (s ∷ ss) status = (status == s) || has_auth_status ss status

unfoldable pub ai_endpoint : AiEndpoint → Client → ServiceResult
unfolding has_region_marker has_auth_status
ai_endpoint e client =
    let r = fetch client e.url e.headers in
    let lower = to_lower r.body in
    unless_failed e.id r (
      if is_challenge r.status lower
      then verdict e.id unknown [] (text "Cloudflare challenge")
      else if has_region_marker e.region_markers lower
      then verdict e.id blocked [] (text "API refused this region")
      else if has_auth_status e.auth_status r.status
      then verdict e.id available [] (text "API reachable")
      else verdict e.id unknown [] (text "unexpected response"))

unfoldable pub as_checkers : List AiEndpoint → List Checker
as_checkers [] = []
as_checkers (e ∷ es) = record { name = e.id; check = ai_endpoint e } ∷ as_checkers es

unfoldable pub ai_checkers : List Checker
unfolding as_checkers ai_catalog
ai_checkers = as_checkers ai_catalog
