-- ===== src/Pipeline/Fetching.antt =====
-- internal/pipeline/fetch_fallback.go, `fetchAllSources`: a source with a proxy of its own is fetched
-- through it, and directly if that fails or if it has none.
pub mod Laws
use vless_sub_server.Base.{
  ℕ, suc, Bool, true, false, List, [], ◌∷◌, Option, none, some, if◌then◌else◌,
}
use vless_sub_server.Base.Text.{Text, text, is_empty}
use vless_sub_server.Config.Sources.{SourceSettings, fetch_proxy_url}
use vless_sub_server.Fetch.Decode.{Decoders, Answer, fetch_single, fetch_subscriptions_via}
use vless_sub_server.Fetch.Sources.{FetchResult, is_ok}

-- The network: what a direct request for a URL gives, and the transport through a proxy; `none` for
-- a proxy URL that `Socks5Transport` refuses.
pub record Network : Type 0 where
  pub direct : Text → Answer
  pub socks5 : Text → Option (Text → Answer)

module _ (lib : Decoders) (net : Network) where
  -- The result through the source's own proxy, if it is good.
  abbrev through : Option (Text → Answer) → Text → Option FetchResult
  through none url = none
  through (some ask) url =
      let r = fetch_single lib url (text "socks5") (ask url) in if is_ok r then some r else none

  unfoldable pub dedicated : Text → Text → Option FetchResult
  dedicated proxy url = if is_empty proxy then none else through (net.socks5 proxy) url

  -- The loop over the sources, from the index `i` on: what `results` holds after it, where `none`
  -- stands for an index in `directIdx`.
  unfoldable pub dedicated_results : SourceSettings → ℕ → List Text → List (Option FetchResult)
  unfolding dedicated
  dedicated_results cfg i [] = []
  dedicated_results cfg i (url ∷ urls) =
      dedicated (fetch_proxy_url cfg i) url ∷ dedicated_results cfg (suc i) urls

-- `directURLs`
unfoldable pub direct_urls : List (Option FetchResult) → List Text → List Text
direct_urls (none ∷ os) (url ∷ urls) = url ∷ direct_urls os urls
direct_urls (some r ∷ os) (url ∷ urls) = direct_urls os urls
direct_urls _ _ = []

abbrev empty_fetch : FetchResult
empty_fetch = record { url = []; status = []; lines = []; error = []; via = [] }

-- `results[directIdx[j]] = result`
unfoldable pub fill_direct : List (Option FetchResult) → List FetchResult → List FetchResult
fill_direct [] rs = []
fill_direct (some r ∷ os) rs = r ∷ fill_direct os rs
fill_direct (none ∷ os) (r ∷ rs) = r ∷ fill_direct os rs
fill_direct (none ∷ os) [] = empty_fetch ∷ fill_direct os []

module _ (lib : Decoders) (net : Network) where
  unfoldable pub fetch_all_sources : SourceSettings → List FetchResult
  unfolding dedicated_results direct_urls fill_direct
  fetch_all_sources cfg =
      let urls = cfg.subscription_urls in
      let results = dedicated_results lib net cfg 0 urls in
      fill_direct results (fetch_subscriptions_via lib net.direct [] (direct_urls results urls))
