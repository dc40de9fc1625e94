-- ===== src/Pipeline/Fetching/Laws.antt =====
-- Each source has its own result, from its proxy or from the direct request.
use vless_sub_server.Base.{
  ℕ, suc, ◌≡◌, refl, ap, sym, subst, ◌∙◌, true, false, inl, inr, Bool-cases, List, [], ◌∷◌, Option,
  none, some,
}
use vless_sub_server.Base.Text.{Text, text, is_empty}
use vless_sub_server.Config.Sources.{SourceSettings, fetch_proxy_url}
use vless_sub_server.Fetch.Decode.{Decoders, Answer, fetch_single, fetch_subscriptions_via}
use vless_sub_server.Fetch.Sources.{FetchResult, is_ok}
use vless_sub_server.Pipeline.Fetching.{
  Network, through, dedicated, dedicated_results, direct_urls, fill_direct, fetch_all_sources,
}

module _ (lib : Decoders) (net : Network) where
  -- What one source gets.
  abbrev chosen : Option FetchResult → Text → FetchResult
  chosen none url = fetch_single lib url [] (net.direct url)
  chosen (some r) url = r

  abbrev chosen_from : SourceSettings → ℕ → List Text → List FetchResult
  chosen_from cfg i [] = []
  chosen_from cfg i (url ∷ urls) =
      chosen (dedicated lib net (fetch_proxy_url cfg i) url) url ∷ chosen_from cfg (suc i) urls

  fill_direct_first :
      (o : Option FetchResult) (os : List (Option FetchResult)) (url : Text) (urls : List Text)
      → fill_direct
          (o ∷ os)
          (fetch_subscriptions_via lib net.direct [] (direct_urls (o ∷ os) (url ∷ urls)))
        ≡ chosen o url
          ∷ fill_direct os (fetch_subscriptions_via lib net.direct [] (direct_urls os urls))
  unfolding fill_direct direct_urls fetch_subscriptions_via
  fill_direct_first none os url urls = refl
  fill_direct_first (some r) os url urls = refl

  fill_direct-direct_urls :
      (cfg : SourceSettings) (i : ℕ) (urls : List Text)
      → let results = dedicated_results lib net cfg i urls in
        fill_direct results (fetch_subscriptions_via lib net.direct [] (direct_urls results urls))
        ≡ chosen_from cfg i urls
  unfolding fill_direct direct_urls fetch_subscriptions_via dedicated_results
  fill_direct-direct_urls cfg i [] = refl
  fill_direct-direct_urls cfg i (url ∷ urls) =
      fill_direct_first (dedicated lib net (fetch_proxy_url cfg i) url)
        (dedicated_results lib net cfg (suc i) urls) url urls
      ∙ ap (◌∷◌ (chosen (dedicated lib net (fetch_proxy_url cfg i) url) url))
          (fill_direct-direct_urls cfg (suc i) urls)

  -- The result of one source. Its own proxy brings it, if there is one that is usable and the fetch
  -- through it is good; otherwise it is that of a direct fetch.
  pub data IsFetched (proxy url : Text) : FetchResult → Type 0 where
    by_proxy :
        (ask : Text → Answer)
        → is_empty proxy ≡ false
        → net.socks5 proxy ≡ some ask
        → is_ok (fetch_single lib url (text "socks5") (ask url)) ≡ true
        → IsFetched proxy url (fetch_single lib url (text "socks5") (ask url))
    without_proxy :
        is_empty proxy ≡ true → IsFetched proxy url (fetch_single lib url [] (net.direct url))
    proxy_refused :
        is_empty proxy ≡ false
        → net.socks5 proxy ≡ none
        → IsFetched proxy url (fetch_single lib url [] (net.direct url))
    proxy_failed :
        (ask : Text → Answer)
        → is_empty proxy ≡ false
        → net.socks5 proxy ≡ some ask
        → is_ok (fetch_single lib url (text "socks5") (ask url)) ≡ false
        → IsFetched proxy url (fetch_single lib url [] (net.direct url))

  -- One result for each source, in order, from the index `i` on.
  abbrev pub AreFetched : SourceSettings → ℕ → List Text → List FetchResult → Type 0
  AreFetched cfg i [] [] = Unit
  AreFetched cfg i (url ∷ urls) (r ∷ rs) =
      IsFetched (fetch_proxy_url cfg i) url r × AreFetched cfg (suc i) urls rs
  AreFetched cfg i _ _ = ⊥

  chosen-through :
      (proxy url : Text) (o : Option (Text → Answer))
      → is_empty proxy ≡ false
      → net.socks5 proxy ≡ o
      → IsFetched proxy url (chosen (through lib net o url) url)
  chosen-through proxy url none h e = proxy_refused h e
  chosen-through proxy url (some ask) h e =
      elim (Bool-cases (is_ok (fetch_single lib url (text "socks5") (ask url)))) [
        | inl works ↦ rw works (by_proxy ask h e works)
        | inr fails ↦ rw fails (proxy_failed ask h e fails)
      ]

  chosen-IsFetched :
      (proxy url : Text) → IsFetched proxy url (chosen (dedicated lib net proxy url) url)
  unfolding dedicated
  chosen-IsFetched proxy url = elim (Bool-cases (is_empty proxy)) [
    | inl h ↦ rw h (without_proxy h)
    | inr h ↦ rw h (chosen-through proxy url (net.socks5 proxy) h refl)
  ]

  chosen_from-AreFetched :
      (cfg : SourceSettings) (i : ℕ) (urls : List Text)
      → AreFetched cfg i urls (chosen_from cfg i urls)
  chosen_from-AreFetched cfg i [] = tt
  chosen_from-AreFetched cfg i (url ∷ urls) =
      (chosen-IsFetched (fetch_proxy_url cfg i) url, chosen_from-AreFetched cfg (suc i) urls)

  -- `fetchAllSources` gives each source, in order, the result of its own proxy if there is a usable
  -- one and the fetch through it is good, and the result of a direct fetch otherwise.
  pub fetch_all_sources-AreFetched :
      (cfg : SourceSettings)
      → AreFetched cfg 0 cfg.subscription_urls (fetch_all_sources lib net cfg)
  unfolding fetch_all_sources
  fetch_all_sources-AreFetched cfg =
      subst (AreFetched cfg 0 cfg.subscription_urls)
        (sym (fill_direct-direct_urls cfg 0 cfg.subscription_urls))
        (chosen_from-AreFetched cfg 0 cfg.subscription_urls)
