-- ===== src/Checks/Core.antt =====
-- internal/servicecheck/servicecheck.go: the probes of the core set.
use vless_sub_server.Base.{
  Bool, ◌||◌, List, [], ◌∷◌, Option, none, some, ◌==◌, leb, ltb, if◌then◌else◌,
}
use vless_sub_server.Base.Text.{Text, text, text_eq, contains, to_lower}
use vless_sub_server.Base.Dict.{Dict}
use vless_sub_server.Checks.{
  available, blocked, unknown, verdict, Client, Regexp, fetch, unless_failed, contains_fold,
  contains_any, is_challenge, is_success,
}
use vless_sub_server.Pipeline.Cached.{ServiceResult}

abbrev pub accept_language : Text × Text
accept_language = (text "Accept-Language", text "en-US,en;q=0.9")

abbrev accept_html : Text × Text
accept_html =
    (text "Accept", text "text/html,application/xhtml+xml,application/xml;q=0.9,*/*;q=0.8")

unfoldable pub chatgpt_web : Client → ServiceResult
chatgpt_web client =
    let service = text "chatgpt_web" in
    let r = fetch client (text "https://api.openai.com/compliance/cookie_requirements") [] in
    unless_failed service r (
      if contains_fold r.body (text "unsupported_country")
      then verdict service blocked [] (text "unsupported country")
      else verdict service available [] [])

unfoldable pub chatgpt_app : Client → ServiceResult
chatgpt_app client =
    let service = text "chatgpt_app" in
    let r = fetch client (text "https://ios.chat.openai.com") [] in
    unless_failed service r (
      if is_challenge r.status r.body
      then verdict service unknown [] (text "Cloudflare challenge")
      else if contains_fold r.body (text "disallowed isp")
      then verdict service blocked [] (text "disallowed ISP")
      else if contains_fold r.body (text "been blocked")
      then verdict service blocked [] (text "blocked")
      else verdict service available [] [])

abbrev gemini_unsupported : Text → Bool
gemini_unsupported region =
    text_eq region (text "RUS")
    || text_eq region (text "BLR")
    || text_eq region (text "CHN")
    || text_eq region (text "PRK")
    || text_eq region (text "IRN")
    || text_eq region (text "CUB")
    || text_eq region (text "SYR")

unfoldable pub gemini_region : Option Text → ServiceResult
gemini_region none = verdict (text "gemini") unknown [] (text "region not found in page")
gemini_region (some region) =
    if gemini_unsupported region
    then verdict (text "gemini") blocked region (text "not offered in this country")
    else verdict (text "gemini") available region []

unfoldable pub gemini : Regexp → Client → ServiceResult
unfolding gemini_region
gemini re client =
    let service = text "gemini" in
    let r =
      fetch client (text "https://gemini.google.com/app") (accept_html ∷ accept_language ∷ []) in
    unless_failed service r (
      if is_challenge r.status r.body
      then verdict service unknown [] (text "Cloudflare challenge")
      else if ltb r.status 200 || leb 400 r.status
      then verdict service unknown [] (text "unexpected HTTP status")
      else gemini_region (re.find_submatch (text ",\\d+,\\d+,200,\"([A-Z]{3})\"") r.body))

unfoldable pub youtube_premium : Client → ServiceResult
youtube_premium client =
    let service = text "youtube_premium" in
    let r = fetch client (text "https://www.youtube.com/premium") (accept_language ∷ []) in
    let body = to_lower r.body in
    unless_failed service r (
      if contains body (text "youtube premium is not available in your country")
      then verdict service blocked [] (text "not offered in this country")
      else if contains body (text "ad-free")
      then verdict service available [] []
      else verdict service unknown [] (text "neither offer nor refusal wording present"))

abbrev tiktok_block_markers : List Text
tiktok_block_markers =
    text "service is currently unavailable in your region"
    ∷ text "tiktok is not available in your country"
    ∷ text "tiktok is unavailable in your country"
    ∷ text "not available in your region"
    ∷ []

unfoldable pub tiktok : Client → ServiceResult
tiktok client =
    let service = text "tiktok" in
    let r = fetch client (text "https://www.tiktok.com/") (accept_html ∷ accept_language ∷ []) in
    unless_failed service r (
      if contains_any tiktok_block_markers (to_lower r.body)
      then verdict service blocked [] (text "blocked by region")
      else if is_success r.status
      then verdict service available [] []
      else verdict service unknown [] (text "unexpected HTTP status"))

abbrev claude_unavailable_markers : List Text
claude_unavailable_markers =
    text "app unavailable in region"
    ∷ text "/app-unavailable-in-region"
    ∷ text "unfortunately, claude isn't available here."
    ∷ text "unfortunately, claude isn't available here."
    ∷ text "unfortunately, claude isn't available here."
    ∷ []

abbrev claude_headers : Dict Text Text
claude_headers =
    (
      text "Accept",
      text "text/html,application/xhtml+xml,application/xml;q=0.9,image/avif,image/webp,*/*;q=0.8",
    )
    ∷ accept_language
    ∷ (text "Sec-Fetch-Dest", text "document")
    ∷ (text "Sec-Fetch-Mode", text "navigate")
    ∷ (text "Sec-Fetch-Site", text "none")
    ∷ (text "Sec-Fetch-User", text "?1")
    ∷ (text "Upgrade-Insecure-Requests", text "1")
    ∷ []

unfoldable pub claude : Client → ServiceResult
claude client =
    let service = text "claude" in
    let r = fetch client (text "https://claude.ai/") claude_headers in
    let lower = to_lower r.body in
    unless_failed service r (
      if is_challenge r.status lower
      then verdict service unknown [] (text "Cloudflare challenge")
      else if contains_any claude_unavailable_markers lower
      then verdict service blocked [] (text "not available in this region")
      else if is_success r.status
      then verdict service available [] []
      else verdict service unknown [] (text "unexpected HTTP status"))

unfoldable pub notebooklm : Client → ServiceResult
notebooklm client =
    let service = text "notebooklm" in
    let r =
      fetch client (text "https://notebooklm.google.com/") (accept_html ∷ accept_language ∷ []) in
    unless_failed service r (
      if is_challenge r.status r.body
      then verdict service unknown [] (text "Cloudflare challenge")
      else if contains r.final_url (text "location=unsupported")
      then verdict service blocked [] (text "not offered in this country")
      else if contains r.final_url (text "accounts.google.com")
          || contains r.final_url (text "/login")
      then verdict service available [] (text "sign-in required")
      else if is_success r.status
      then verdict service unknown [] (text "unexpected destination")
      else verdict service unknown [] (text "unexpected HTTP status"))

abbrev or_empty : Option Text → Text
or_empty none = []
or_empty (some region) = region

unfoldable pub extract_reddit_region : Regexp → Text → Text
extract_reddit_region re body = or_empty (re.find_submatch (text "country=\"([A-Z]{2})\"") body)

unfoldable pub reddit : Regexp → Client → ServiceResult
reddit re client =
    let service = text "reddit" in
    let r =
      fetch client (text "https://www.reddit.com/svc/shreddit/reddit-chat")
        ((text "Accept", text "text/html,*/*;q=0.8") ∷ []) in
    unless_failed service r (
      if r.status == 200
      then verdict service available (extract_reddit_region re r.body) []
      else if r.status == 403
      then verdict service blocked [] (text "forbidden")
      else verdict service unknown [] (text "unexpected HTTP status"))

-- An available service with the region that was found, or else another verdict.
unfoldable pub with_region : Text → Option Text → ServiceResult → ServiceResult
with_region service none next = next
with_region service (some region) next = verdict service available region []

unfoldable pub amazon_prime : Regexp → Client → ServiceResult
amazon_prime re client =
    let service = text "amazon_prime" in
    let r =
      fetch client (text "https://www.primevideo.com/") (accept_html ∷ accept_language ∷ []) in
    let territory = re.find_submatch (text "\"currentTerritory\":\"([A-Z]{2})\"") r.body in
    unless_failed service r
      (with_region service territory (verdict service blocked [] (text "territory not found")))
