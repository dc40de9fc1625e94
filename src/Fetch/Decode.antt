-- ===== src/Fetch/Decode.antt =====
-- internal/fetch/fetch.go: the fetch of one subscription, and how its body becomes lines. The HTTP
-- client and base64 are parameters, and so are the links that a sing-box JSON document stands for.
pub mod Laws
pub mod Failures
use vless_sub_server.Base.{
  ℕ, Bool, true, false, ◌||◌, not, List, [], ◌∷◌, ◌++◌, Option, none, some, ◌==◌, if◌then◌else◌,
}
use vless_sub_server.Base.Int.{pos}
use vless_sub_server.Base.Text.{Text, text, is_empty, has_prefix, trim_space, split}
use vless_sub_server.Fetch.Sources.{FetchResult}
use vless_sub_server.Parse.Lines.{has_scheme, proxy_schemes}
use vless_sub_server.Parse.Query.{itoa}
use vless_sub_server.Parse.Schemes.Shadowsocks.{pad}
use vless_sub_server.Parse.Schemes.Vmess.{standard_alphabet}

-- `singbox_urls` is `extractSingboxURLs` of the document, and empty for a text that is not JSON.
pub record Decoders : Type 0 where
  pub singbox_urls : Text → List Text
  pub std_base64 : Text → Option Text

-- The loop of `splitNonEmpty`.
unfoldable pub keep_lines : List Text → List Text
keep_lines [] = []
keep_lines (l ∷ ls) =
    let rest = keep_lines ls in if is_empty (trim_space l) then rest else trim_space l ∷ rest

unfoldable pub split_non_empty : Text → List Text
unfolding keep_lines
split_non_empty s = keep_lines (split 10 s)

unfoldable pub has_proxy_scheme : List Text → Bool
has_proxy_scheme [] = false
has_proxy_scheme (l ∷ ls) = if has_scheme l proxy_schemes then true else has_proxy_scheme ls

-- The first list that is not empty.
abbrev pub urls_or : List Text → List Text → List Text
urls_or [] next = next
urls_or (u ∷ urls) next = u ∷ urls

-- The text behind the base64, if it is a document or has a link.
unfoldable pub decoded_lines : Decoders → Text → List Text → List Text
unfolding split_non_empty has_proxy_scheme
decoded_lines lib decoded next =
    let lines = split_non_empty decoded in
    urls_or (lib.singbox_urls decoded) (if has_proxy_scheme lines then lines else next)

unfoldable pub decode_subscription : Decoders → Text → List Text
unfolding split_non_empty decoded_lines
decode_subscription lib raw =
    let trimmed = trim_space raw in
    let plain = split_non_empty trimmed in
    urls_or (lib.singbox_urls trimmed) (elim (lib.std_base64 (pad (standard_alphabet trimmed))) [
      | none ↦ plain
      | some decoded ↦ decoded_lines lib decoded plain
    ])

-- How a request ends: it cannot be made, it gets no answer, or it gets one with a status and a body;
-- `none` for a body that cannot be read.
pub data Answer : Type 0 where
  no_request : Answer
  no_answer : Answer
  answered : ℕ → Option Text → Answer

abbrev pub failure : Text → Text → FetchResult
failure url problem = record {
  url = url;
  status = text "error";
  lines = [];
  error = problem;
  via = [];
}

unfoldable pub fetch_single : Decoders → Text → Text → Answer → FetchResult
unfolding decode_subscription
fetch_single lib url via no_request = failure url (text "request setup")
fetch_single lib url via no_answer = failure url (text "transport")
fetch_single lib url via (answered status body) =
    if not (status == 200) then failure url (text "HTTP " ++ itoa (pos status)) else elim body [
      | none ↦ failure url (text "read body")
      | some raw ↦ record {
        url = url;
        status = text "ok";
        lines = decode_subscription lib raw;
        error = [];
        via = via;
      }
    ]

-- All sources at once, each at its own position; `ask` is the transport.
unfoldable pub fetch_subscriptions_via :
    Decoders → (Text → Answer) → Text → List Text → List FetchResult
unfolding fetch_single
fetch_subscriptions_via lib ask via [] = []
fetch_subscriptions_via lib ask via (u ∷ urls) =
    fetch_single lib u via (ask u) ∷ fetch_subscriptions_via lib ask via urls
