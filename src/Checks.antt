-- ===== src/Checks.antt =====
-- internal/servicecheck/servicecheck.go: one request to a service, and what is read from its answer.
-- The HTTP client, with the network behind it, and the regular expressions are parameters.
pub mod Core
pub mod Netflix
pub mod Ai
pub mod More
pub mod All
pub mod Laws
use vless_sub_server.Base.{
  ℕ, ◌≡◌, Bool, true, false, ◌&&◌, ◌||◌, not, List, [], ◌∷◌, map, Option, none, some, ◌==◌, leb,
  ltb, if◌then◌else◌,
}
use vless_sub_server.Base.Text.{Text, text, is_empty, text_eq, contains, to_lower}
use vless_sub_server.Base.Dict.{Dict, insert, Text-eq}
use vless_sub_server.Pipeline.Cached.{ServiceResult}

abbrev pub available : Text
available = text "available"

abbrev pub restricted : Text
restricted = text "restricted"

abbrev pub blocked : Text
blocked = text "blocked"

abbrev pub unknown : Text
unknown = text "unknown"

-- `Result{Service: …, Status: …, Region: …, Detail: …}`
unfoldable pub verdict : Text → Text → Text → Text → ServiceResult
verdict service status region detail = record {
  service = service;
  status = status;
  region = region;
  reason = [];
  detail = detail;
}

unfoldable pub detail_reason : Text → Text
detail_reason detail =
    if contains detail (text "challenge")
    then text "challenge"
    else if contains detail (text "unexpected http")
        || (contains detail (text "unexpected response")
            || contains detail (text "unexpected destination"))
    then text "unexpected_status"
    else if contains detail (text "not found") || contains detail (text "wording present")
    then text "parse_error"
    else if contains detail (text "request failed")
    then text "transport"
    else text "unknown"

unfoldable pub result_reason : ServiceResult → Text
unfolding detail_reason
result_reason r =
    if not (text_eq r.status unknown)
    then []
    else if not (is_empty r.reason)
    then r.reason
    else detail_reason (to_lower r.detail)

-- What comes back from `http.NewRequestWithContext`, `client.Do` and the reading of the body, which
-- is cut off after two megabytes; `failed` tells whether the error is a timeout.
pub data Answer : Type 0 where
  bad_request : Answer
  failed : Bool → Answer
  unread : ℕ → Answer
  answered : ℕ → Text → Text → Answer

-- An answer for each URL and header of the request.
abbrev pub Client : Type 0
Client = Text → Dict Text Text → Answer

-- Package `regexp`: whether a pattern matches, and the first group of its leftmost match.
pub record Regexp : Type 0 where
  pub match_string : Text → Text → Bool
  pub find_submatch : Text → Text → Option Text

pub record FetchResult : Type 0 where
  pub status : ℕ
  pub body : Text
  pub final_url : Text
  pub reason : Text
  pub ok : Bool

abbrev pub browser_ua : Text
browser_ua =
    text
      "Mozilla/5.0 (Windows NT 10.0; Win64; x64) AppleWebKit/537.36 (KHTML, like Gecko) Chrome/151.0.0.0 Safari/537.36"

unfoldable pub fetched : Answer → FetchResult
fetched bad_request = record {
  status = 0;
  body = [];
  final_url = [];
  reason = text "parse_error";
  ok = false;
}
fetched (failed timed_out) = record {
  status = 0;
  body = [];
  final_url = [];
  reason = if timed_out then text "timeout" else text "transport";
  ok = false;
}
fetched (unread status) = record {
  status = status;
  body = [];
  final_url = [];
  reason = text "parse_error";
  ok = false;
}
fetched (answered status body final_url) = record {
  status = status;
  body = body;
  final_url = final_url;
  reason = [];
  ok = true;
}

abbrev pub set_headers : Dict Text Text → Dict Text Text → Dict Text Text
set_headers [] header = header
set_headers ((key, value) ∷ headers) header = set_headers headers (insert key value header)

unfoldable pub fetch : Client → Text → Dict Text Text → FetchResult
unfolding fetched
fetch client url headers =
    fetched (client url (set_headers headers ((text "User-Agent", browser_ua) ∷ [])))

unfoldable pub request_failure : Text → FetchResult → ServiceResult
request_failure service result = record {
  service = service;
  status = unknown;
  region = [];
  reason = if is_empty result.reason then text "transport" else result.reason;
  detail = text "request failed";
}

-- `if !r.ok { return requestFailure(service, r) }`, and what follows it.
unfoldable pub unless_failed : Text → FetchResult → ServiceResult → ServiceResult
unless_failed service r next = if not r.ok then request_failure service r else next

unfoldable pub contains_fold : Text → Text → Bool
contains_fold haystack needle = contains (to_lower haystack) (to_lower needle)

-- `for _, marker := range markers`
unfoldable pub contains_any : List Text → Text → Bool
contains_any [] s = false
contains_any (marker ∷ markers) s = contains s marker || contains_any markers s

abbrev challenge_markers : List Text
challenge_markers =
    text "cf_chl_opt"
    ∷ text "_cf_chl"
    ∷ text "just a moment"
    ∷ text "cf-browser-verification"
    ∷ text "enable javascript and cookies to continue"
    ∷ []

unfoldable pub is_challenge : ℕ → Text → Bool
unfolding contains_any
is_challenge status body =
    if not (status == 403) && (not (status == 429) && not (status == 503))
    then false
    else contains_any challenge_markers (to_lower body)

-- `status >= 200 && status < 400`
abbrev pub is_success : ℕ → Bool
is_success status = leb 200 status && ltb status 400

pub record Checker : Type 0 where
  pub name : Text
  pub check : Client → ServiceResult

unfoldable pub check_all : Client → List Checker → List ServiceResult
check_all client [] = []
check_all client (c ∷ cs) = c.check client ∷ check_all client cs
