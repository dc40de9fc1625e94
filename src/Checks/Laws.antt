-- ===== src/Checks/Laws.antt =====
-- What a probe reports: its own service, and a reason for each result that is unknown.
pub mod Reports
pub mod Failure
pub mod Names
use vless_sub_server.Base.{
  ℕ, ◌≡◌, refl, Bool, true, false, ◌&&◌, ◌||◌, not, List, [], ◌∷◌, ◌++◌, Option, none, some, arith,
  if◌then◌else◌, inl, inr, Bool-cases,
}
use vless_sub_server.Base.Text.{
  Text, text, is_empty, text_eq, contains, has_prefix, to_lower, lower_code,
}
use vless_sub_server.Base.Dict.{Dict}
use vless_sub_server.Checks.{
  available, restricted, blocked, unknown, verdict, detail_reason, result_reason, Answer,
  bad_request, failed, unread, answered, Client, Regexp, FetchResult, fetched, fetch,
  request_failure, unless_failed, set_headers, browser_ua, Checker, check_all,
}
use vless_sub_server.Checks.Core.{
  chatgpt_web, chatgpt_app, gemini, gemini_region, youtube_premium, tiktok, claude, notebooklm,
  reddit, amazon_prime, with_region,
}
use vless_sub_server.Checks.Netflix.{netflix, netflix_verdict, netflix_title}
use vless_sub_server.Checks.Ai.{AiEndpoint, ai_endpoint, ai_catalog, as_checkers, ai_checkers}
use vless_sub_server.Checks.More.{
  by_status, google_captcha, youtube_music, twitch, spotify, deezer, reddit_guest, apple, steam,
  playstation, ookla, jetbrains, bing, more_checkers,
}
use vless_sub_server.Checks.All.{core_checkers, default_checkers}
use vless_sub_server.Pipeline.Cached.{ServiceResult}

unfoldable pub is_cause : Text → Bool
unfolding text_eq
is_cause reason =
    text_eq reason (text "challenge")
    || text_eq reason (text "unexpected_status")
    || text_eq reason (text "parse_error")
    || text_eq reason (text "transport")
    || text_eq reason (text "timeout")

-- A known status comes with no reason, an unknown one with a cause.
unfoldable pub is_explained : ServiceResult → Bool
unfolding text_eq is_cause
is_explained r =
    if text_eq r.status unknown then is_cause (result_reason r) else is_empty (result_reason r)

pub record IsReport (service : Text) (r : ServiceResult) : Type 0 where
  pub own_service : r.service ≡ service
  pub explained : is_explained r ≡ true

pub reported :
    {service : Text} {r : ServiceResult}
    → r.service ≡ service
    → is_explained r ≡ true
    → IsReport service r
reported p q = record { own_service = p; explained = q }

pub if-IsReport :
    {service : Text} {x y : ServiceResult} (b : Bool)
    → IsReport service x
    → IsReport service y
    → IsReport service (if b then x else y)
if-IsReport true p q = p
if-IsReport false p q = q

fetched_reason : (a : Answer) → (fetched a).ok ≡ false → is_cause (fetched a).reason ≡ true
unfolding fetched is_cause
fetched_reason bad_request h = refl
fetched_reason (failed true) h = refl
fetched_reason (failed false) h = refl
fetched_reason (unread n) h = refl
fetched_reason (answered n s t) h = cc

-- A reason that is a cause is not empty.
request_failure-IsReport :
    (service : Text) (r : FetchResult)
    → is_cause r.reason ≡ true
    → IsReport service (request_failure service r)
unfolding request_failure is_explained is_cause text_eq result_reason
request_failure-IsReport service r h = reported refl (ground arith)

pub unless_failed-IsReport :
    {service : Text} (client : Client) (url : Text) (headers : Dict Text Text)
    {next : ServiceResult}
    → IsReport service next
    → IsReport service (unless_failed service (fetch client url headers) next)
unfolding unless_failed fetch
unless_failed-IsReport {service} client url headers {next} p =
    let answer = client url (set_headers headers ((text "User-Agent", browser_ua) ∷ [])) in
    elim (Bool-cases (fetched answer).ok) [
      | inl e ↦ rw e p
      | inr e ↦ rw e (request_failure-IsReport service (fetched answer) (fetched_reason answer e))
    ]

pub available-IsReport :
    (service region detail : Text) → IsReport service (verdict service available region detail)
unfolding verdict is_explained result_reason detail_reason is_cause text_eq contains has_prefix
    to_lower lower_code
available-IsReport service region detail = record { own_service = refl; explained = refl }

pub restricted-IsReport :
    (service region detail : Text) → IsReport service (verdict service restricted region detail)
unfolding verdict is_explained result_reason detail_reason is_cause text_eq contains has_prefix
    to_lower lower_code
restricted-IsReport service region detail = record { own_service = refl; explained = refl }

pub blocked-IsReport :
    (service region detail : Text) → IsReport service (verdict service blocked region detail)
unfolding verdict is_explained result_reason detail_reason is_cause text_eq contains has_prefix
    to_lower lower_code
blocked-IsReport service region detail = record { own_service = refl; explained = refl }

pub unknown_challenged-IsReport :
    (service : Text) → IsReport service (verdict service unknown [] (text "Cloudflare challenge"))
unfolding verdict is_explained result_reason detail_reason is_cause text_eq contains has_prefix
    to_lower lower_code
unknown_challenged-IsReport service = record { own_service = refl; explained = refl }

pub unknown_status-IsReport :
    (service : Text) → IsReport service (verdict service unknown [] (text "unexpected HTTP status"))
unfolding verdict is_explained result_reason detail_reason is_cause text_eq contains has_prefix
    to_lower lower_code
unknown_status-IsReport service = record { own_service = refl; explained = refl }

pub unknown_region-IsReport :
    (service : Text)
    → IsReport service (verdict service unknown [] (text "region not found in page"))
unfolding verdict is_explained result_reason detail_reason is_cause text_eq contains has_prefix
    to_lower lower_code
unknown_region-IsReport service = record { own_service = refl; explained = refl }

pub unknown_offer-IsReport :
    (service : Text)
    → IsReport service
        (verdict service unknown [] (text "neither offer nor refusal wording present"))
unfolding verdict is_explained result_reason detail_reason is_cause text_eq contains has_prefix
    to_lower lower_code
unknown_offer-IsReport service = record { own_service = refl; explained = refl }

pub unknown_destination-IsReport :
    (service : Text) → IsReport service (verdict service unknown [] (text "unexpected destination"))
unfolding verdict is_explained result_reason detail_reason is_cause text_eq contains has_prefix
    to_lower lower_code
unknown_destination-IsReport service = record { own_service = refl; explained = refl }

pub unknown_response-IsReport :
    (service : Text) → IsReport service (verdict service unknown [] (text "unexpected response"))
unfolding verdict is_explained result_reason detail_reason is_cause text_eq contains has_prefix
    to_lower lower_code
unknown_response-IsReport service = record { own_service = refl; explained = refl }

pub unknown_country-IsReport :
    (service : Text) → IsReport service (verdict service unknown [] (text "country not found"))
unfolding verdict is_explained result_reason detail_reason is_cause text_eq contains has_prefix
    to_lower lower_code
unknown_country-IsReport service = record { own_service = refl; explained = refl }

pub with_region-IsReport :
    {service : Text} (region : Option Text) {next : ServiceResult}
    → IsReport service next
    → IsReport service (with_region service region next)
unfolding with_region
with_region-IsReport none p = p
with_region-IsReport (some region) p = available-IsReport _ region []

pub by_status-IsReport : (service : Text) (r : FetchResult) → IsReport service (by_status service r)
unfolding by_status
by_status-IsReport service r =
    if-IsReport _ (available-IsReport service [] []) (unknown_status-IsReport service)

pub ruleset reports = (
  unless_failed-IsReport, if-IsReport, with_region-IsReport, by_status-IsReport, available-IsReport,
  restricted-IsReport, blocked-IsReport, unknown_challenged-IsReport, unknown_status-IsReport,
  unknown_region-IsReport, unknown_offer-IsReport, unknown_destination-IsReport,
  unknown_response-IsReport, unknown_country-IsReport,
)

-- `ResultReason` gives a reason exactly for the results whose status is unknown.
result_reason_empty :
    (r : ServiceResult) → is_empty (result_reason r) ≡ not (text_eq r.status unknown)
unfolding result_reason detail_reason
result_reason_empty r = ground arith
