-- ===== src/Fetch/Sources.antt =====
-- internal/fetch/source_cache.go: the last good lines of each source stand in for a fetch that fails
-- for the moment.
pub mod History
use vless_sub_server.Base.{
  ℕ, Bool, true, false, ◌&&◌, not, List, [], ◌∷◌, ◌++◌, Option, none, some, if◌then◌else◌,
}
use vless_sub_server.Base.Text.{Text, text, text_eq, has_prefix, is_empty}
use vless_sub_server.Base.Clock.{Time, Duration, at_most}
use vless_sub_server.Base.Dict.{Dict, lookup, insert, delete, Text-eq}

-- internal/fetch/fetch.go
pub record FetchResult : Type 0 where
  pub url : Text
  pub status : Text
  pub lines : List Text
  pub error : Text
  pub via : Text

pub record Snapshot : Type 0 where
  pub lines : List Text
  pub last_success : Time

abbrev pub Snapshots : Type 0
Snapshots = Dict Text Snapshot

pub record MergedSource : Type 0 where
  pub url : Text
  pub lines : List Text
  pub fetch_ok : Bool
  pub stale : Bool
  pub via_proxy : Bool

-- `MergedSource{URL: url}`
abbrev pub no_source : Text → MergedSource
no_source url = record { url = url; lines = []; fetch_ok = false; stale = false; via_proxy = false }

unfoldable pub is_ok : FetchResult → Bool
is_ok r = text_eq r.status (text "ok")

unfoldable pub is_authoritative_failure : Text → Bool
is_authoritative_failure err =
    has_prefix err (text "HTTP 4") && not (has_prefix err (text "HTTP 429"))

-- The case of a fetch that may be tried again: an old snapshot serves while it is young enough.
unfoldable pub fall_back : Time → Duration → FetchResult → Option Snapshot → MergedSource
fall_back now max_age r none = no_source r.url
fall_back now max_age r (some s) =
    if at_most now s.last_success max_age
    then record (no_source r.url) { lines = s.lines; stale = true }
    else no_source r.url

-- The case `result.Status == "ok"`, by the lines.
unfoldable pub accept : Time → FetchResult → List Text → Snapshots → Snapshots × MergedSource
accept now r [] m = (delete r.url m, record (no_source r.url) { fetch_ok = true })
accept now r (line ∷ lines) m = (
  insert r.url (record { lines = line ∷ lines; last_success = now }) m,
  record (no_source r.url) {
    lines = line ∷ lines;
    fetch_ok = true;
    via_proxy = not (is_empty r.via);
  },
)

-- One round of the loop of `MergeDetailed`.
unfoldable pub merge_one : Time → Duration → FetchResult → Snapshots → Snapshots × MergedSource
unfolding accept fall_back
merge_one now max_age r m =
    if is_ok r
    then accept now r r.lines m
    else if is_authoritative_failure r.error
    then (delete r.url m, no_source r.url)
    else (m, fall_back now max_age r (lookup r.url m))

unfoldable pub merge_detailed :
    Time → Duration → List FetchResult → Snapshots → Snapshots × List MergedSource
unfolding merge_one
merge_detailed now max_age [] m = (m, [])
merge_detailed now max_age (r ∷ rs) m =
    let (m', source) = merge_one now max_age r m in
    let (m'', sources) = merge_detailed now max_age rs m' in (m'', source ∷ sources)

-- The lines of the merged sources, one after another.
abbrev pub all_lines : List MergedSource → List Text
all_lines [] = []
all_lines (s ∷ ss) = s.lines ++ all_lines ss

pub merge : Time → Duration → List FetchResult → Snapshots → Snapshots × List Text
unfolding merge_detailed
merge now max_age rs m =
    let (m', sources) = merge_detailed now max_age rs m in (m', all_lines sources)
