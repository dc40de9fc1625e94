-- ===== src/Checks/Netflix.antt =====
-- internal/servicecheck/servicecheck.go: the probe of Netflix, which asks for two titles.
use vless_sub_server.Base.{
  ℕ, ◌||◌, not, [], ◌∷◌, ◌++◌, Option, none, some, ◌==◌, leb, ltb, if◌then◌else◌,
}
use vless_sub_server.Base.Text.{Text, text, is_empty, text_eq, to_upper, has_prefix}
use vless_sub_server.Checks.{available, restricted, blocked, verdict, Client, FetchResult, fetch}
use vless_sub_server.Parse.Query.{byte_length}
use vless_sub_server.Pipeline.Cached.{ServiceResult}

-- `strings.TrimPrefix`
abbrev drop_prefix : Text → Text → Text
drop_prefix s [] = s
drop_prefix [] (p ∷ ps) = []
drop_prefix (c ∷ s) (p ∷ ps) = drop_prefix s ps

unfoldable pub trim_prefix : Text → Text → Text
trim_prefix s prefix = if has_prefix s prefix then drop_prefix s prefix else s

-- The part before the first separator, for `strings.SplitN(s, sep, 2)[0]` and `strings.Cut`.
unfoldable pub before : ℕ → Text → Text
before sep [] = []
before sep (c ∷ s) = let rest = before sep s in if c == sep then [] else c ∷ rest

-- The text is the region; `none` for `"", false`.
unfoldable pub netflix_region : FetchResult → Option Text
unfolding trim_prefix before byte_length
netflix_region r =
    let segment = before b'/' (trim_prefix r.final_url (text "https://www.netflix.com/")) in
    let locale = before b'-' segment in
    if not r.ok || (r.status == 404 || (ltb r.status 200 || leb 400 r.status))
    then none
    else if is_empty r.final_url
    then none
    else if is_empty segment
    then none
    else if text_eq segment (text "title")
    then some (text "US")
    else if not (byte_length locale == 2)
    then none
    else some (to_upper locale)

unfoldable pub netflix_title : Client → Text → Option Text
unfolding netflix_region
netflix_title client id =
    netflix_region (fetch client (text "https://www.netflix.com/title/" ++ id) [])

unfoldable pub netflix_verdict : Option Text → Option Text → ServiceResult
netflix_verdict (some region) original =
    verdict (text "netflix") available region (text "full catalogue")
netflix_verdict none (some region) =
    verdict (text "netflix") restricted region (text "originals only")
netflix_verdict none none = verdict (text "netflix") blocked [] (text "not available")

unfoldable pub netflix : Client → ServiceResult
unfolding netflix_title netflix_verdict
netflix client =
    netflix_verdict (netflix_title client (text "70143836"))
      (netflix_title client (text "80197526"))
