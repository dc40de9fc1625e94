-- ===== src/Checks/More.antt =====
-- internal/servicecheck/more.go: the additional probes.
use vless_sub_server.Base.{◌||◌, List, [], ◌∷◌, ◌==◌, if◌then◌else◌}
use vless_sub_server.Base.Text.{Text, text, contains, to_lower}
use vless_sub_server.Checks.{
  available, blocked, unknown, verdict, Client, Regexp, FetchResult, fetch, unless_failed,
  is_success, Checker,
}
use vless_sub_server.Checks.Core.{accept_language, with_region}
use vless_sub_server.Pipeline.Cached.{ServiceResult}

-- The last tests of most probes.
unfoldable pub by_status : Text → FetchResult → ServiceResult
by_status service r =
    if is_success r.status
    then verdict service available [] []
    else verdict service unknown [] (text "unexpected HTTP status")

unfoldable pub google_captcha : Regexp → Client → ServiceResult
google_captcha re client =
    let service = text "google_captcha" in
    let r = fetch client (text "https://www.google.com/search?q=cats") (accept_language ∷ []) in
    unless_failed service r (
      if r.status == 429
        || re.match_string (text "(?i)unusual traffic from|is blocked|unaddressed abuse") r.body
      then verdict service blocked [] (text "IP flagged for abuse")
      else by_status service r)

unfoldable pub youtube_music : Client → ServiceResult
youtube_music client =
    let service = text "youtube_music" in
    let r = fetch client (text "https://music.youtube.com/") (accept_language ∷ []) in
    unless_failed service r (
      if contains (to_lower r.body) (text "not available in your country")
      then verdict service blocked [] (text "not offered in this country")
      else by_status service r)

unfoldable pub twitch : Client → ServiceResult
twitch client =
    let service = text "twitch" in
    let r = fetch client (text "https://www.twitch.tv/") (accept_language ∷ []) in
    unless_failed service r (
      if r.status == 403
      then verdict service blocked [] (text "forbidden")
      else by_status service r)

unfoldable pub spotify : Client → ServiceResult
spotify client =
    let service = text "spotify" in
    let r = fetch client (text "https://www.spotify.com/") (accept_language ∷ []) in
    unless_failed service r (
      if contains (to_lower r.body) (text "currently not available in your country")
      then verdict service blocked [] (text "not offered in this country")
      else by_status service r)

unfoldable pub deezer : Regexp → Client → ServiceResult
deezer re client =
    let service = text "deezer" in
    let r = fetch client (text "https://www.deezer.com/") (accept_language ∷ []) in
    let country = re.find_submatch (text "'country':\\s*'([^']*)'") r.body in
    unless_failed service r
      (with_region service country (verdict service unknown [] (text "country not found")))

unfoldable pub reddit_guest : Client → ServiceResult
reddit_guest client =
    let service = text "reddit_guest" in
    let r =
      fetch client (text "https://www.reddit.com/")
        ((text "Accept", text "text/html,*/*;q=0.8") ∷ []) in
    unless_failed service r (
      if r.status == 403
      then verdict service blocked [] (text "forbidden")
      else by_status service r)

unfoldable pub apple : Client → ServiceResult
apple client =
    let service = text "apple" in
    let r = fetch client (text "https://www.apple.com/shop/browse/home/") [] in
    unless_failed service r (by_status service r)

unfoldable pub steam : Regexp → Client → ServiceResult
steam re client =
    let service = text "steam" in
    let r = fetch client (text "https://store.steampowered.com/") [] in
    let country = re.find_submatch (text "steamCountry=([^%;]*)") r.body in
    unless_failed service r (with_region service country (by_status service r))

unfoldable pub playstation : Client → ServiceResult
playstation client =
    let service = text "playstation" in
    let r = fetch client (text "https://www.playstation.com/") [] in
    unless_failed service r (by_status service r)

unfoldable pub ookla : Client → ServiceResult
ookla client =
    let service = text "ookla" in
    let r = fetch client (text "https://www.speedtest.net/") [] in
    unless_failed service r (by_status service r)

unfoldable pub jetbrains : Client → ServiceResult
jetbrains client =
    let service = text "jetbrains" in
    let r = fetch client (text "https://www.jetbrains.com/") [] in
    unless_failed service r (by_status service r)

unfoldable pub bing : Regexp → Client → ServiceResult
bing re client =
    let service = text "bing" in
    let r = fetch client (text "https://www.bing.com/") (accept_language ∷ []) in
    let found = re.find_submatch (text "Region\\s*:\\s*\"([^\"]+)\"") r.body in
    unless_failed service r (with_region service found (by_status service r))

unfoldable pub more_checkers : Regexp → List Checker
more_checkers re =
    record { name = text "google_captcha"; check = google_captcha re }
    ∷ record { name = text "youtube_music"; check = youtube_music }
    ∷ record { name = text "twitch"; check = twitch }
    ∷ record { name = text "spotify"; check = spotify }
    ∷ record { name = text "deezer"; check = deezer re }
    ∷ record { name = text "reddit_guest"; check = reddit_guest }
    ∷ record { name = text "apple"; check = apple }
    ∷ record { name = text "steam"; check = steam re }
    ∷ record { name = text "playstation"; check = playstation }
    ∷ record { name = text "ookla"; check = ookla }
    ∷ record { name = text "jetbrains"; check = jetbrains }
    ∷ record { name = text "bing"; check = bing re }
    ∷ []
