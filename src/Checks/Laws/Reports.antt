-- ===== src/Checks/Laws/Reports.antt =====
-- What each probe reports: its own service, and a reason exactly when the status is unknown.
use vless_sub_server.Base.{List, [], ◌∷◌, ◌++◌, Option, none, some, All-append, All}
use vless_sub_server.Base.Text.{Text, text}
use vless_sub_server.Checks.{Client, Regexp, Checker}
use vless_sub_server.Checks.Core.{
  chatgpt_web, chatgpt_app, gemini, gemini_region, youtube_premium, tiktok, claude, notebooklm,
  reddit, amazon_prime,
}
use vless_sub_server.Checks.Netflix.{netflix, netflix_verdict}
use vless_sub_server.Checks.Ai.{AiEndpoint, ai_endpoint, ai_catalog, as_checkers, ai_checkers}
use vless_sub_server.Checks.More.{
  google_captcha, youtube_music, twitch, spotify, deezer, reddit_guest, apple, steam, playstation,
  ookla, jetbrains, bing, more_checkers,
}
use vless_sub_server.Checks.All.{core_checkers, default_checkers}
use vless_sub_server.Checks.Laws.{IsReport, reports}

chatgpt_web-IsReport : (client : Client) → IsReport (text "chatgpt_web") (chatgpt_web client)
unfolding chatgpt_web
chatgpt_web-IsReport client = search reports

chatgpt_app-IsReport : (client : Client) → IsReport (text "chatgpt_app") (chatgpt_app client)
unfolding chatgpt_app
chatgpt_app-IsReport client = search reports

gemini_region-IsReport : (region : Option Text) → IsReport (text "gemini") (gemini_region region)
unfolding gemini_region
gemini_region-IsReport none = search reports
gemini_region-IsReport (some region) = search reports

gemini-IsReport : (re : Regexp) (client : Client) → IsReport (text "gemini") (gemini re client)
unfolding gemini
gemini-IsReport re client = search (reports, gemini_region-IsReport)

youtube_premium-IsReport :
    (client : Client) → IsReport (text "youtube_premium") (youtube_premium client)
unfolding youtube_premium
youtube_premium-IsReport client = search reports

netflix_verdict-IsReport :
    (licensed original : Option Text)
    → IsReport (text "netflix") (netflix_verdict licensed original)
unfolding netflix_verdict
netflix_verdict-IsReport (some region) original = search reports
netflix_verdict-IsReport none (some region) = search reports
netflix_verdict-IsReport none none = search reports

netflix-IsReport : (client : Client) → IsReport (text "netflix") (netflix client)
unfolding netflix
netflix-IsReport client = netflix_verdict-IsReport _ _

tiktok-IsReport : (client : Client) → IsReport (text "tiktok") (tiktok client)
unfolding tiktok
tiktok-IsReport client = search reports

claude-IsReport : (client : Client) → IsReport (text "claude") (claude client)
unfolding claude
claude-IsReport client = search reports

notebooklm-IsReport : (client : Client) → IsReport (text "notebooklm") (notebooklm client)
unfolding notebooklm
notebooklm-IsReport client = search reports depth 8

reddit-IsReport : (re : Regexp) (client : Client) → IsReport (text "reddit") (reddit re client)
unfolding reddit
reddit-IsReport re client = search reports

amazon_prime-IsReport :
    (re : Regexp) (client : Client) → IsReport (text "amazon_prime") (amazon_prime re client)
unfolding amazon_prime
amazon_prime-IsReport re client = search reports

ai_endpoint-IsReport : (e : AiEndpoint) (client : Client) → IsReport e.id (ai_endpoint e client)
unfolding ai_endpoint
ai_endpoint-IsReport e client = search reports

google_captcha-IsReport :
    (re : Regexp) (client : Client) → IsReport (text "google_captcha") (google_captcha re client)
unfolding google_captcha
google_captcha-IsReport re client = search reports

youtube_music-IsReport : (client : Client) → IsReport (text "youtube_music") (youtube_music client)
unfolding youtube_music
youtube_music-IsReport client = search reports

twitch-IsReport : (client : Client) → IsReport (text "twitch") (twitch client)
unfolding twitch
twitch-IsReport client = search reports

spotify-IsReport : (client : Client) → IsReport (text "spotify") (spotify client)
unfolding spotify
spotify-IsReport client = search reports

reddit_guest-IsReport : (client : Client) → IsReport (text "reddit_guest") (reddit_guest client)
unfolding reddit_guest
reddit_guest-IsReport client = search reports

apple-IsReport : (client : Client) → IsReport (text "apple") (apple client)
unfolding apple
apple-IsReport client = search reports

playstation-IsReport : (client : Client) → IsReport (text "playstation") (playstation client)
unfolding playstation
playstation-IsReport client = search reports

ookla-IsReport : (client : Client) → IsReport (text "ookla") (ookla client)
unfolding ookla
ookla-IsReport client = search reports

jetbrains-IsReport : (client : Client) → IsReport (text "jetbrains") (jetbrains client)
unfolding jetbrains
jetbrains-IsReport client = search reports

deezer-IsReport : (re : Regexp) (client : Client) → IsReport (text "deezer") (deezer re client)
unfolding deezer
deezer-IsReport re client = search reports

steam-IsReport : (re : Regexp) (client : Client) → IsReport (text "steam") (steam re client)
unfolding steam
steam-IsReport re client = search reports

bing-IsReport : (re : Regexp) (client : Client) → IsReport (text "bing") (bing re client)
unfolding bing
bing-IsReport re client = search reports

abbrev pub Reports : Client → Checker → Type 0
Reports client c = IsReport c.name (c.check client)

core_checkers-Reports : (re : Regexp) (client : Client) → All (Reports client) (core_checkers re)
unfolding core_checkers
core_checkers-Reports re client = (
  chatgpt_web-IsReport client,
  (
    chatgpt_app-IsReport client,
    (
      gemini-IsReport re client,
      (
        youtube_premium-IsReport client,
        (
          netflix-IsReport client,
          (
            tiktok-IsReport client,
            (
              claude-IsReport client,
              (
                notebooklm-IsReport client,
                (reddit-IsReport re client, (amazon_prime-IsReport re client, tt)),
              ),
            ),
          ),
        ),
      ),
    ),
  ),
)

as_checkers-Reports :
    (es : List AiEndpoint) (client : Client) → All (Reports client) (as_checkers es)
unfolding as_checkers
as_checkers-Reports [] client = tt
as_checkers-Reports (e ∷ es) client = (ai_endpoint-IsReport e client, as_checkers-Reports es client)

more_checkers-Reports : (re : Regexp) (client : Client) → All (Reports client) (more_checkers re)
unfolding more_checkers
more_checkers-Reports re client = (
  google_captcha-IsReport re client,
  (
    youtube_music-IsReport client,
    (
      twitch-IsReport client,
      (
        spotify-IsReport client,
        (
          deezer-IsReport re client,
          (
            reddit_guest-IsReport client,
            (
              apple-IsReport client,
              (
                steam-IsReport re client,
                (
                  playstation-IsReport client,
                  (
                    ookla-IsReport client,
                    (jetbrains-IsReport client, (bing-IsReport re client, tt)),
                  ),
                ),
              ),
            ),
          ),
        ),
      ),
    ),
  ),
)

-- Each probe of `DefaultCheckers`, whatever the network answers, returns a result that carries the
-- probe's own name as its service; the reason of the result is one of the five causes (challenge,
-- unexpected status, parse error, transport, timeout) if its status is unknown, and empty otherwise.
pub default_checkers-Reports :
    (re : Regexp) (client : Client) → All (Reports client) (default_checkers re)
unfolding default_checkers ai_checkers
default_checkers-Reports re client =
    let core = core_checkers re in
    let ai = as_checkers ai_catalog in
    let P : Checker → Type 0 = Reports client in
    All-append P (core ++ ai) (more_checkers re)
      (All-append P core ai (core_checkers-Reports re client)
        (as_checkers-Reports ai_catalog client))
      (more_checkers-Reports re client)
