-- ===== src/Checks/Laws/Failure.antt =====
-- What the probes report when no request gets through.
use vless_sub_server.Base.{◌≡◌, refl, false, [], ◌++◌, none, All-append, if◌then◌else◌, All}
use vless_sub_server.Base.Text.{Text, text, text_eq}
use vless_sub_server.Base.Dict.{Dict}
use vless_sub_server.Checks.{
  blocked, unknown, verdict, Client, Regexp, FetchResult, fetch, request_failure, unless_failed,
  Checker,
}
use vless_sub_server.Checks.Core.{
  chatgpt_web, chatgpt_app, gemini, youtube_premium, tiktok, claude, notebooklm, reddit,
  amazon_prime,
}
use vless_sub_server.Checks.Netflix.{netflix, netflix_verdict, netflix_title, netflix_region}
use vless_sub_server.Checks.Ai.{AiEndpoint, ai_endpoint, ai_catalog, as_checkers, ai_checkers}
use vless_sub_server.Checks.More.{
  google_captcha, youtube_music, twitch, spotify, deezer, reddit_guest, apple, steam, playstation,
  ookla, jetbrains, bing, more_checkers,
}
use vless_sub_server.Checks.All.{core_checkers, default_checkers}
use vless_sub_server.Pipeline.Cached.{ServiceResult}

-- Every request of this client fails, or its answer cannot be read.
abbrev pub IsCutOff : Client → Type 0
IsCutOff client = (url : Text) (headers : Dict Text Text) → (fetch client url headers).ok ≡ false

pub record FailsAs (status : Text) (r : ServiceResult) : Type 0 where
  pub its_status : r.status ≡ status
  pub no_region : r.region ≡ []

abbrev failure_status : Text → Text
failure_status name = if text_eq name (text "netflix") then blocked else unknown

abbrev pub Fails : Client → Checker → Type 0
Fails client c = FailsAs (failure_status c.name) (c.check client)

unless_failed-FailsAs :
    (service : Text) (r : FetchResult) (next : ServiceResult)
    → r.ok ≡ false
    → FailsAs unknown (unless_failed service r next)
unfolding unless_failed request_failure
unless_failed-FailsAs service r next e = rw e (record { its_status = refl; no_region = refl })

netflix_title_failed :
    (client : Client) (id : Text) → IsCutOff client → netflix_title client id ≡ none
unfolding netflix_title netflix_region
netflix_title_failed client id h = rw (h (text "https://www.netflix.com/title/" ++ id) []) refl

netflix-FailsAs : (client : Client) → IsCutOff client → FailsAs blocked (netflix client)
unfolding netflix netflix_verdict verdict
netflix-FailsAs client h = rw (netflix_title_failed client (text "70143836") h) (
    rw (netflix_title_failed client (text "80197526") h)
      (record { its_status = refl; no_region = refl }))

chatgpt_web-FailsAs : (client : Client) → IsCutOff client → FailsAs unknown (chatgpt_web client)
unfolding chatgpt_web
chatgpt_web-FailsAs client h = unless_failed-FailsAs _ _ _ (h _ _)

chatgpt_app-FailsAs : (client : Client) → IsCutOff client → FailsAs unknown (chatgpt_app client)
unfolding chatgpt_app
chatgpt_app-FailsAs client h = unless_failed-FailsAs _ _ _ (h _ _)

gemini-FailsAs :
    (re : Regexp) (client : Client) → IsCutOff client → FailsAs unknown (gemini re client)
unfolding gemini
gemini-FailsAs re client h = unless_failed-FailsAs _ _ _ (h _ _)

youtube_premium-FailsAs :
    (client : Client) → IsCutOff client → FailsAs unknown (youtube_premium client)
unfolding youtube_premium
youtube_premium-FailsAs client h = unless_failed-FailsAs _ _ _ (h _ _)

tiktok-FailsAs : (client : Client) → IsCutOff client → FailsAs unknown (tiktok client)
unfolding tiktok
tiktok-FailsAs client h = unless_failed-FailsAs _ _ _ (h _ _)

claude-FailsAs : (client : Client) → IsCutOff client → FailsAs unknown (claude client)
unfolding claude
claude-FailsAs client h = unless_failed-FailsAs _ _ _ (h _ _)

notebooklm-FailsAs : (client : Client) → IsCutOff client → FailsAs unknown (notebooklm client)
unfolding notebooklm
notebooklm-FailsAs client h = unless_failed-FailsAs _ _ _ (h _ _)

reddit-FailsAs :
    (re : Regexp) (client : Client) → IsCutOff client → FailsAs unknown (reddit re client)
unfolding reddit
reddit-FailsAs re client h = unless_failed-FailsAs _ _ _ (h _ _)

amazon_prime-FailsAs :
    (re : Regexp) (client : Client) → IsCutOff client → FailsAs unknown (amazon_prime re client)
unfolding amazon_prime
amazon_prime-FailsAs re client h = unless_failed-FailsAs _ _ _ (h _ _)

google_captcha-FailsAs :
    (re : Regexp) (client : Client) → IsCutOff client → FailsAs unknown (google_captcha re client)
unfolding google_captcha
google_captcha-FailsAs re client h = unless_failed-FailsAs _ _ _ (h _ _)

youtube_music-FailsAs : (client : Client) → IsCutOff client → FailsAs unknown (youtube_music client)
unfolding youtube_music
youtube_music-FailsAs client h = unless_failed-FailsAs _ _ _ (h _ _)

twitch-FailsAs : (client : Client) → IsCutOff client → FailsAs unknown (twitch client)
unfolding twitch
twitch-FailsAs client h = unless_failed-FailsAs _ _ _ (h _ _)

spotify-FailsAs : (client : Client) → IsCutOff client → FailsAs unknown (spotify client)
unfolding spotify
spotify-FailsAs client h = unless_failed-FailsAs _ _ _ (h _ _)

deezer-FailsAs :
    (re : Regexp) (client : Client) → IsCutOff client → FailsAs unknown (deezer re client)
unfolding deezer
deezer-FailsAs re client h = unless_failed-FailsAs _ _ _ (h _ _)

reddit_guest-FailsAs : (client : Client) → IsCutOff client → FailsAs unknown (reddit_guest client)
unfolding reddit_guest
reddit_guest-FailsAs client h = unless_failed-FailsAs _ _ _ (h _ _)

apple-FailsAs : (client : Client) → IsCutOff client → FailsAs unknown (apple client)
unfolding apple
apple-FailsAs client h = unless_failed-FailsAs _ _ _ (h _ _)

steam-FailsAs :
    (re : Regexp) (client : Client) → IsCutOff client → FailsAs unknown (steam re client)
unfolding steam
steam-FailsAs re client h = unless_failed-FailsAs _ _ _ (h _ _)

playstation-FailsAs : (client : Client) → IsCutOff client → FailsAs unknown (playstation client)
unfolding playstation
playstation-FailsAs client h = unless_failed-FailsAs _ _ _ (h _ _)

ookla-FailsAs : (client : Client) → IsCutOff client → FailsAs unknown (ookla client)
unfolding ookla
ookla-FailsAs client h = unless_failed-FailsAs _ _ _ (h _ _)

jetbrains-FailsAs : (client : Client) → IsCutOff client → FailsAs unknown (jetbrains client)
unfolding jetbrains
jetbrains-FailsAs client h = unless_failed-FailsAs _ _ _ (h _ _)

bing-FailsAs : (re : Regexp) (client : Client) → IsCutOff client → FailsAs unknown (bing re client)
unfolding bing
bing-FailsAs re client h = unless_failed-FailsAs _ _ _ (h _ _)

ai_endpoint-FailsAs :
    (e : AiEndpoint) (client : Client) → IsCutOff client → FailsAs unknown (ai_endpoint e client)
unfolding ai_endpoint
ai_endpoint-FailsAs e client h = unless_failed-FailsAs _ _ _ (h _ _)

core_checkers-Fails :
    (re : Regexp) (client : Client) → IsCutOff client → All (Fails client) (core_checkers re)
unfolding core_checkers text_eq
core_checkers-Fails re client h = (
  chatgpt_web-FailsAs client h,
  (
    chatgpt_app-FailsAs client h,
    (
      gemini-FailsAs re client h,
      (
        youtube_premium-FailsAs client h,
        (
          netflix-FailsAs client h,
          (
            tiktok-FailsAs client h,
            (
              claude-FailsAs client h,
              (
                notebooklm-FailsAs client h,
                (reddit-FailsAs re client h, (amazon_prime-FailsAs re client h, tt)),
              ),
            ),
          ),
        ),
      ),
    ),
  ),
)

ai_checkers-Fails : (client : Client) → IsCutOff client → All (Fails client) ai_checkers
unfolding ai_checkers as_checkers ai_catalog text_eq
ai_checkers-Fails client h =
    let f = λ (e : AiEndpoint). ai_endpoint-FailsAs e client h in
    (f _, (f _, (f _, (f _, (f _, (f _, (f _, (f _, tt))))))))

more_checkers-Fails :
    (re : Regexp) (client : Client) → IsCutOff client → All (Fails client) (more_checkers re)
unfolding more_checkers text_eq
more_checkers-Fails re client h = (
  google_captcha-FailsAs re client h,
  (
    youtube_music-FailsAs client h,
    (
      twitch-FailsAs client h,
      (
        spotify-FailsAs client h,
        (
          deezer-FailsAs re client h,
          (
            reddit_guest-FailsAs client h,
            (
              apple-FailsAs client h,
              (
                steam-FailsAs re client h,
                (
                  playstation-FailsAs client h,
                  (
                    ookla-FailsAs client h,
                    (jetbrains-FailsAs client h, (bing-FailsAs re client h, tt)),
                  ),
                ),
              ),
            ),
          ),
        ),
      ),
    ),
  ),
)

-- When every request fails, or its answer cannot be read, each probe of `DefaultCheckers` returns a
-- result without a region whose status is unknown, save the one of Netflix, which says blocked.
pub default_checkers-Fails :
    (re : Regexp) (client : Client) → IsCutOff client → All (Fails client) (default_checkers re)
unfolding default_checkers
default_checkers-Fails re client h =
    let P : Checker → Type 0 = Fails client in
    let core = core_checkers re in
    All-append P (core ++ ai_checkers) (more_checkers re)
      (All-append P core ai_checkers (core_checkers-Fails re client h) (ai_checkers-Fails client h))
      (more_checkers-Fails re client h)
