-- ===== src/Checks/All.antt =====
-- internal/servicecheck/servicecheck.go: the probes in the order of display.
use vless_sub_server.Base.{List, [], ◌∷◌, ◌++◌}
use vless_sub_server.Base.Text.{text}
use vless_sub_server.Checks.{Regexp, Checker}
use vless_sub_server.Checks.Core.{
  chatgpt_web, chatgpt_app, gemini, youtube_premium, tiktok, claude, notebooklm, reddit,
  amazon_prime,
}
use vless_sub_server.Checks.Netflix.{netflix}
use vless_sub_server.Checks.Ai.{ai_checkers}
use vless_sub_server.Checks.More.{more_checkers}

unfoldable pub core_checkers : Regexp → List Checker
core_checkers re =
    record { name = text "chatgpt_web"; check = chatgpt_web }
    ∷ record { name = text "chatgpt_app"; check = chatgpt_app }
    ∷ record { name = text "gemini"; check = gemini re }
    ∷ record { name = text "youtube_premium"; check = youtube_premium }
    ∷ record { name = text "netflix"; check = netflix }
    ∷ record { name = text "tiktok"; check = tiktok }
    ∷ record { name = text "claude"; check = claude }
    ∷ record { name = text "notebooklm"; check = notebooklm }
    ∷ record { name = text "reddit"; check = reddit re }
    ∷ record { name = text "amazon_prime"; check = amazon_prime re }
    ∷ []

unfoldable pub default_checkers : Regexp → List Checker
unfolding core_checkers
default_checkers re = (core_checkers re ++ ai_checkers) ++ more_checkers re
