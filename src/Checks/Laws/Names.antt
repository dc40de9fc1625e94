-- ===== src/Checks/Laws/Names.antt =====
-- The services that the results of `CheckAll` are about.
use vless_sub_server.Base.{arith, ◌≡◌, refl, List, [], ◌∷◌, map, All}
use vless_sub_server.Base.Text.{text_eq}
use vless_sub_server.Base.Dict.{Distinct, Text-eq}
use vless_sub_server.Checks.{Client, Regexp, Checker, check_all}
use vless_sub_server.Checks.Ai.{as_checkers, ai_checkers, ai_catalog}
use vless_sub_server.Checks.All.{core_checkers, default_checkers}
use vless_sub_server.Checks.Laws.Reports.{Reports, default_checkers-Reports}
use vless_sub_server.Checks.More.{more_checkers}

service_names :
    (client : Client) (cs : List Checker)
    → All (Reports client) cs
    → map (λ r. r.service) (check_all client cs) ≡ map (λ c. c.name) cs
unfolding check_all
service_names client [] h = refl
service_names client (c ∷ cs) (p, h) = cc (p.own_service, service_names client cs h)

names-Distinct : (re : Regexp) → Distinct (map (λ c. c.name) (default_checkers re))
unfolding default_checkers core_checkers ai_checkers as_checkers ai_catalog more_checkers text_eq
names-Distinct re = ground arith

-- One run of `CheckAll` over `DefaultCheckers` gives one result for each probe, in the probes' order,
-- whatever the network answers, and no two of the results are of the same service.
check_all-services :
    (re : Regexp) (client : Client)
    → (map (λ r. r.service) (check_all client (default_checkers re))
        ≡ map (λ c. c.name) (default_checkers re))
      × Distinct (map (λ r. r.service) (check_all client (default_checkers re)))
check_all-services re client =
    let names = service_names client (default_checkers re) (default_checkers-Reports re client) in
    (names, rw names (names-Distinct re))
