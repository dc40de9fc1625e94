-- ===== src/Tests/Quality.antt =====
-- Tests of the state machine and of the choice of bandwidth probes.
use vless_sub_server.Base.{ℕ, ◌*◌, ◌≡◌, ◌≤◌, ◌↔◌, ◌+◌, refl, List, [], ◌∷◌, some, arith}
use vless_sub_server.Base.Int.{pos}
use vless_sub_server.Base.Text.{text}
use vless_sub_server.Base.Clock.{minute}
use vless_sub_server.Quality.State.{
  healthy, degraded, dead, recovering, good, partial, blackhole, RuntimeState, transition,
  default_state_config,
}
use vless_sub_server.Quality.State.Laws.{HasEdge, IsValid, state_of, run, transition-Edge}
use vless_sub_server.Quality.State.Runs.{run-revives_iff, run-recovered-dead}
use vless_sub_server.Quality.Bandwidth.{BandwidthConfig, select_bandwidth_candidates}
use vless_sub_server.Quality.Bandwidth.Laws.{IsConfigured, IsChoice, select-IsChoice}
use vless_sub_server.Quality.Runtime.{Runtime, Store}
use vless_sub_server.Tests.Values.{runtime}

-- Two blackholes kill a healthy route.
two_blackholes :
    (run default_state_config (state_of healthy 0 0 0) ((blackhole, 1) ∷ (blackhole, 2) ∷ [])).state
    ≡ dead
unfolding transition
two_blackholes = refl

abbrev died : RuntimeState
died = state_of dead 2 0 10

died-IsValid : IsValid died
died-IsValid = record {
  settled = ground arith;
  healthy_good = ground arith;
  degraded_good = ground arith;
  dead_good = ground arith;
  dead_blackholes = ground arith;
  recovering_good = ground arith;
  recovering_blackholes = ground arith;
}

abbrev coming_back : RuntimeState
coming_back = state_of recovering 2 1 10

coming_back-IsValid : IsValid coming_back
coming_back-IsValid = record {
  settled = ground arith;
  healthy_good = ground arith;
  degraded_good = ground arith;
  dead_good = ground arith;
  dead_blackholes = ground arith;
  recovering_good = ground arith;
  recovering_blackholes = ground arith;
}

transition-Edge_example : HasEdge default_state_config (state_of degraded 1 0 0) blackhole 5
transition-Edge_example = transition-Edge default_state_config (state_of degraded 1 0 0) blackhole 5

run-revives_iff_example :
    ((run default_state_config died ((good, 31 * minute) ∷ (good, 40 * minute) ∷ [])).state
      ≡ healthy)
    ↔ (10 + 30 * minute ≤ 31 * minute)
run-revives_iff_example =
    run-revives_iff default_state_config died (31 * minute) (40 * minute) (30 * minute) refl
      (ground arith) died-IsValid refl

run-recovered-dead_example :
    ((run default_state_config coming_back ((good, 1) ∷ [])).state ≡ healthy)
    × ((run default_state_config coming_back ((good, 1) ∷ (partial, 2) ∷ (blackhole, 3) ∷ [])).state
        ≡ dead)
run-recovered-dead_example =
    run-recovered-dead default_state_config coming_back 1 2 3 coming_back-IsValid refl

abbrev bandwidth : BandwidthConfig
bandwidth = record {
  bytes_per_probe = pos 4;
  budget_bytes = pos 9;
  refresh_after = pos 50;
  retry_after = pos 5;
}

bandwidth-IsConfigured : IsConfigured bandwidth 4 9 5 50
bandwidth-IsConfigured = record {
  sized = refl;
  some_bytes = ground arith;
  budgeted = refl;
  retried = refl;
  refreshed = refl;
  retry_fits = ground arith;
  refresh_fits = ground arith;
}

abbrev routes : List (Runtime ℕ)
routes = runtime (text "a") ∷ runtime (text "b") ∷ runtime (text "c") ∷ []

select-IsChoice_example :
    (chosen : List (Runtime ℕ)) × (rest : List (Runtime ℕ)) × (select_bandwidth_candidates routes
        100 bandwidth
      ≡ some chosen)
    × IsChoice 100 bandwidth bandwidth-IsConfigured routes chosen rest
select-IsChoice_example = select-IsChoice 100 bandwidth bandwidth-IsConfigured routes

abbrev store : Store ℕ
store = (text "a", runtime (text "a")) ∷ (text "b", runtime (text "b")) ∷ []
