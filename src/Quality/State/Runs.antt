-- ===== src/Quality/State/Runs.antt =====
-- internal/quality/state.go over many refreshes: dying, the cooldown and recovery.
use vless_sub_server.Base.{
  ℕ, suc, ◌+◌, ◌≤◌, ◌<◌, ◌≡◌, refl, ◌↔◌, ◌⊎◌, ◌∙◌, List, [], ◌∷◌, All, arith,
}
use vless_sub_server.Base.Int.{pos}
use vless_sub_server.Base.Clock.{Time, within-eq-false_iff, max_duration}
use vless_sub_server.Quality.State.{
  State, healthy, degraded, dead, recovering, Observation, good, partial, blackhole, StateConfig,
  RuntimeState, transition,
}
use vless_sub_server.Quality.State.Laws.{IsValid, state_of, run}

-- How many of the observations are blackholes.
abbrev pub blackholes : List (Observation × Time) → ℕ
blackholes [] = 0
blackholes ((blackhole, now) ∷ seen) = suc (blackholes seen)
blackholes ((_, now) ∷ seen) = blackholes seen

-- The states in which a route is served and has not died.
abbrev pub IsServed : RuntimeState → Type 0
IsServed r = (r.state ≡ healthy) ⊎ (r.state ≡ degraded)

module _ (cfg : StateConfig) where
  dead_step :
      (r : RuntimeState) (o : Observation) (now : Time) (d : ℕ)
      → cfg.dead_cooldown ≡ pos d
      → d ≤ max_duration
      → r.state ≡ dead
      → (o ≡ good → now < r.dead_at + d)
      → ((transition r o now cfg).state ≡ dead) × ((transition r o now cfg).dead_at ≡ r.dead_at)
  unfolding transition
  dead_step r good now d e m s h = ground (arith, within-eq-false_iff now r.dead_at d m, h refl)
  dead_step r o now d e m s h = ground arith

  -- With a cooldown that is not negative, a dead route stays dead, with the time of its death,
  -- until a good observation comes at least the cooldown after it.
  run-dead :
      (r : RuntimeState) (seen : List (Observation × Time)) (d : ℕ)
      → cfg.dead_cooldown ≡ pos d
      → d ≤ max_duration
      → r.state ≡ dead
      → All (λ x. x.0 ≡ good → x.1 < r.dead_at + d) seen
      → ((run cfg r seen).state ≡ dead) × ((run cfg r seen).dead_at ≡ r.dead_at)
  run-dead r [] d e m s h = (s, refl)
  run-dead r ((o, now) ∷ seen) d e m s (h, hs) =
      let (s', same) = dead_step r o now d e m s h in
      let (still, kept) = run-dead (transition r o now cfg) seen d e m s' (rw same hs) in
      (still, kept ∙ same)

  -- With a cooldown that is not negative, from a dead route with a valid record, two good
  -- observations in a row bring it back to healthy exactly when the first comes at least the
  -- cooldown after its death.
  pub run-revives_iff :
      (r : RuntimeState) (t₁ t₂ : Time) (d : ℕ)
      → cfg.dead_cooldown ≡ pos d
      → d ≤ max_duration
      → IsValid r
      → r.state ≡ dead
      → ((run cfg r ((good, t₁) ∷ (good, t₂) ∷ [])).state ≡ healthy) ↔ (r.dead_at + d ≤ t₁)
  unfolding transition
  run-revives_iff r t₁ t₂ d e m v s = ground (arith, within-eq-false_iff t₁ r.dead_at d m)

  survive_at :
      (s : State) (b g t : ℕ) (o : Observation) (now : Time)
      → IsServed (state_of s b g t)
      → b + blackholes ((o, now) ∷ []) ≤ 1
      → IsServed (transition (state_of s b g t) o now cfg)
        × ((transition (state_of s b g t) o now cfg).consecutive_blackholes
            ≤ b + blackholes ((o, now) ∷ []))
  unfolding transition
  survive_at healthy b g t good now a h = ground arith
  survive_at s b g t o now a h = ground arith

  blackholes-cons :
      (o : Observation) (now : Time) (seen : List (Observation × Time))
      → blackholes ((o, now) ∷ seen) ≡ blackholes ((o, now) ∷ []) + blackholes seen
  blackholes-cons good now seen = omega arith
  blackholes-cons o now seen = omega arith

  -- A served route that has seen no blackhole, or sees no more of them, survives: its count of
  -- blackholes and those of the run together must reach two before it can die.
  run-IsServed :
      (seen : List (Observation × Time)) (r : RuntimeState)
      → IsServed r
      → r.consecutive_blackholes + blackholes seen ≤ 1
      → IsServed (run cfg r seen)
  run-IsServed [] r a h = a
  run-IsServed ((o, now) ∷ seen) r a h =
      let (a', fewer) =
        survive_at r.state r.consecutive_blackholes r.consecutive_good r.dead_at o now a
          (omega (arith, blackholes-cons o now seen)) in
      run-IsServed seen (transition r o now cfg) a'
        (omega (arith, fewer, blackholes-cons o now seen))

  -- A recovering route with a valid record becomes healthy again by a good observation, its blackholes
  -- still counted, so that a partial observation and one single blackhole kill it.
  pub run-recovered-dead :
      (r : RuntimeState) (t₁ t₂ t₃ : Time)
      → IsValid r
      → r.state ≡ recovering
      → ((run cfg r ((good, t₁) ∷ [])).state ≡ healthy)
        × ((run cfg r ((good, t₁) ∷ (partial, t₂) ∷ (blackhole, t₃) ∷ [])).state ≡ dead)
  unfolding transition
  run-recovered-dead r t₁ t₂ t₃ v s = ground arith
