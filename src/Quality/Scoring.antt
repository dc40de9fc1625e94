-- ===== src/Quality/Scoring.antt =====
-- internal/quality/scoring.go. float64 and its operations are those of Go: `F` stands for the type.
use vless_sub_server.Base.{ℕ, Bool, not, ◌==◌, if◌then◌else◌}
use vless_sub_server.Quality.Runtime.{Metrics}

pub record Float (F : Type 0) : Type 0 where
  -- `<`
  pub below : F → F → Bool
  pub plus : F → F → F
  pub minus : F → F → F
  pub times : F → F → F
  pub over : F → F → F
  -- `math.Log1p`
  pub log1p : F → F
  -- The number nearest to a fraction, for the constants.
  pub fraction : ℕ → ℕ → F

module _ {F : Type 0} (fl : Float F) where
  abbrev pub number : ℕ → F
  number n = fl.fraction n 1

  -- `DefaultScoringConfig().EWMAAlpha`
  abbrev pub default_alpha : F
  default_alpha = fl.fraction 35 100

  unfoldable pub ewma : F → F → Bool → F → F
  ewma previous current has_previous alpha =
      if not has_previous
      then current
      else fl.plus (fl.times alpha current) (fl.times (fl.minus (number 1) alpha) previous)

  unfoldable pub clamp : F → F → F → F
  clamp value min max =
      if fl.below value min then min else if fl.below max value then max else value

  -- The weighted sum of the four parts.
  unfoldable pub raw_score : Metrics F → F
  unfolding clamp
  raw_score m =
      let unit = λ (x : F). clamp x (number 0) (number 1) in
      let latency = unit (fl.over (fl.minus m.request_latency_ms (number 100)) (number 900)) in
      let failure = unit (fl.over m.failure_pct (number 100)) in
      let jitter = unit (fl.over m.jitter_ms (number 300)) in
      let bw =
        if m.bandwidth_fresh
        then fl.minus (number 1) (unit (fl.over (fl.log1p m.download_mbps) (fl.log1p (number 100))))
        else fl.fraction 5 10 in
      fl.times (number 100) (
        fl.plus
          (fl.plus
            (fl.plus (fl.times (fl.fraction 35 100) latency)
              (fl.times (fl.fraction 40 100) failure))
            (fl.times (fl.fraction 15 100) jitter))
          (fl.times (fl.fraction 10 100) bw))

  -- `Score`: the raw score and its moving average.
  unfoldable pub score : Metrics F → F → Bool → F → F × F
  unfolding ewma raw_score
  score m previous has_previous alpha =
      if not m.internet_reachable
      then (previous, previous)
      else if m.success_count == 0
      then (number 95, ewma previous (number 95) has_previous alpha)
      else (raw_score m, ewma previous (raw_score m) has_previous alpha)
