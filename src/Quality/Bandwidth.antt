-- ===== src/Quality/Bandwidth.antt =====
-- internal/quality/bandwidth.go: which routes get a bandwidth probe in this refresh.
pub mod Laws
use vless_sub_server.Base.{
  ℕ, zero, suc, ◌/◌, Bool, true, false, ◌&&◌, ◌||◌, not, List, [], ◌∷◌, Option, none, some, ltb,
  ◌==◌, if◌then◌else◌, differ, filter, take, length,
}
use vless_sub_server.Base.Int.{ℤ, pos, negsuc, ltb_ℤ}
use vless_sub_server.Base.Text.{text_ltb}
use vless_sub_server.Base.Clock.{Time, Duration, is_zero, within, minute}
use vless_sub_server.Base.Sort.{sort}
use vless_sub_server.Quality.State.{State, dead}
use vless_sub_server.Quality.Runtime.{Runtime}

pub record BandwidthConfig : Type 0 where
  pub bytes_per_probe : ℤ
  pub budget_bytes : ℤ
  pub refresh_after : Duration
  pub retry_after : Duration

abbrev pub is_dead : State → Bool
is_dead dead = true
is_dead s = false

-- Go's integer quotient, which rounds towards zero; `none` is the panic of a division by zero.
unfoldable pub minus : ℕ → ℤ
minus zero = pos 0
minus (suc n) = negsuc n

unfoldable pub quotient : ℤ → ℤ → Option ℤ
unfolding minus
quotient a (pos zero) = none
quotient (pos a) (pos (suc b)) = some (pos (a / suc b))
quotient (negsuc a) (pos (suc b)) = some (minus (suc a / suc b))
quotient (pos a) (negsuc b) = some (minus (a / suc b))
quotient (negsuc a) (negsuc b) = some (pos (suc a / suc b))

module _ {F : Type 0} where
  -- The two `continue`s of the loop.
  unfoldable pub is_eligible : Time → BandwidthConfig → Runtime F → Bool
  is_eligible now cfg r =
      if not r.reachable
        || (is_dead r.state
            || (not (is_zero r.last_bandwidth_attempt_at)
                && within now r.last_bandwidth_attempt_at cfg.retry_after))
      then false
      else if not (is_zero r.last_bandwidth_success_at)
          && within now r.last_bandwidth_success_at cfg.refresh_after
      then false
      else true

  -- The order of `sort.Slice`: never measured first, then the oldest measurement, then the key.
  unfoldable pub is_staler : Runtime F → Runtime F → Bool
  is_staler a b =
      if differ (is_zero a.last_bandwidth_success_at) (is_zero b.last_bandwidth_success_at)
      then is_zero a.last_bandwidth_success_at
      else if not (a.last_bandwidth_success_at == b.last_bandwidth_success_at)
      then ltb a.last_bandwidth_success_at b.last_bandwidth_success_at
      else text_ltb a.key b.key

  -- `if len(eligible) > max { eligible = eligible[:max] }`; a negative bound panics.
  unfoldable pub clip : ℤ → List (Runtime F) → Option (List (Runtime F))
  clip max eligible =
      if ltb_ℤ max (pos (length eligible))
      then (elim max [ pos n ↦ some (take n eligible) | negsuc n ↦ none ])
      else some eligible

  -- From `max := …` on.
  unfoldable pub choose : List (Runtime F) → BandwidthConfig → Option (List (Runtime F))
  choose eligible cfg = elim (quotient cfg.budget_bytes cfg.bytes_per_probe) [
    | none ↦ none
    | some max ↦ clip max eligible
  ]

  unfoldable pub select_bandwidth_candidates :
      List (Runtime F) → Time → BandwidthConfig → Option (List (Runtime F))
  unfolding choose
  select_bandwidth_candidates entries now cfg =
      choose (sort is_staler (filter (is_eligible now cfg) entries)) cfg
