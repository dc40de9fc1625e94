-- ===== src/Quality/State.antt =====
-- internal/quality/state.go: the health state machine of one route.
pub mod Laws
pub mod Runs
use vless_sub_server.Base.{ℕ, ◌+◌, ◌*◌, not, leb, if◌then◌else◌}
use vless_sub_server.Base.Int.{ℤ, pos}
use vless_sub_server.Base.Clock.{Time, Duration, within, minute}

-- `unset` is the zero value of the string type.
pub data State : Type 0 where
  unset healthy degraded dead recovering : State

pub data Observation : Type 0 where
  good partial blackhole : Observation

pub record StateConfig : Type 0 where
  pub dead_cooldown : Duration

abbrev pub default_state_config : StateConfig
default_state_config = record { dead_cooldown = pos (30 * minute) }

pub record RuntimeState : Type 0 where
  pub state : State
  pub consecutive_blackholes : ℕ
  pub consecutive_good : ℕ
  pub dead_at : Time

unfoldable pub from_healthy : RuntimeState → Observation → RuntimeState
from_healthy r good = record r { consecutive_blackholes = 0; consecutive_good = 0 }
from_healthy r partial = record r { state = degraded; consecutive_good = 0 }
from_healthy r blackhole = record r {
  state = degraded;
  consecutive_blackholes = r.consecutive_blackholes + 1;
  consecutive_good = 0;
}

unfoldable pub from_degraded : RuntimeState → Observation → Time → RuntimeState
from_degraded r good now =
    let n = r.consecutive_good + 1 in
    if leb 2 n
    then record r { state = healthy; consecutive_blackholes = 0; consecutive_good = 0 }
    else record r { consecutive_blackholes = 0; consecutive_good = n }
from_degraded r partial now = record r { consecutive_good = 0 }
from_degraded r blackhole now =
    let n = r.consecutive_blackholes + 1 in
    if leb 2 n
    then record r { state = dead; consecutive_blackholes = n; consecutive_good = 0; dead_at = now }
    else record r { consecutive_blackholes = n; consecutive_good = 0 }

unfoldable pub from_dead : RuntimeState → Observation → Time → StateConfig → RuntimeState
from_dead r good now cfg =
    if not (within now r.dead_at cfg.dead_cooldown)
    then record r { state = recovering; consecutive_good = 1 }
    else r
from_dead r _ now cfg = record r { consecutive_good = 0 }

unfoldable pub from_recovering : RuntimeState → Observation → Time → RuntimeState
from_recovering r good now =
    let n = r.consecutive_good + 1 in
    if leb 2 n
    then record r { state = healthy; consecutive_good = 0 }
    else record r { consecutive_good = n }
from_recovering r partial now = record r { state = degraded; consecutive_good = 0 }
from_recovering r blackhole now = record r { state = dead; consecutive_good = 0; dead_at = now }

-- The `switch r.State`.
unfoldable pub dispatch : State → RuntimeState → Observation → Time → StateConfig → RuntimeState
unfolding from_healthy from_degraded from_dead from_recovering
dispatch unset r o now cfg = r
dispatch healthy r o now cfg = from_healthy r o
dispatch degraded r o now cfg = from_degraded r o now
dispatch dead r o now cfg = from_dead r o now cfg
dispatch recovering r o now cfg = from_recovering r o now

-- `if r.State == "" { r.State = Healthy }`
unfoldable pub settle : State → State
settle unset = healthy
settle s = s

unfoldable pub transition : RuntimeState → Observation → Time → StateConfig → RuntimeState
unfolding dispatch settle
transition r o now cfg =
    let r' = record r { state = settle r.state } in dispatch r'.state r' o now cfg
