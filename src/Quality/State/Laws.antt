-- ===== src/Quality/State/Laws.antt =====
-- internal/quality/state.go: which moves the state machine makes, and what its counters promise.
use vless_sub_server.Base.{
  ℕ, zero, suc, ◌+◌, ◌≤◌, ◌≡◌, refl, ◌≢◌, inl, inr, List, [], ◌∷◌, arith, true, false, Bool-cases,
  leb,
}
use vless_sub_server.Base.Clock.{Time, within}
use vless_sub_server.Quality.State.{
  State, unset, healthy, degraded, dead, recovering, Observation, good, partial, blackhole,
  StateConfig, RuntimeState, transition, settle,
}

-- The diagram of the design document, with the condition of each edge.
pub data Edge (r r' : RuntimeState) (now : Time) (cfg : StateConfig)
    : State → Observation → State → Type 0 where
  keep_healthy : Edge r r' now cfg healthy good healthy
  slip : Edge r r' now cfg healthy partial degraded
  fall : Edge r r' now cfg healthy blackhole degraded
  first_good : r.consecutive_good ≡ 0 → Edge r r' now cfg degraded good degraded
  second_good : 1 ≤ r.consecutive_good → Edge r r' now cfg degraded good healthy
  stay_degraded : Edge r r' now cfg degraded partial degraded
  first_blackhole : r.consecutive_blackholes ≡ 0 → Edge r r' now cfg degraded blackhole degraded
  die : 1 ≤ r.consecutive_blackholes → r'.dead_at ≡ now → Edge r r' now cfg degraded blackhole dead
  too_early :
      within now r.dead_at cfg.dead_cooldown ≡ true
      → r'.dead_at ≡ r.dead_at
      → Edge r r' now cfg dead good dead
  revive : within now r.dead_at cfg.dead_cooldown ≡ false → Edge r r' now cfg dead good recovering
  stay_dead : {o : Observation} → o ≢ good → r'.dead_at ≡ r.dead_at → Edge r r' now cfg dead o dead
  recover : 1 ≤ r.consecutive_good → Edge r r' now cfg recovering good healthy
  still_recovering : r.consecutive_good ≡ 0 → Edge r r' now cfg recovering good recovering
  relapse : Edge r r' now cfg recovering partial degraded
  relapse_dead : r'.dead_at ≡ now → Edge r r' now cfg recovering blackhole dead

-- What the counters mean in each state that `transition` can leave behind.
pub record IsValid (r : RuntimeState) : Type 0 where
  pub settled : r.state ≢ unset
  pub healthy_good : r.state ≡ healthy → r.consecutive_good ≡ 0
  pub degraded_good : r.state ≡ degraded → r.consecutive_good ≤ 1
  pub dead_good : r.state ≡ dead → r.consecutive_good ≡ 0
  pub dead_blackholes : r.state ≡ dead → 2 ≤ r.consecutive_blackholes
  pub recovering_good : r.state ≡ recovering → r.consecutive_good ≡ 1
  pub recovering_blackholes : r.state ≡ recovering → 2 ≤ r.consecutive_blackholes

two_le : (g : ℕ) → leb 2 (suc g + 1) ≡ true
two_le g = ground arith

abbrev pub state_of : State → ℕ → ℕ → Time → RuntimeState
state_of s b g d = record {
  state = s;
  consecutive_blackholes = b;
  consecutive_good = g;
  dead_at = d;
}

module _ (cfg : StateConfig) where
  -- One clause for each state and observation.
  abbrev pub HasEdge : RuntimeState → Observation → Time → Type 0
  HasEdge r o now = let r' = transition r o now cfg in Edge r r' now cfg (settle r.state) o r'.state

  edge_at :
      (s : State) (b g : ℕ) (d : Time) (o : Observation) (now : Time)
      → HasEdge (state_of s b g d) o now
  unfolding transition
  edge_at unset b g d good now = keep_healthy
  edge_at unset b g d partial now = slip
  edge_at unset b g d blackhole now = fall
  edge_at healthy b g d good now = keep_healthy
  edge_at healthy b g d partial now = slip
  edge_at healthy b g d blackhole now = fall
  edge_at degraded b zero d good now = first_good refl
  edge_at degraded b (suc g) d good now = rw two_le (second_good (omega arith))
  edge_at degraded b g d partial now = stay_degraded
  edge_at degraded zero g d blackhole now = first_blackhole refl
  edge_at degraded (suc b) g d blackhole now = rw two_le (die (omega arith) refl)
  edge_at dead b g d good now = elim (Bool-cases (within now d cfg.dead_cooldown)) [
    | inl early ↦ rw early (too_early early refl)
    | inr late ↦ rw late (revive late)
  ]
  edge_at dead b g d partial now = stay_dead (cc) refl
  edge_at dead b g d blackhole now = stay_dead (cc) refl
  edge_at recovering b zero d good now = still_recovering refl
  edge_at recovering b (suc g) d good now = rw two_le (recover (omega arith))
  edge_at recovering b g d partial now = relapse
  edge_at recovering b g d blackhole now = relapse_dead refl

  -- Every call makes a move of the diagram, under that move's condition.
  pub transition-Edge : (r : RuntimeState) (o : Observation) (now : Time) → HasEdge r o now
  transition-Edge r o now =
      edge_at r.state r.consecutive_blackholes r.consecutive_good r.dead_at o now

  transition_at-IsValid :
      (s : State) (b g : ℕ) (d : Time) (o : Observation) (now : Time)
      → IsValid (state_of s b g d)
      → IsValid (transition (state_of s b g d) o now cfg)
  unfolding transition
  transition_at-IsValid unset b g d o now v = absurd (v.settled refl)
  transition_at-IsValid dead b g d good now v = ground arith
  transition_at-IsValid s b g d o now v = ground arith

  -- A runtime state whose counters are right for its state stays so.
  pub transition-IsValid :
      (r : RuntimeState) (o : Observation) (now : Time)
      → IsValid r
      → IsValid (transition r o now cfg)
  transition-IsValid r o now v =
      transition_at-IsValid r.state r.consecutive_blackholes r.consecutive_good r.dead_at o now v

  -- A run of the refreshes: what each saw, and when.
  abbrev pub run : RuntimeState → List (Observation × Time) → RuntimeState
  run r [] = r
  run r ((o, now) ∷ seen) = run (transition r o now cfg) seen
