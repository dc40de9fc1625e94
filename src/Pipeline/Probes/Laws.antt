-- ===== src/Pipeline/Probes/Laws.antt =====
-- internal/pipeline/pipeline.go: what always holds of the runtimes and of the country evidence.
use vless_sub_server.Base.{
  ◌*◌, ◌≤◌, ◌≡◌, ◌≢◌, ◌⊎◌, ◌↔◌, refl, sym, subst, ap, ◌∙◌, Bool, true, false, ◌||◌, not, Option,
  none, some, arith, Option-cases, Bool-cases, inl, inr, if◌then◌else◌,
}
use vless_sub_server.Base.Text.{Text, text_eq}
use vless_sub_server.Base.Text.Laws.{text_eq_iff}
use vless_sub_server.Base.Clock.{Time, Duration}
use vless_sub_server.Base.Dict.{Dict, lookup, insert, lookup-insert, lookup-insert_self, Text-eq}
use vless_sub_server.Country.Evidence.{RouteCountries, no_countries, no_evidence, valid, apply}
use vless_sub_server.Country.Evidence as Country
use vless_sub_server.Country.Evidence.Stable.{IsWell, observe-IsWell}
use vless_sub_server.Quality.State.{Observation, good, blackhole, transition, default_state_config}
use vless_sub_server.Quality.State.Laws as State
use vless_sub_server.Quality.State.Laws.{transition-IsValid, transition-Edge, HasEdge}
use vless_sub_server.Quality.Runtime.{Metrics, Runtime, Store, set, get}
use vless_sub_server.Quality.Scoring.{Float}
use vless_sub_server.Pipeline.Probes.{
  ExitProbeResult, Memory, evidence, remember, judge, recall, old_state, probe_metrics, has_warp,
  rescore, take_probe, next_runtime, update_runtime,
}

pub record AreWell (c : RouteCountries) : Type 0 where
  pub direct_v4 : IsWell c.direct_v4
  pub direct_v6 : IsWell c.direct_v6
  pub warp_v4 : IsWell c.warp_v4
  pub warp_v6 : IsWell c.warp_v6

-- A runtime that may stand in the store under `key`.
pub record IsRuntime {F : Type 0} (key : Text) (r : Runtime F) : Type 0 where
  pub named : r.key ≡ key
  pub state : r.state ≡ r.state_data.state
  pub state_data : State.IsValid r.state_data
  pub reachable : r.reachable ≡ (r.direct_healthy || r.warp_healthy)
  pub scored : r.direct_healthy ≡ true → r.has_score ≡ true
  pub countries : AreWell r.countries

-- The store holds such runtimes, and the durable evidence is that of the runtimes.
pub record IsValid {F : Type 0} (m : Memory F) : Type 0 where
  pub runtimes : (key : Text) (r : Runtime F) → get key m.runtime ≡ some r → IsRuntime key r
  pub durable : (key : Text) → AreWell (evidence key m.country_state)
  pub mirrored :
      (key : Text) (r : Runtime F) (d : Dict Text RouteCountries)
      → get key m.runtime ≡ some r
      → m.country_state ≡ some d
      → lookup key d ≡ some r.countries

-- Evidence that is well on both sides of a test.
either-AreWell :
    (b : Bool) (c d : RouteCountries) → AreWell c → AreWell d → AreWell (if b then c else d)
either-AreWell true c d v w = v
either-AreWell false c d v w = w

pub apply-AreWell :
    (c : RouteCountries) (warp : Bool) (o : Country.Observation) (now : Time)
    → AreWell c
    → AreWell (apply c warp o now)
unfolding apply
apply-AreWell c warp o now w = either-AreWell (not (valid o)) _ _ w (
    either-AreWell warp _ _
      (either-AreWell (Country.is_4 o.ip) _ _
        (record {
          direct_v4 = w.direct_v4;
          direct_v6 = w.direct_v6;
          warp_v4 = observe-IsWell c.warp_v4 o now w.warp_v4;
          warp_v6 = w.warp_v6;
        })
        (record {
          direct_v4 = w.direct_v4;
          direct_v6 = w.direct_v6;
          warp_v4 = w.warp_v4;
          warp_v6 = observe-IsWell c.warp_v6 o now w.warp_v6;
        }))
      (either-AreWell (Country.is_4 o.ip) _ _
        (record {
          direct_v4 = observe-IsWell c.direct_v4 o now w.direct_v4;
          direct_v6 = w.direct_v6;
          warp_v4 = w.warp_v4;
          warp_v6 = w.warp_v6;
        })
        (record {
          direct_v4 = w.direct_v4;
          direct_v6 = observe-IsWell c.direct_v6 o now w.direct_v6;
          warp_v4 = w.warp_v4;
          warp_v6 = w.warp_v6;
        })))

-- What a lookup after `set` has found.
stored :
    {F : Type 0} (r : Runtime F) (k : Text) (q : Runtime F) (s : Store F)
    → get k (set r s) ≡ some q
    → ((r.key ≡ k) × (r ≡ q)) ⊎ ((text_eq r.key k ≡ false) × (get k s ≡ some q))
stored r k q s h = elim (Bool-cases (text_eq r.key k)) [
  | inl here ↦ inl ((text_eq_iff r.key k).0 here, ground (arith, lookup-insert r.key k r s))
  | inr other ↦ inr (other, ground (arith, lookup-insert r.key k r s))
]

remembered :
    (key k : Text) (c : RouteCountries) (o : Option (Dict Text RouteCountries))
    → AreWell c
    → AreWell (evidence k o)
    → AreWell (evidence k (remember key c o))
unfolding remember evidence
remembered key k c none w v = v
remembered key k c (some d) w v =
    rw (evidence, lookup-insert key k c d)
      (elim (Bool-cases (text_eq key k)) [ inl here ↦ rw here w | inr other ↦ rw other v ])

remember-some :
    (key : Text) (c : RouteCountries) (o : Option (Dict Text RouteCountries))
    (d : Dict Text RouteCountries)
    → remember key c o ≡ some d
    → (d0 : Dict Text RouteCountries) × (o ≡ some d0) × (insert key c d0 ≡ d)
unfolding remember
remember-some key c none d h = absurd (ground arith)
remember-some key c (some d0) d h = (d0, refl, cc)

module _ {F : Type 0} (fl : Float F) where
  recall-AreWell : (key : Text) (m : Memory F) → IsValid m → AreWell (recall fl key m).countries
  unfolding recall
  recall-AreWell key m v = elim (Option-cases (get key m.runtime)) [
    | inl new ↦ rw (recall, new) (v.durable key)
    | inr (r, old) ↦ rw (recall, old) (v.runtimes key r old).countries
  ]

  old_state-IsValid : (key : Text) (m : Memory F) → IsValid m → State.IsValid (old_state fl key m)
  unfolding old_state
  old_state-IsValid key m v = elim (Option-cases (get key m.runtime)) [
    | inl new ↦
        rw (old_state, new)
          (record {
            settled = ground arith;
            healthy_good = ground arith;
            degraded_good = ground arith;
            dead_good = ground arith;
            dead_blackholes = ground arith;
            recovering_good = ground arith;
            recovering_blackholes = ground arith;
          })
    | inr (r, old) ↦ rw (old_state, old) (v.runtimes key r old).state_data
  ]

  take_probe-IsRuntime :
      (now : Time) (p : Option (ExitProbeResult F)) (key : Text) (r : Runtime F)
      → IsRuntime key r
      → IsRuntime key (take_probe fl now p r)
  unfolding take_probe
  take_probe-IsRuntime now none key r v = v
  take_probe-IsRuntime now (some p) key r v = record {
    named = v.named;
    state = v.state;
    state_data = v.state_data;
    reachable = v.reachable;
    scored = v.scored;
    countries =
        apply-AreWell (apply r.countries false p.direct_country now) true p.warp_country now
          (apply-AreWell r.countries false p.direct_country now v.countries);
  }

  -- The block leaves a runtime as it should be, that may lack a score only before it.
  rescore-IsRuntime :
      (d : Duration) (now : Time) (previous : Runtime F) (metrics : Metrics F) (key : Text)
      (r : Runtime F)
      → r.key ≡ key
      → r.state ≡ r.state_data.state
      → State.IsValid r.state_data
      → r.reachable ≡ (r.direct_healthy || r.warp_healthy)
      → r.direct_healthy ≡ metrics.internet_reachable
      → AreWell r.countries
      → IsRuntime key (rescore fl d now previous metrics r)
  unfolding rescore
  rescore-IsRuntime d now previous metrics key r a b c e f g =
      elim (Bool-cases metrics.internet_reachable) [
        | inl up ↦ rw up (record {
          named = a;
          state = b;
          state_data = c;
          reachable = e;
          scored = λ h. refl;
          countries = g;
        })
        | inr down ↦ rw down (record {
          named = a;
          state = b;
          state_data = c;
          reachable = e;
          scored = λ h. absurd (ground arith);
          countries = g;
        })
      ]

  next_runtime-IsRuntime :
      (d : Duration) (key : Text) (p : Option (ExitProbeResult F)) (now : Time) (m : Memory F)
      → IsValid m
      → IsRuntime key (next_runtime fl d key p now m)
  unfolding next_runtime
  next_runtime-IsRuntime d key p now m v = take_probe-IsRuntime now p key _ (
      rescore-IsRuntime d now (recall fl key m) (probe_metrics fl p) key _ refl refl
        (transition-IsValid default_state_config (old_state fl key m) _ now
          (old_state-IsValid key m v))
        refl refl (recall-AreWell key m v))

  -- Storing a runtime under its key, and its countries with it.
  store-IsValid :
      (key : Text) (r : Runtime F) (m : Memory F)
      → IsValid m
      → IsRuntime key r
      → IsValid (record {
        runtime = set r m.runtime;
        country_state = remember key r.countries m.country_state;
      })
  unfolding remember
  store-IsValid key r m v w = record {
    runtimes = λ k q h. elim (stored r k q m.runtime h) [
      | inl (here, same) ↦
          subst (IsRuntime k) same (subst (λ j. IsRuntime j r) (sym w.named ∙ here) w)
      | inr (other, old) ↦ v.runtimes k q old
    ];
    durable = λ k. remembered key k r.countries m.country_state w.countries (v.durable k);
    mirrored = λ k q d h e.
        let (d0, before, after) = remember-some key r.countries m.country_state d e in
        subst (λ dict. lookup k dict ≡ some q.countries) after
          (elim (stored r k q m.runtime h) [
            | inl (here, same) ↦
                subst (λ j. lookup k (insert j r.countries d0) ≡ some q.countries)
                  (sym here ∙ w.named)
                  (lookup-insert_self k r.countries d0 ∙ ap (λ t. some t.countries) same)
            | inr (other, old) ↦
                rw
                  (
                    lookup-insert key k r.countries d0,
                    subst (λ j. text_eq j k ≡ false) w.named other,
                  )
                  (v.mirrored k q d0 old before)
          ]);
  }

  -- Every probe keeps the memory as it should be: each runtime stands under its own key, in the
  -- state of its state machine, whose counters are right; it is reachable exactly if one of its
  -- routes is up, has a score if the direct one is, and its country evidence is coherent and is the
  -- durable one.
  pub update_runtime-IsValid :
      (d : Duration) (key : Text) (p : Option (ExitProbeResult F)) (now : Time) (m : Memory F)
      → IsValid m
      → IsValid (update_runtime fl d key p now m)
  unfolding update_runtime
  update_runtime-IsValid d key p now m v =
      store-IsValid key (next_runtime fl d key p now m) m v (next_runtime-IsRuntime d key p now m v)

  next_runtime-state_data :
      (d : Duration) (key : Text) (p : Option (ExitProbeResult F)) (now : Time) (m : Memory F)
      → (next_runtime fl d key p now m).state_data
        ≡ transition
            (old_state fl key m)
            (judge (probe_metrics fl p) (probe_metrics fl p).internet_reachable (has_warp fl p))
            now
            default_state_config
  unfolding next_runtime take_probe rescore
  next_runtime-state_data d key none now m = ground arith
  next_runtime-state_data d key (some p) now m = ground arith

  -- What a probe is taken for: good needs a sample, and four of five samples to succeed; a
  -- blackhole is a probe that is not good, while neither route is up.
  pub record IsJudged (p : Option (ExitProbeResult F)) (o : Observation) : Type 0 where
    pub good_if : (o ≡ good) ↔ (
        (1 ≤ (probe_metrics fl p).sample_count)
        × ((probe_metrics fl p).sample_count * 4 ≤ (probe_metrics fl p).success_count * 5))
    pub lost_if :
        (o ≡ blackhole)
        ↔ ((o ≢ good) × ((probe_metrics fl p).internet_reachable ≡ false) × (has_warp fl p ≡ false))

  judge-IsJudged :
      (p : Option (ExitProbeResult F))
      → IsJudged p
          (judge (probe_metrics fl p) (probe_metrics fl p).internet_reachable (has_warp fl p))
  unfolding judge
  judge-IsJudged p = record { good_if = ground arith; lost_if = ground arith }

  -- In a memory as it should be, a probe makes one move of the state machine for its own route, by
  -- what the probe is taken for, and leaves the runtimes of all other routes alone.
  pub update_runtime_move :
      (d : Duration) (key : Text) (p : Option (ExitProbeResult F)) (now : Time) (m : Memory F)
      → IsValid m
      → ((o : Observation) × (r : Runtime F) × IsJudged p o
          × (get key (update_runtime fl d key p now m).runtime ≡ some r)
          × (r.state_data ≡ transition (old_state fl key m) o now default_state_config)
          × HasEdge default_state_config (old_state fl key m) o now)
        × ((j : Text)
            → text_eq key j ≡ false
            → get j (update_runtime fl d key p now m).runtime ≡ get j m.runtime)
  unfolding update_runtime
  update_runtime_move d key p now m v =
      let r = next_runtime fl d key p now m in
      let w = next_runtime-IsRuntime d key p now m v in
      let o = judge (probe_metrics fl p) (probe_metrics fl p).internet_reachable (has_warp fl p) in
      (
        (
          o,
          r,
          judge-IsJudged p,
          subst (λ k. get key (insert k r m.runtime) ≡ some r) (sym w.named)
              (lookup-insert_self key r m.runtime),
          next_runtime-state_data d key p now m,
          transition-Edge default_state_config (old_state fl key m) o now,
        ),
        λ j other.
            subst (λ k. get j (insert k r m.runtime) ≡ get j m.runtime) (sym w.named)
              (rw (lookup-insert key j r m.runtime, other) refl),
      )
