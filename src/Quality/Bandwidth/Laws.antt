-- ===== src/Quality/Bandwidth/Laws.antt =====
-- internal/quality/bandwidth.go: the choice keeps the budget, favours what was measured longest ago,
-- and does not depend on the order in which the store is read.
use mathlib.Core.List.{Permᴰ}
use native.Mathlib.Nat.{le_trans, mul-le-mul_right, div-mul-le_self}
use vless_sub_server.Base.{
  ℕ, zero, suc, ◌+◌, ◌*◌, ◌/◌, ◌≤◌, ◌<◌, ◌≡◌, refl, ap, ◌↔◌, ◌≢◌, ◌⊎◌, true, false, List, [], ◌∷◌,
  ◌++◌, some, Perm, All, arith, filter, take, length, All-filter, All-take, length-take, drop,
  take-append-drop, take_of_length-le, drop-nil_or_full, All-map, filter-perm, All-filter_of,
}
use vless_sub_server.Base.Int.{pos}
use vless_sub_server.Base.Text.{text_ltb}
use vless_sub_server.Base.Text.Laws.{text_ltb_asym, text_ltb_trans, text_ltb_connected}
use vless_sub_server.Base.Clock.{Time, within-eq-false_iff, max_duration}
use vless_sub_server.Base.Dict.{Text-eq}
use vless_sub_server.Base.Sort.{sort, IsSorted, IsOrder, sort-IsSorted, sort-perm, All-sort}
use vless_sub_server.Base.Sort.Unique.{sort-perm_eq}
use vless_sub_server.Quality.State.{dead}
use vless_sub_server.Quality.Runtime.{Runtime, Store, get}
use vless_sub_server.Quality.Bandwidth.{
  BandwidthConfig, choose, is_eligible, is_staler, select_bandwidth_candidates, quotient, clip,
}

quotient_pos : (a b : ℕ) → 0 < b → quotient (pos a) (pos b) ≡ some (pos (a / b))
unfolding quotient
quotient_pos a zero h = absurd (omega arith)
quotient_pos a (suc b) h = refl

module _ {F : Type 0} where
  clip_pos : (n : ℕ) (xs : List (Runtime F)) → clip (pos n) xs ≡ some (take n xs)
  unfolding clip
  clip_pos n xs = ground (arith, take_of_length-le n xs)

  staler_asym : (a b : Runtime F) → is_staler a b ≡ true → is_staler b a ≡ false
  unfolding is_staler
  staler_asym a b h = ground (arith, text_ltb_asym a.key b.key)

  staler_trans :
      (a b c : Runtime F) → is_staler b a ≡ false → is_staler c b ≡ false → is_staler c a ≡ false
  unfolding is_staler
  staler_trans a b c h k = ground (arith, text_ltb_trans a.key b.key c.key)

  pub is_staler-IsOrder : IsOrder (is_staler {F = F})
  is_staler-IsOrder = record { asym = staler_asym; trans = staler_trans }

  -- A route that may be probed: reachable, not dead, and with no attempt or success too recent.
  pub record IsEligible (now retry refresh : ℕ) (r : Runtime F) : Type 0 where
    pub reachable : r.reachable ≡ true
    pub alive : r.state ≢ dead
    pub rested : (r.last_bandwidth_attempt_at ≡ 0) ⊎ (r.last_bandwidth_attempt_at + retry ≤ now)
    pub stale : (r.last_bandwidth_success_at ≡ 0) ⊎ (r.last_bandwidth_success_at + refresh ≤ now)

module _ {F : Type 0} where
  -- Measured no later than the other, where a route that was never measured has the zero time; of
  -- two that were measured at one time, not later in the order of the keys.
  pub record IsOlder (a b : Runtime F) : Type 0 where
    pub earlier : a.last_bandwidth_success_at ≤ b.last_bandwidth_success_at
    pub by_key :
        a.last_bandwidth_success_at ≡ b.last_bandwidth_success_at → text_ltb b.key a.key ≡ false

  -- Each is older than all that follow.
  abbrev pub AreOldestFirst : List (Runtime F) → Type 0
  AreOldestFirst [] = Unit
  AreOldestFirst (r ∷ rs) = All (IsOlder r) rs × AreOldestFirst rs

  is_staler-IsOlder : (a b : Runtime F) → is_staler b a ≡ false → IsOlder a b
  unfolding is_staler
  is_staler-IsOlder a b h = record { earlier = ground arith; by_key = λ e. ground arith }

  sorted-AreOldestFirst : (rs : List (Runtime F)) → IsSorted is_staler rs → AreOldestFirst rs
  sorted-AreOldestFirst [] h = tt
  sorted-AreOldestFirst (r ∷ rs) (h, hs) = (
    All-map (λ b. is_staler b r ≡ false) (IsOlder r) rs (is_staler-IsOlder r) h,
    sorted-AreOldestFirst rs hs,
  )

-- A configuration in natural numbers: the numbers of bytes, and the two waits.
pub record IsConfigured (cfg : BandwidthConfig) (bytes budget retry refresh : ℕ) : Type 0 where
  pub sized : cfg.bytes_per_probe ≡ pos bytes
  pub some_bytes : 0 < bytes
  pub budgeted : cfg.budget_bytes ≡ pos budget
  pub retried : cfg.retry_after ≡ pos retry
  pub refreshed : cfg.refresh_after ≡ pos refresh
  pub retry_fits : retry ≤ max_duration
  pub refresh_fits : refresh ≤ max_duration

budget_kept : (n bytes budget : ℕ) → n ≤ budget / bytes → n * bytes ≤ budget
budget_kept n bytes budget h = le_trans (mul-le-mul_right bytes h) (div-mul-le_self budget bytes)

quotient_config :
    (cfg : BandwidthConfig) {bytes budget retry refresh : ℕ}
    → IsConfigured cfg bytes budget retry refresh
    → quotient cfg.budget_bytes cfg.bytes_per_probe ≡ some (pos (budget / bytes))
quotient_config cfg {bytes} {budget} c =
    rw (c.sized, c.budgeted) (quotient_pos budget bytes c.some_bytes)

choose_config :
    {F : Type 0} (cfg : BandwidthConfig) {bytes budget retry refresh : ℕ}
    → IsConfigured cfg bytes budget retry refresh
    → (sorted : List (Runtime F)) → choose sorted cfg ≡ some (take (budget / bytes) sorted)
unfolding choose
choose_config cfg {bytes} {budget} c sorted =
    rw (quotient_config cfg c, choose) (clip_pos (budget / bytes) sorted)

module _ {F : Type 0} (now : Time) (cfg : BandwidthConfig) {bytes budget retry refresh : ℕ}
    (c : IsConfigured cfg bytes budget retry refresh) where
  is_eligible_iff :
      (r : Runtime F) → (is_eligible now cfg r ≡ true) ↔ IsEligible now retry refresh r
  unfolding is_eligible
  is_eligible_iff r = ground (
    arith,
    c.retried,
    c.refreshed,
    within-eq-false_iff now r.last_bandwidth_attempt_at retry c.retry_fits,
    within-eq-false_iff now r.last_bandwidth_success_at refresh c.refresh_fits,
  )

  -- What a choice is: `rest` is what the budget leaves out.
  pub record IsChoice (entries chosen rest : List (Runtime F)) : Type 0 where
    pub judged : (r : Runtime F) → (is_eligible now cfg r ≡ true) ↔ IsEligible now retry refresh r
    pub eligible : All (IsEligible now retry refresh) chosen
    pub affordable : length chosen * bytes ≤ budget
    pub complete : Perm (chosen ++ rest) (filter (is_eligible now cfg) entries)
    pub ordered : AreOldestFirst (chosen ++ rest)
    pub spent : (rest ≡ []) ⊎ (length chosen ≡ budget / bytes)

  -- With a positive size of a probe, and a budget and waits that are not negative, a choice is
  -- always made; it spends the budget on eligible routes, those measured longest ago first, and those
  -- measured at one time by their keys.
  pub select-IsChoice :
      (entries : List (Runtime F))
      → (chosen : List (Runtime F)) × (rest : List (Runtime F)) × (select_bandwidth_candidates
            entries now cfg
          ≡ some chosen)
        × IsChoice entries chosen rest
  unfolding select_bandwidth_candidates
  select-IsChoice entries =
      let n : ℕ = budget / bytes in
      let eligible = filter (is_eligible now cfg) entries in
      let sorted = sort (is_staler {F = F}) eligible in
      (
        take n sorted,
        drop n sorted,
        choose_config cfg c sorted,
        record {
          judged = is_eligible_iff;
          eligible = All-take (IsEligible now retry refresh) n sorted (
              All-sort is_staler (IsEligible now retry refresh) eligible (
                All-map (λ r. is_eligible now cfg r ≡ true) (IsEligible now retry refresh) eligible
                  (λ r. (is_eligible_iff r).0) (All-filter (is_eligible now cfg) entries)));
          affordable =
              budget_kept (length (take n sorted)) bytes budget
                (omega (arith, length-take n sorted));
          complete = rw (take-append-drop n sorted) (sort-perm is_staler eligible);
          ordered =
              rw (take-append-drop n sorted)
                (sorted-AreOldestFirst sorted (sort-IsSorted is_staler is_staler-IsOrder eligible));
          spent = drop-nil_or_full n sorted;
        },
      )

-- Two entries of one store that are alike in the order are the same entry.
staler_connected :
    {F : Type 0} (s : Store F) (a b : Runtime F)
    → get a.key s ≡ some a
    → get b.key s ≡ some b
    → is_staler a b ≡ false
    → is_staler b a ≡ false
    → a ≡ b
unfolding is_staler
staler_connected s a b p q h k =
    let same : a.key ≡ b.key = ground (arith, text_ltb_connected a.key b.key) in
    let at_key : get a.key s ≡ get b.key s = ap (λ k. get k s) same in cc

-- The choice is the same in whatever order the entries of the store are read.
select_order_irrelevant :
    {F : Type 0} (s : Store F) (now : Time) (cfg : BandwidthConfig) {xs ys : List (Runtime F)}
    → Permᴰ xs ys
    → All (λ r. get r.key s ≡ some r) xs
    → select_bandwidth_candidates xs now cfg ≡ select_bandwidth_candidates ys now cfg
unfolding select_bandwidth_candidates
select_order_irrelevant s now cfg {xs} {ys} p h =
    ap (λ l. choose l cfg)
      (sort-perm_eq is_staler is_staler-IsOrder (λ r. get r.key s ≡ some r) (staler_connected s)
        (filter-perm (is_eligible now cfg) p)
        (All-filter_of (λ r. get r.key s ≡ some r) (is_eligible now cfg) xs h))
