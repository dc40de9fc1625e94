-- ===== src/Fetch/Sources/History.antt =====
-- internal/fetch/source_cache.go: the cache against the history of all fetches.
use mathlib.Core.List.{Memᴰ}
use mathlib.Core.Path.{ap₂}
use vless_sub_server.Base.{
  ℕ, ◌+◌, ◌≤◌, ◌<◌, ◌≡◌, refl, inl, inr, true, false, List, [], ◌∷◌, map, Option, none, some, arith,
  if◌then◌else◌, Bool-cases, ap, sym,
}
use vless_sub_server.Base.Int.{pos}
use vless_sub_server.Base.Text.{Text, text_eq}
use vless_sub_server.Base.Text.Laws.{text_eq_iff}
use vless_sub_server.Base.Clock.{Time, Duration, at_most, at_most_iff, max_duration}
use vless_sub_server.Base.Dict.{lookup, lookup-insert, lookup-delete, Text-eq}
use vless_sub_server.Fetch.Sources.{
  FetchResult, Snapshot, Snapshots, MergedSource, is_ok, is_authoritative_failure, fall_back,
  accept, merge_one, merge_detailed,
}

-- Fetches with their times, the newest first.
abbrev pub Fetches : Type 0
Fetches = List (Time × FetchResult)

-- The cache that the fetches leave behind.
pub cache_after : Duration → Fetches → Snapshots
cache_after max_age [] = []
cache_after max_age ((now, r) ∷ past) = (merge_one now max_age r (cache_after max_age past)).0

-- A success with lines is good; an empty one is none.
good_lines : Time → List Text → Option Snapshot
good_lines now [] = none
good_lines now (line ∷ lines) = some (record { lines = line ∷ lines; last_success = now })

-- The last good lines of a source by the history alone: its latest success, unless an empty success
-- or an authoritative failure came after it.
pub last_good : Text → Fetches → Option Snapshot
unfolding good_lines
last_good url [] = none
last_good url ((now, r) ∷ past) =
    let older = last_good url past in
    if text_eq r.url url
    then (if is_ok r
        then good_lines now r.lines
        else if is_authoritative_failure r.error
        then none
        else older)
    else older

lookup-accept :
    (now : Time) (r : FetchResult) (url : Text) (lines : List Text) (m : Snapshots)
    → lookup url (accept now r lines m).0
      ≡ (if text_eq r.url url then good_lines now lines else lookup url m)
unfolding accept good_lines
lookup-accept now r url [] m = lookup-delete r.url url m
lookup-accept now r url (line ∷ lines) m = lookup-insert r.url url _ m

-- At any time the cache holds exactly the last good lines of every source.
pub lookup-cache_after :
    (max_age : Duration) (url : Text) (past : Fetches)
    → lookup url (cache_after max_age past) ≡ last_good url past
unfolding cache_after last_good merge_one
lookup-cache_after max_age url [] = refl
lookup-cache_after max_age url ((now, r) ∷ past) =
    let m = cache_after max_age past in
    ground (
      arith,
      lookup-cache_after max_age url past,
      lookup-accept now r url r.lines m,
      lookup-delete r.url url m,
    )

-- The success in the history that a snapshot was taken from.
pub record Origin (past : Fetches) (url : Text) (lines : List Text) (time : Time) : Type 0 where
  pub fetch : FetchResult
  pub listed : Memᴰ (time, fetch) past
  pub same_url : fetch.url ≡ url
  pub succeeded : is_ok fetch ≡ true
  pub same_lines : fetch.lines ≡ lines

Origin-cons :
    {past : Fetches} {url : Text} {lines : List Text} {time : Time} (f : Time × FetchResult)
    → Origin past url lines time
    → Origin (f ∷ past) url lines time
Origin-cons f o = record {
  fetch = o.fetch;
  listed = Memᴰ.tail o.listed;
  same_url = o.same_url;
  succeeded = o.succeeded;
  same_lines = o.same_lines;
}

of_good_lines :
    (now : Time) (lines : List Text) (s : Snapshot)
    → good_lines now lines ≡ some s
    → (lines ≡ s.lines) × (s.last_success ≡ now)
unfolding good_lines
of_good_lines now [] s h = cc
of_good_lines now (line ∷ lines) s h = ground arith

last_good-Origin :
    (url : Text) (past : Fetches) (s : Snapshot)
    → last_good url past ≡ some s
    → Origin past url s.lines s.last_success
unfolding last_good
last_good-Origin url [] s h = cc
last_good-Origin url ((now, r) ∷ past) s h = elim (Bool-cases (text_eq r.url url)) [
  | inr other ↦ Origin-cons (now, r) (last_good-Origin url past s (ground arith))
  | inl same ↦ elim (Bool-cases (is_ok r)) [
    | inr failed ↦ Origin-cons (now, r) (last_good-Origin url past s (ground arith))
    | inl good ↦
        let kept : good_lines now r.lines ≡ some s = ground arith in
        let (lines, time) = of_good_lines now r.lines s kept in
        record {
          fetch = r;
          listed = Memᴰ.head (ap (λ t. (t, r)) time);
          same_url = (text_eq_iff r.url url).0 same;
          succeeded = good;
          same_lines = lines;
        }
  ]
]

-- What one merged source can be, after the fetches of `past`.
pub data Served (now : Time) (d : ℕ) (past : Fetches) (r : FetchResult) (s : MergedSource)
    : Type 0 where
  nothing : s.lines ≡ [] → Served now d past r s
  current : is_ok r ≡ true → s.lines ≡ r.lines → s.stale ≡ false → Served now d past r s
  old :
      (time : Time)
      → is_ok r ≡ false
      → s.stale ≡ true
      → Origin past r.url s.lines time
      → now ≤ time + d
      → Served now d past r s

accept-Served :
    (now : Time) (d : ℕ) (past : Fetches) (r : FetchResult) (lines : List Text) (m : Snapshots)
    → is_ok r ≡ true
    → lines ≡ r.lines
    → Served now d past r (accept now r lines m).1
unfolding accept
accept-Served now d past r [] m h e = nothing refl
accept-Served now d past r (line ∷ lines) m h e = current h e refl

fall_back-Served :
    (now : Time) (d : ℕ) (past : Fetches) (r : FetchResult) (o : Option Snapshot)
    → d < max_duration
    → is_ok r ≡ false
    → o ≡ last_good r.url past
    → Served now d past r (fall_back now (pos d) r o)
unfolding fall_back
fall_back-Served now d past r none m h e = nothing refl
fall_back-Served now d past r (some s) m h e =
    elim (Bool-cases (at_most now s.last_success (pos d))) [
      | inl young ↦ rw young (
          old s.last_success h refl (last_good-Origin r.url past s (sym e))
            ((at_most_iff now s.last_success d m).0 young))
      | inr aged ↦ rw aged (nothing refl)
    ]

accept-url :
    (now : Time) (r : FetchResult) (lines : List Text) (m : Snapshots)
    → (accept now r lines m).1.url ≡ r.url
unfolding accept
accept-url now r [] m = refl
accept-url now r (line ∷ lines) m = refl

fall_back-url :
    (now : Time) (max_age : Duration) (r : FetchResult) (o : Option Snapshot)
    → (fall_back now max_age r o).url ≡ r.url
unfolding fall_back
fall_back-url now max_age r none = refl
fall_back-url now max_age r (some s) = ground arith

merge_one-url :
    (now : Time) (max_age : Duration) (r : FetchResult) (m : Snapshots)
    → (merge_one now max_age r m).1.url ≡ r.url
unfolding merge_one
merge_one-url now max_age r m =
    ground (arith, accept-url now r r.lines m, fall_back-url now max_age r (lookup r.url m))

-- Whatever is served for a source was fetched from it: in this fetch, or, if this one failed, in an
-- earlier success that is no older than the maximal age, a duration from 0 to less than the
-- longest.
pub merge_one-Served :
    (now : Time) (d : ℕ) (past : Fetches) (r : FetchResult)
    → d < max_duration
    → let s = (merge_one now (pos d) r (cache_after (pos d) past)).1 in
      Served now d past r s × (s.url ≡ r.url)
unfolding merge_one
merge_one-Served now d past r m = (
  elim (Bool-cases (is_ok r)) [
    | inl good ↦ rw good (accept-Served now d past r r.lines (cache_after (pos d) past) good refl)
    | inr failed ↦ rw failed (elim (Bool-cases (is_authoritative_failure r.error)) [
      | inl final ↦ rw final (nothing refl)
      | inr passing ↦ rw passing (
          fall_back-Served now d past r (lookup r.url (cache_after (pos d) past)) m failed
            (lookup-cache_after (pos d) r.url past))
    ])
  ],
  merge_one-url now (pos d) r (cache_after (pos d) past),
)

-- Every source is answered once, in the order of the fetches.
pub merge_detailed-urls :
    (now : Time) (max_age : Duration) (rs : List FetchResult) (m : Snapshots)
    → map (λ (s : MergedSource). s.url) (merge_detailed now max_age rs m).1
      ≡ map (λ (r : FetchResult). r.url) rs
unfolding merge_detailed
merge_detailed-urls now max_age [] m = refl
merge_detailed-urls now max_age (r ∷ rs) m =
    ap₂ (λ u us. u ∷ us) (merge_one-url now max_age r m)
      (merge_detailed-urls now max_age rs (merge_one now max_age r m).0)
