-- ===== src/Pipeline/Gateway/Laws.antt =====
-- internal/pipeline/fetch_fallback.go: how the candidates differ, and what a retry changes.
use vless_sub_server.Base.{
  ℕ, zero, suc, ◌-◌, ◌≤◌, ◌<◌, ◌≡◌, refl, ap, subst, true, false, ◌||◌, not, List, [], ◌∷◌, ◌++◌,
  map, All, length, some, arith, leb, Bool-cases, inl, inr,
}
use vless_sub_server.Base.Text.{Text}
use vless_sub_server.Base.Text.Laws.{text_eq_iff}
use vless_sub_server.Base.Dict.{has, Distinct, Text-eq}
use vless_sub_server.Fetch.Sources.{FetchResult, is_ok}
use vless_sub_server.Parse.Record.{ProxyRecord}
use vless_sub_server.Quality.Identity.{Library, identity}
use vless_sub_server.Pipeline.Cached.{CachedEntry, CachedData}
use vless_sub_server.Pipeline.Gateway.{
  direct_exit_country, candidates_from, gateway_candidates, retry, retry_failed,
}

abbrev Fresh : List Text → List Text → Type 0
Fresh seen xs = All (λ x. has x seen ≡ false) xs

-- What is fresh after one more name is fresh before it, and is another name.
Fresh-cons :
    (k : Text) (seen xs : List Text) → Fresh (k ∷ seen) xs → (has k xs ≡ false) × Fresh seen xs
Fresh-cons k seen [] h = (refl, tt)
Fresh-cons k seen (x ∷ xs) (p, h) =
    let (a, b) = Fresh-cons k seen xs h in
    (ground (arith, a, text_eq_iff x k, text_eq_iff k x), (ground arith, b))

-- How many records there are at most: the loop tests the limit after it has added one.
abbrev pub places : ℕ → ℕ
places zero = 1
places (suc n) = suc n

some_place : (n : ℕ) → 1 ≤ places n
some_place zero = omega arith
some_place (suc n) = omega arith

places_of : (n : ℕ) → 1 ≤ n → places n ≡ n
places_of zero h = absurd (omega arith)
places_of (suc n) h = refl

next_places :
    (limit count : ℕ)
    → suc count < limit
    → suc (places (limit - suc count)) ≤ places (limit - count)
next_places limit count h =
    omega
      (arith, places_of (limit - suc count) (omega arith), places_of (limit - count) (omega arith))

module _ {F : Type 0} (lib : Library) where
  -- The entries from which the records are taken: none twice, in the order of the cache.
  pub data Picks : List (CachedEntry F) → List (CachedEntry F) → Type 0 where
    done : {cs : List (CachedEntry F)} → Picks cs []
    pass : {c : CachedEntry F} {cs ps : List (CachedEntry F)} → Picks cs ps → Picks (c ∷ cs) ps
    pick :
        {c : CachedEntry F} {cs ps : List (CachedEntry F)} → Picks cs ps → Picks (c ∷ cs) (c ∷ ps)

  abbrev pub place : CachedEntry F → Text
  place c = direct_exit_country c.countries

  abbrev pub key : CachedEntry F → Text
  key c = identity lib c.entry.entry

  -- Entries that serve for a choice of at most `room` records.
  pub record IsDiverse (room : ℕ) (cs : List (CachedEntry F)) (records : List ProxyRecord)
      : Type 0 where
    pub entries : List (CachedEntry F)
    pub taken : Picks cs entries
    pub theirs : map (λ c. c.entry.entry) entries ≡ records
    pub few : length entries ≤ room
    pub healthy : All (λ c. c.direct_healthy ≡ true) entries
    pub countries : Distinct (map place entries)
    pub identities : Distinct (map key entries)

  -- The choice, apart from what has been seen before.
  record IsChosen (room : ℕ) (identities countries : List Text) (cs : List (CachedEntry F))
      (records : List ProxyRecord) : Type 0 where
    diverse : IsDiverse room cs records
    new_identities : Fresh identities (map key diverse.entries)
    new_countries : Fresh countries (map place diverse.entries)

  nil-IsChosen :
      (room : ℕ) (identities countries : List Text) (cs : List (CachedEntry F))
      → IsChosen room identities countries cs []
  nil-IsChosen room identities countries cs = record {
    diverse = record {
      entries = [];
      taken = done;
      theirs = refl;
      few = ground arith;
      healthy = tt;
      countries = tt;
      identities = tt;
    };
    new_identities = tt;
    new_countries = tt;
  }

  pass_over :
      (room : ℕ) (identities countries : List Text) (c : CachedEntry F) (cs : List (CachedEntry F))
      (rs : List ProxyRecord)
      → IsChosen room identities countries cs rs
      → IsChosen room identities countries (c ∷ cs) rs
  pass_over room identities countries c cs rs h =
      let d = h.diverse in
      record {
        diverse = record {
          entries = d.entries;
          taken = pass d.taken;
          theirs = d.theirs;
          few = d.few;
          healthy = d.healthy;
          countries = d.countries;
          identities = d.identities;
        };
        new_identities = h.new_identities;
        new_countries = h.new_countries;
      }

  take_one :
      (room room' : ℕ) (identities countries : List Text) (c : CachedEntry F)
      (cs : List (CachedEntry F)) (rs : List ProxyRecord)
      → suc room ≤ room'
      → c.direct_healthy ≡ true
      → has (key c) identities ≡ false
      → has (place c) countries ≡ false
      → IsChosen room (key c ∷ identities) (place c ∷ countries) cs rs
      → IsChosen room' identities countries (c ∷ cs) (c.entry.entry ∷ rs)
  take_one room room' identities countries c cs rs fits up i p h =
      let d = h.diverse in
      let (k, ks) = Fresh-cons (key c) identities (map key d.entries) h.new_identities in
      let (q, qs) = Fresh-cons (place c) countries (map place d.entries) h.new_countries in
      record {
        diverse = record {
          entries = c ∷ d.entries;
          taken = pick d.taken;
          theirs = ap (◌∷◌ c.entry.entry) d.theirs;
          few = omega (arith, fits, d.few);
          healthy = (up, d.healthy);
          countries = (q, d.countries);
          identities = (k, d.identities);
        };
        new_identities = (i, ks);
        new_countries = (p, qs);
      }

  candidates_from-IsChosen :
      (limit count : ℕ) (identities countries : List Text) (cs : List (CachedEntry F))
      → IsChosen
          (places (limit - count))
          identities
          countries
          cs
          (candidates_from lib limit count identities countries cs)
  unfolding candidates_from
  candidates_from-IsChosen limit count identities countries [] =
      nil-IsChosen (places (limit - count)) identities countries []
  candidates_from-IsChosen limit count identities countries (c ∷ cs) =
      let rest =
        candidates_from-IsChosen limit (suc count) (key c ∷ identities) (place c ∷ countries) cs in
      elim (Bool-cases
        (not c.direct_healthy || (has (place c) countries || has (key c) identities))) [
          | inl skipped ↦ rw skipped (
              pass_over (places (limit - count)) identities countries c cs _
                (candidates_from-IsChosen limit count identities countries cs))
          | inr taken ↦ rw taken (elim (Bool-cases (leb limit (suc count))) [
            | inl full ↦ rw full (
                take_one 0 (places (limit - count)) identities countries c cs []
                  (some_place (limit - count)) (ground arith) (ground arith) (ground arith)
                  (nil-IsChosen 0 (key c ∷ identities) (place c ∷ countries) cs))
            | inr more ↦ rw more (
                take_one (places (limit - suc count)) (places (limit - count)) identities countries
                  c cs _ (next_places limit count (ground arith)) (ground arith) (ground arith)
                  (ground arith) rest)
          ])
        ]

  -- The candidates are records of the published entries, in their order: all up for direct
  -- connections, no two with the same identity, and no two in the same exit country. There are at most
  -- `limit` of them, and at most one for the limit 0.
  pub gateway_candidates-IsDiverse :
      (limit : ℕ) (data_ : CachedData F)
      → IsDiverse (places limit) data_.entries (gateway_candidates lib limit (some data_))
  unfolding gateway_candidates
  gateway_candidates-IsDiverse limit data_ =
      let none_yet : limit - 0 ≡ limit = omega arith in
      let records = candidates_from lib limit 0 [] [] data_.entries in
      subst (λ n. IsDiverse (places n) data_.entries records) none_yet
        (candidates_from-IsChosen limit 0 [] [] data_.entries).diverse

-- The result for a source after the retries: a good one is kept; a failed one is kept if no tag
-- works, and gives way otherwise to what the first tag brings that works.
pub data IsRetried (fetch : Text → Text → FetchResult) (tags : List Text) (r : FetchResult)
    : FetchResult → Type 0 where
  kept : is_ok r ≡ true → IsRetried fetch tags r r
  lost :
      is_ok r ≡ false → All (λ tag. is_ok (fetch tag r.url) ≡ false) tags → IsRetried fetch tags r r
  recovered :
      (before : List Text) (tag : Text) (after : List Text)
      → is_ok r ≡ false
      → before ++ tag ∷ after ≡ tags
      → All (λ t. is_ok (fetch t r.url) ≡ false) before
      → is_ok (fetch tag r.url) ≡ true
      → IsRetried fetch tags r (fetch tag r.url)

abbrev pub AreRetried :
    (Text → Text → FetchResult) → List Text → List FetchResult → List FetchResult → Type 0
AreRetried fetch tags [] [] = Unit
AreRetried fetch tags (r ∷ rs) (s ∷ ss) = IsRetried fetch tags r s × AreRetried fetch tags rs ss
AreRetried fetch tags _ _ = ⊥

later :
    (fetch : Text → Text → FetchResult) (tag : Text) (tags : List Text) (r s : FetchResult)
    → is_ok (fetch tag r.url) ≡ false
    → IsRetried fetch tags r s
    → IsRetried fetch (tag ∷ tags) r s
later fetch tag tags r s fails (kept fine) = kept fine
later fetch tag tags r s fails (lost bad all) = lost bad (fails, all)
later fetch tag tags r s fails (recovered before other after bad listed first works) =
    recovered (tag ∷ before) other after bad (ap (◌∷◌ tag) listed) (fails, first) works

retry-IsRetried :
    (fetch : Text → Text → FetchResult) (tags : List Text) (r : FetchResult)
    → is_ok r ≡ false
    → IsRetried fetch tags r (retry fetch r tags)
unfolding retry
retry-IsRetried fetch [] r h = lost h tt
retry-IsRetried fetch (tag ∷ tags) r h = elim (Bool-cases (is_ok (fetch tag r.url))) [
  | inl works ↦ rw works (recovered [] tag tags h refl tt works)
  | inr fails ↦
      rw fails (later fetch tag tags r (retry fetch r tags) fails (retry-IsRetried fetch tags r h))
]

-- Every source that failed gets what the first tag brings that works, or keeps its failure if none
-- does; no other result changes.
pub retry_failed-AreRetried :
    (fetch : Text → Text → FetchResult) (tags : List Text) (rs : List FetchResult)
    → AreRetried fetch tags rs (retry_failed fetch tags rs)
unfolding retry_failed
retry_failed-AreRetried fetch tags [] = tt
retry_failed-AreRetried fetch tags (r ∷ rs) = (
  elim (Bool-cases (is_ok r)) [
    | inl fine ↦ rw fine (kept fine)
    | inr bad ↦ rw bad (retry-IsRetried fetch tags r bad)
  ],
  retry_failed-AreRetried fetch tags rs,
)
