-- ===== src/Dns/Laws.antt =====
-- internal/dns/dns.go: what a lookup in the cache and in the results of a resolution finds.
use vless_sub_server.Base.{
  ◌≤◌, ◌≡◌, refl, ap, ◌∙◌, Bool, false, List, [], ◌∷◌, map, none, some, arith, Bool-cases, inl, inr,
  if◌then◌else◌,
}
use vless_sub_server.Base.Text.{Text, is_empty, text_eq}
use vless_sub_server.Base.Text.Laws.{text_eq_iff}
use vless_sub_server.Base.Clock.{Time, is_after, add}
use vless_sub_server.Base.Dict.{Dict, lookup, insert, has, Distinct, lookup-insert, Text-eq}
use vless_sub_server.Dns.{
  DnsResult, CacheEntry, DnsCache, unexpired, get, set, purge_entries, purge, Resolution,
  record_answer, record_all,
}

abbrev pub IsMap : DnsCache → Type 0
IsMap c = Distinct (map (λ e. e.0) c.entries)

lookup_absent :
    (k : Text) (m : Dict Text CacheEntry) → has k (map (λ e. e.0) m) ≡ false → lookup k m ≡ none
lookup_absent k [] h = refl
lookup_absent k ((j, e) ∷ m) h = ground (arith, lookup_absent k m)

unexpired-purge_entries :
    (now later : Time) (h : Text) (m : Dict Text CacheEntry)
    → now ≤ later
    → Distinct (map (λ e. e.0) m)
    → unexpired later (lookup h (purge_entries now m)) ≡ unexpired later (lookup h m)
unfolding unexpired purge_entries
unexpired-purge_entries now later h [] le d = refl
unexpired-purge_entries now later h ((j, e) ∷ m) le (new, d) = ground (
  arith,
  unexpired-purge_entries now later h m le d,
  text_eq_iff j h,
  lookup_absent j m new,
  lookup_absent h m,
)

-- In a cache with one entry for each host, a purge takes away nothing that a later lookup could find.
get-purge :
    (now later : Time) (host : Text) (c : DnsCache)
    → now ≤ later
    → IsMap c
    → get later host (purge now c) ≡ get later host c
unfolding get purge
get-purge now later host c le d =
    rw (get, unexpired-purge_entries now later host c.entries le d) refl

-- A host that has been set is found, with what was set, until its time is over; every other host is
-- found as before.
pub get-set :
    (now later : Time) (host j ip : Text) (is_private : Bool) (c : DnsCache)
    → get later j (set now host ip is_private c) ≡ (
        if text_eq host j
        then (if is_after later (add now c.ttl) then none else some (ip, is_private))
        else get later j c)
unfolding get set unexpired
get-set now later host j ip is_private c =
    let e : CacheEntry = record { ip = ip; is_private = is_private; expires_at = add now c.ttl } in
    rw (get, lookup-insert host j e c.entries)
      (elim (Bool-cases (text_eq host j)) [
        | inl here ↦ rw here (elim (Bool-cases (is_after later (add now c.ttl))) [
          | inl over ↦ rw (unexpired, over) refl
          | inr valid ↦ rw (unexpired, valid) refl
        ])
        | inr other ↦ rw other refl
      ])

-- The result for a host that has been resolved.
abbrev pub answer : (Text → Text × Bool) → Text → DnsResult
answer resolve h = record { host = h; ip = (resolve h).0; is_private = (resolve h).1 }

results_answer :
    (now : Time) (h : Text) (resolve : Text → Text × Bool) (r : Resolution)
    → (record_answer now h (resolve h) r).results ≡ insert h (answer resolve h) r.results
unfolding record_answer
results_answer now h resolve r = elim (Bool-cases (is_empty (resolve h).0)) [
  | inl failed ↦ rw failed refl
  | inr found ↦ rw found refl
]

lookup-record_answer :
    (now : Time) (h j : Text) (resolve : Text → Text × Bool) (r : Resolution)
    → lookup j (record_answer now h (resolve h) r).results
      ≡ (if text_eq h j then some (answer resolve j) else lookup j r.results)
lookup-record_answer now h j resolve r =
    ap (lookup j) (results_answer now h resolve r)
    ∙ lookup-insert h j (answer resolve h) r.results
    ∙ elim (Bool-cases (text_eq h j)) [
      | inl here ↦ rw here (ap (λ k. some (answer resolve k)) ((text_eq_iff h j).0 here))
      | inr other ↦ rw other refl
    ]

-- In whichever order the goroutines take the lock: every host that was asked for has its own answer,
-- also a failed one, and the results for the other hosts stay.
pub lookup-record_all :
    (resolve : Text → Text × Bool) (asked : List (Time × Text)) (r : Resolution) (j : Text)
    → lookup j (record_all resolve asked r).results
      ≡ (if has j (map (λ a. a.1) asked) then some (answer resolve j) else lookup j r.results)
unfolding record_all
lookup-record_all resolve [] r j = refl
lookup-record_all resolve ((now, h) ∷ asked) r j =
    let here = lookup-record_answer now h j resolve r in
    let there = lookup-record_all resolve asked (record_answer now h (resolve h) r) j in
    ground (arith, here, there)
