-- ===== src/Pipeline/Background/Laws.antt =====
-- internal/pipeline/enrichment.go: what the background checks work on, and what the published entries
-- hold after them.
use vless_sub_server.Base.{
  ◌≡◌, ◌∙◌, refl, sym, ap, ℕ, zero, suc, ◌≤◌, Bool, true, false, ◌&&◌, ◌||◌, not, List, [], ◌∷◌,
  ◌++◌, All, length, length-take, take, some, arith, Bool-cases, inl, inr,
}
use vless_sub_server.Base.Text.{Text, is_empty, text_eq}
use vless_sub_server.Base.Text.Laws.{text_eq_iff}
use vless_sub_server.Base.Clock.{Time}
use vless_sub_server.Base.Dict.{has, Distinct, Distinct-snoc, has-append, Text-eq, beq_refl}
use vless_sub_server.Country.Evidence.{Addr}
use vless_sub_server.Enrichment.{Cache, is_off, set_at, get_at}
use vless_sub_server.Enrichment.Laws.{get_at-set_at}
use vless_sub_server.Pipeline.Background.{
  direct_exit_ip, warp_exit_ip, add_exit_ip, add_if, add_exits, collect_exits,
  unique_healthy_exit_ips, EnrichmentNeeds, Todo, add_needs, add_when, Checkers, add_stale, batch,
  enriched, enrich_all, refresh_cached_enrichment, cached_intel,
}
use vless_sub_server.Pipeline.Cached.{Intel, CachedEntry, CachedData, Formatters}
use vless_sub_server.Subview.Render.Laws.{direct_names, IsPrepared}

-- No address is empty, and none is twice in the list.
pub record AreAddresses (ips : List Text) : Type 0 where
  pub distinct : Distinct ips
  pub named : has [] ips ≡ false

no_addresses : AreAddresses []
no_addresses = record { distinct = tt; named = refl }

has-snoc_named :
    (ip : Text) (ips : List Text)
    → is_empty ip ≡ false
    → has [] ips ≡ false
    → has [] (ips ++ ip ∷ []) ≡ false
unfolding text_eq
has-snoc_named (c ∷ ip) ips h n = ground (arith, has-append [] ips ((c ∷ ip) ∷ []))
has-snoc_named [] ips h n = ground arith

add_exit_ip-AreAddresses :
    (ip : Text) (ips : List Text) → AreAddresses ips → AreAddresses (add_exit_ip ip ips)
unfolding add_exit_ip
add_exit_ip-AreAddresses ip ips a = elim (Bool-cases (is_empty ip || has ip ips)) [
  | inl h ↦ rw h a
  | inr h ↦ rw h record {
    distinct = Distinct-snoc ip ips (ground arith) a.distinct;
    named = has-snoc_named ip ips (ground arith) a.named;
  }
]

has-add_exit_ip :
    (q ip : Text) (ips : List Text)
    → has q (add_exit_ip ip ips) ≡ (has q ips || (not (is_empty ip) && text_eq ip q))
unfolding add_exit_ip
has-add_exit_ip q ip ips = ground (arith, has-append q ips (ip ∷ []), text_eq_iff ip q)

is_empty_apart : (ip q : Text) → is_empty q ≡ false → is_empty ip ≡ true → text_eq ip q ≡ false
unfolding text_eq
is_empty_apart [] (c ∷ q) h k = refl
is_empty_apart [] [] h k = ground arith
is_empty_apart (d ∷ ip) q h k = ground arith

add_if-AreAddresses :
    (b : Bool) (ip : Text) (ips : List Text) → AreAddresses ips → AreAddresses (add_if b ip ips)
unfolding add_if
add_if-AreAddresses true ip ips a = add_exit_ip-AreAddresses ip ips a
add_if-AreAddresses false ip ips a = a

has-add_if :
    (q : Text) (b : Bool) (ip : Text) (ips : List Text)
    → is_empty q ≡ false
    → has q (add_if b ip ips) ≡ (has q ips || (b && text_eq ip q))
unfolding add_if
has-add_if q true ip ips h =
    ground (arith, has-add_exit_ip q ip ips, text_eq_iff ip q, is_empty_apart ip q h)
has-add_if q false ip ips h = ground arith

module _ {F : Type 0} (show : Addr → Text) where
  -- The address is the exit of a healthy route of the entry.
  abbrev pub is_exit : Text → CachedEntry F → Bool
  is_exit ip c =
      (c.direct_healthy && text_eq (direct_exit_ip show c.countries) ip)
      || (c.warp_healthy && text_eq (warp_exit_ip show c.countries) ip)

  abbrev pub is_exit_of : Text → List (CachedEntry F) → Bool
  is_exit_of ip [] = false
  is_exit_of ip (c ∷ cs) = is_exit ip c || is_exit_of ip cs

  -- The entry shows the facts about the address, if one of its routes leaves there.
  pub record ShowsFacts (ip : Text) (value : Intel F) (c : CachedEntry F) : Type 0 where
    pub direct : direct_exit_ip show c.countries ≡ ip → c.intel ≡ some value
    pub warp : warp_exit_ip show c.countries ≡ ip → c.warp_intel ≡ some value

  add_exits-AreAddresses :
      (c : CachedEntry F) (ips : List Text) → AreAddresses ips → AreAddresses (add_exits show c ips)
  unfolding add_exits
  add_exits-AreAddresses c ips a =
      add_if-AreAddresses c.warp_healthy _ _ (add_if-AreAddresses c.direct_healthy _ ips a)

  has-add_exits :
      (q : Text) (c : CachedEntry F) (ips : List Text)
      → is_empty q ≡ false
      → has q (add_exits show c ips) ≡ (has q ips || is_exit q c)
  unfolding add_exits
  has-add_exits q c ips h =
      let direct = direct_exit_ip show c.countries in
      ground (
        arith,
        has-add_if q c.direct_healthy direct ips h,
        has-add_if q c.warp_healthy (warp_exit_ip show c.countries)
            (add_if c.direct_healthy direct ips) h,
      )

  collect_exits-AreAddresses :
      (cs : List (CachedEntry F)) (ips : List Text)
      → AreAddresses ips
      → AreAddresses (collect_exits show cs ips)
  unfolding collect_exits
  collect_exits-AreAddresses [] ips a = a
  collect_exits-AreAddresses (c ∷ cs) ips a =
      collect_exits-AreAddresses cs (add_exits show c ips) (add_exits-AreAddresses c ips a)

  has-collect_exits :
      (q : Text) (cs : List (CachedEntry F)) (ips : List Text)
      → is_empty q ≡ false
      → has q (collect_exits show cs ips) ≡ (has q ips || is_exit_of q cs)
  unfolding collect_exits
  has-collect_exits q [] ips h = ground arith
  has-collect_exits q (c ∷ cs) ips h =
      ground (arith, has-collect_exits q cs (add_exits show c ips) h, has-add_exits q c ips h)

  -- The background checks are for each address that is the exit of a healthy route, and for no
  -- other: an address that is not empty is in the list exactly if some entry leaves there by a route
  -- that is healthy; none is twice in the list, and the empty one is not in it.
  pub has-unique_healthy_exit_ips :
      (q : Text) (cs : List (CachedEntry F))
      → AreAddresses (unique_healthy_exit_ips show cs)
        × (has q (unique_healthy_exit_ips show cs) ≡ (not (is_empty q) && is_exit_of q cs))
  unfolding unique_healthy_exit_ips
  has-unique_healthy_exit_ips [] cs =
      let a = collect_exits-AreAddresses cs [] no_addresses in (a, a.named)
  has-unique_healthy_exit_ips (c ∷ q) cs =
      (collect_exits-AreAddresses cs [] no_addresses, has-collect_exits (c ∷ q) cs [] refl)

  enriched-set :
      (p : Checkers F) (cache : Cache (Intel F)) (ip : Text) (value : Intel F) (at now : Time)
      (c : CachedEntry F)
      → p.intel_cache ≡ set_at (some cache) ip value at
      → is_off cache.ttl ≡ false
      → is_empty ip ≡ false
      → ShowsFacts ip value (enriched p show now c)
  unfolding enriched cached_intel
  enriched-set p cache ip value at now c e on named =
      let h : (get_at p.intel_cache ip now).0 ≡ some value =
        rw (e, get_at-set_at cache ip ip value at now, on, named, beq_refl ip) refl in
      record { direct = λ k. rw k h; warp = λ k. rw k h }

  enrich_all-set :
      (p : Checkers F) (cache : Cache (Intel F)) (ip : Text) (value : Intel F) (at now : Time)
      (cs : List (CachedEntry F))
      → p.intel_cache ≡ set_at (some cache) ip value at
      → is_off cache.ttl ≡ false
      → is_empty ip ≡ false
      → All (ShowsFacts ip value) (enrich_all p show now cs)
  unfolding enrich_all
  enrich_all-set p cache ip value at now [] e on named = tt
  enrich_all-set p cache ip value at now (c ∷ cs) e on named = (
    enriched-set p cache ip value at now c e on named,
    enrich_all-set p cache ip value at now cs e on named,
  )

  -- What the background checks have found reaches the published data with the next rebuild: once
  -- the facts about an address are in the cache, which has a time to live, every published entry
  -- shows them for each of its two routes that leaves there.
  pub refresh_cached_enrichment-set :
      (p : Checkers F) (cache : Cache (Intel F)) (ip : Text) (value : Intel F) (at now : Time)
      (cached : CachedData F)
      → p.intel_cache ≡ set_at (some cache) ip value at
      → is_off cache.ttl ≡ false
      → is_empty ip ≡ false
      → All (ShowsFacts ip value) (refresh_cached_enrichment p show now cached).entries
  unfolding refresh_cached_enrichment
  refresh_cached_enrichment-set p cache ip value at now cached e on named =
      enrich_all-set p cache ip value at now cached.entries e on named

  enrich_all-names :
      (p : Checkers F) (now : Time) (cs : List (CachedEntry F))
      → direct_names (enrich_all p show now cs) ≡ direct_names cs
  unfolding enrich_all enriched
  enrich_all-names p now [] = refl
  enrich_all-names p now (c ∷ cs) = ground (arith, enrich_all-names p now cs)

  -- A rebuild of what the caches hold keeps prepared data prepared.
  refresh_cached_enrichment-IsPrepared :
      (p : Checkers F) (fmt : Formatters) (t now : Time) (cached : CachedData F)
      → IsPrepared fmt t cached
      → IsPrepared fmt t (refresh_cached_enrichment p show now cached)
  unfolding refresh_cached_enrichment
  refresh_cached_enrichment-IsPrepared p fmt t now cached h =
      h
      ∙ ap (λ ns. fmt.output t ns (record (cached.metadata) { total_alive = length ns }))
          (sym (enrich_all-names p now cached.entries))

has-take : (q : Text) (n : ℕ) (xs : List Text) → has q (take n xs) ≡ true → has q xs ≡ true
has-take q zero xs h = ground arith
has-take q (suc n) [] h = h
has-take q (suc n) (x ∷ xs) h = ground (arith, has-take q n xs)

take-Distinct : (n : ℕ) (xs : List Text) → Distinct xs → Distinct (take n xs)
take-Distinct zero xs d = tt
take-Distinct (suc n) [] d = tt
take-Distinct (suc n) (x ∷ xs) (h, d) = (ground (arith, has-take x n xs), take-Distinct n xs d)

add_needs-Distinct :
    (apply : EnrichmentNeeds → EnrichmentNeeds) (keys : List Text) (t : Todo)
    → Distinct t.ordered
    → Distinct (add_needs apply keys t).ordered
unfolding add_needs
add_needs-Distinct apply [] t d = d
add_needs-Distinct apply (ip ∷ keys) t d =
    add_needs-Distinct apply keys _ (elim (Bool-cases (has ip t.ordered)) [
      | inl h ↦ rw h d
      | inr h ↦ rw h (Distinct-snoc ip t.ordered h d)
    ])

add_when-Distinct :
    (b : Bool) (apply : EnrichmentNeeds → EnrichmentNeeds) (keys : List Text) (t : Todo)
    → Distinct t.ordered
    → Distinct (add_when b apply keys t).ordered
unfolding add_when
add_when-Distinct true apply keys t d = add_needs-Distinct apply keys t d
add_when-Distinct false apply keys t d = d

module _ {F : Type 0} (p : Checkers F) where
  -- A batch of the background checks has no address twice and is not larger than the configured
  -- size, although the three caches may each ask for the same address.
  batch-Distinct :
      (size : ℕ) (ips : List Text) (now : Time)
      → Distinct (batch p size ips now) × (length (batch p size ips now) ≤ size)
  unfolding batch add_stale
  batch-Distinct size ips now = (
    take-Distinct size _ (
        add_when-Distinct _ _ _ _ (
          add_when-Distinct _ _ _ _
            (add_when-Distinct _ _ _ (record { needs = []; ordered = [] }) tt))),
    omega (arith, length-take size (add_stale p ips now).ordered),
  )
