-- ===== src/Pipeline/Publish/Laws.antt =====
-- internal/pipeline/pipeline.go: what the published data holds, after `Refresh` and after a rebuild.
use vless_sub_server.Base.{
  ◌-◌, ◌≡◌, refl, sym, ap, List, [], ◌∷◌, map, All, length, length-map, some, arith,
}
use vless_sub_server.Base.Clock.{Time}
use vless_sub_server.Fetch.Sources.{FetchResult}
use vless_sub_server.Quality.Identity.{Library}
use vless_sub_server.Quality.Runtime.{Runtime, Store}
use vless_sub_server.Rename.{RenamedEntry, Named, rename_all}
use vless_sub_server.Rename.Laws.{rename_all_names}
use vless_sub_server.Pipeline.Cached.{
  FormatMetadata, Formatters, CachedEntry, CachedData, rebuild_entries, rebuild_direct,
  rebuild_cached_countries, refreshed, runtime_of,
}
use vless_sub_server.Pipeline.Publish.{
  OutputEntry, named, warp_named, cached_entries, cached_entry, direct_entries, publish, count_ok,
}
use vless_sub_server.Subview.Render.Laws.{direct_names, IsPrepared}

module _ {F : Type 0} (lib : Library) where
  direct_entries-names :
      (store : Store F) (es : List (OutputEntry F)) (ns ws : List RenamedEntry)
      → length ns ≡ length es
      → length ws ≡ length es
      → direct_names (cached_entries lib store es ns ws) ≡ direct_entries lib store es ns
  unfolding cached_entries cached_entry direct_entries
  direct_entries-names store [] [] [] h k = refl
  direct_entries-names store (e ∷ es) (n ∷ ns) (w ∷ ws) h k =
      ground (arith, direct_entries-names store es ns ws (omega arith) (omega arith))
  direct_entries-names store [] (n ∷ ns) ws h k = absurd (omega arith)
  direct_entries-names store [] [] (w ∷ ws) h k = absurd (omega arith)
  direct_entries-names store (e ∷ es) [] ws h k = absurd (omega arith)
  direct_entries-names store (e ∷ es) (n ∷ ns) [] h k = absurd (omega arith)

  cached_entries-names :
      (store : Store F) (es : List (OutputEntry F)) (ns ws : List RenamedEntry)
      → length ns ≡ length es
      → length ws ≡ length es
      → (map (λ c. c.entry) (cached_entries lib store es ns ws) ≡ ns)
        × (map (λ c. c.warp_entry) (cached_entries lib store es ns ws) ≡ ws)
  unfolding cached_entries cached_entry
  cached_entries-names store [] [] [] h k = (refl, refl)
  cached_entries-names store (e ∷ es) (n ∷ ns) (w ∷ ws) h k =
      let (a, b) = cached_entries-names store es ns ws (omega arith) (omega arith) in
      (ap (◌∷◌ n) a, ap (◌∷◌ w) b)
  cached_entries-names store [] (n ∷ ns) ws h k = absurd (omega arith)
  cached_entries-names store [] [] (w ∷ ws) h k = absurd (omega arith)
  cached_entries-names store (e ∷ es) [] ws h k = absurd (omega arith)
  cached_entries-names store (e ∷ es) (n ∷ ns) [] h k = absurd (omega arith)

  length-rename_all :
      (f : OutputEntry F → Named) (es : List (OutputEntry F))
      → length (rename_all lib (map f es)) ≡ length es
  length-rename_all f es =
      let e = ap length (rename_all_names lib (map f es)).0 in
      let a = length-map (λ q. q.entry) (rename_all lib (map f es)) in
      let b = length-map (λ q. q.entry) (map f es) in
      let c = length-map f es in omega (arith, a, b, c, e)

  rebuild_direct-names :
      (store : Store F) (cs : List (CachedEntry F))
      → All (λ c. (r : Runtime F) × (runtime_of lib store c ≡ some r)) cs
      → direct_names (rebuild_entries lib store cs) ≡ rebuild_direct lib store cs
  unfolding rebuild_entries rebuild_direct refreshed
  rebuild_direct-names store [] h = refl
  rebuild_direct-names store (c ∷ cs) ((r, e), h) =
      rw e (ground (arith, rebuild_direct-names store cs h))

  -- What `Refresh` publishes is prepared: its text is that of the entries that clients which connect
  -- directly are shown.
  publish-IsPrepared :
      (fmt : Formatters) (started now : Time) (counts : FormatMetadata) (fetched : List FetchResult)
      (store : Store F) (entries : List (OutputEntry F))
      → IsPrepared fmt now (publish lib fmt started now counts fetched store entries)
  unfolding publish
  publish-IsPrepared fmt started now counts fetched store entries =
      let ns = rename_all lib (map (named lib) entries) in
      let ws = rename_all lib (map (warp_named lib) entries) in
      let e =
        direct_entries-names store entries ns ws (length-rename_all (named lib) entries)
          (length-rename_all (warp_named lib) entries) in
      let meta : FormatMetadata = record counts {
        total_alive = length ns;
        sources_ok = count_ok fetched;
        sources_failed = length fetched - count_ok fetched;
      } in
      sym (ap (λ names. fmt.output now names (record meta { total_alive = length names })) e)

  -- Every entry that `Refresh` publishes has the names that `RenameAll` gives to all of them at once,
  -- for each of its two routes.
  publish_names :
      (fmt : Formatters) (started now : Time) (counts : FormatMetadata) (fetched : List FetchResult)
      (store : Store F) (entries : List (OutputEntry F))
      → let data_ = publish lib fmt started now counts fetched store entries in
        (map (λ c. c.entry) data_.entries ≡ rename_all lib (map (named lib) entries))
        × (map (λ c. c.warp_entry) data_.entries ≡ rename_all lib (map (warp_named lib) entries))
        × (data_.metadata.total_alive ≡ length entries)
  unfolding publish
  publish_names fmt started now counts fetched store entries =
      let h = length-rename_all (named lib) entries in
      let k = length-rename_all (warp_named lib) entries in
      let (a, b) =
        cached_entries-names store entries (rename_all lib (map (named lib) entries))
          (rename_all lib (map (warp_named lib) entries)) h k in
      (a, b, h)

  -- A rebuild keeps the data prepared, if every published route is known to the store.
  pub rebuild-IsPrepared :
      (fmt : Formatters) (now : Time) (store : Store F) (cached : CachedData F)
      → All (λ c. (r : Runtime F) × (runtime_of lib store c ≡ some r)) cached.entries
      → IsPrepared fmt now (rebuild_cached_countries lib fmt now store cached)
  unfolding rebuild_cached_countries
  rebuild-IsPrepared fmt now store cached h = sym (
      ap (λ ns. fmt.output now ns (record (cached.metadata) { total_alive = length ns }))
        (rebuild_direct-names store cached.entries h))
