-- ===== src/Subview/Render/Laws.antt =====
-- internal/subview/view.go, `Render`: which entries a response holds, and when the prepared text may
-- stand for them.
use vless_sub_server.Base.{
  ◌+◌, ◌≡◌, ◌≢◌, ◌⊎◌, inl, inr, refl, sym, ap, ◌∙◌, Bool, true, false, ◌&&◌, List, [], ◌∷◌, map,
  filter, All, length, arith, Bool-cases,
}
use vless_sub_server.Base.Clock.{Time}
use vless_sub_server.Country.Codes.{Codes}
use vless_sub_server.Country.Filter as Country
use vless_sub_server.Country.Filter.Closed.{IsClear, main_family, other_family, filter-included_iff}
use vless_sub_server.Rename.{RenamedEntry}
use vless_sub_server.Pipeline.Cached.{Formatters, CachedEntry, CachedData}
use vless_sub_server.Subview.Request.{Options, Format, url, json, singbox, clash, is_url}
use vless_sub_server.Subview.Render.{
  no_codes, is_healthy, shown, add_decision, view, format_body, respond, is_prepared, render,
}

no_codes_of : (codes : Codes) → no_codes codes ≡ true → codes ≡ []
no_codes_of [] h = refl
no_codes_of (c ∷ cs) h = absurd (ground arith)

is_url_of : (f : Format) → is_url f ≡ true → f ≡ url
is_url_of url h = refl
is_url_of json h = absurd (ground arith)
is_url_of singbox h = absurd (ground arith)
is_url_of clash h = absurd (ground arith)

module _ {F : Type 0} where
  -- The entries that are up on the route, and those of them that the country filter lets pass.
  abbrev pub serves : Bool → Codes → CachedEntry F → Bool
  serves warp exclude c = is_healthy warp c && (Country.filter c.countries warp exclude).included

  abbrev pub served : Bool → Codes → List (CachedEntry F) → List RenamedEntry
  served warp exclude cs = map (shown warp) (filter (serves warp exclude) cs)

  -- The entries that are up for clients that connect directly, as `Refresh` formats them.
  abbrev pub direct_names : List (CachedEntry F) → List RenamedEntry
  direct_names cs = map (λ c. c.entry) (filter (λ c. c.direct_healthy) cs)

  -- The prepared text is that of the direct entries, formatted at the time `t`.
  abbrev pub IsPrepared : Formatters → Time → CachedData F → Type 0
  IsPrepared fmt t data_ =
      let names = direct_names data_.entries in
      data_.output ≡ fmt.output t names (record (data_.metadata) { total_alive = length names })

  view-served :
      (warp : Bool) (exclude : Codes) (cs : List (CachedEntry F))
      → ((view warp exclude cs).entries ≡ served warp exclude cs)
        × (length (view warp exclude cs).entries + (view warp exclude cs).filtered
            ≡ length (filter (is_healthy warp) cs))
  unfolding view add_decision
  view-served warp exclude [] = (refl, refl)
  view-served warp exclude (c ∷ cs) =
      let (e, n) = view-served warp exclude cs in (ground (arith, e), ground (arith, n))

  filter_none :
      (r : CachedEntry F) (warp : Bool) → (Country.filter r.countries warp []).included ≡ true
  unfolding Country.filter
  filter_none r warp = refl

  direct-served : (cs : List (CachedEntry F)) → served false [] cs ≡ direct_names cs
  unfolding shown
  direct-served [] = refl
  direct-served (c ∷ cs) = ground (arith, direct-served cs, filter_none c false)

  -- An entry that may be shown although countries are excluded.
  pub record IsServable (warp : Bool) (exclude : Codes) (c : CachedEntry F) : Type 0 where
    pub healthy : is_healthy warp c ≡ true
    pub seen :
        ((main_family c.countries warp).available ≡ true)
        ⊎ ((other_family c.countries warp).available ≡ true)
    pub main :
        (main_family c.countries warp).available ≡ true
        → IsClear exclude (main_family c.countries warp)
    pub other :
        (other_family c.countries warp).available ≡ true
        → IsClear exclude (other_family c.countries warp)

  serves-IsServable :
      (warp : Bool) (exclude : Codes) (cs : List (CachedEntry F))
      → exclude ≢ []
      → All (IsServable warp exclude) (filter (serves warp exclude) cs)
  serves-IsServable warp exclude [] h = tt
  serves-IsServable warp exclude (c ∷ cs) h = elim (Bool-cases (serves warp exclude c)) [
    | inl up ↦
        let (seen, main, other) =
          (filter-included_iff c.countries warp exclude h).0 (ground arith) in
        rw up (
          record { healthy = ground arith; seen = seen; main = main; other = other },
          serves-IsServable warp exclude cs h,
        )
    | inr out ↦ rw out (serves-IsServable warp exclude cs h)
  ]

  unprepared : (data_ : CachedData F) (o : Options) → o.exclude ≢ [] → is_prepared data_ o ≡ false
  unfolding is_prepared
  unprepared data_ o h = elim (Bool-cases (no_codes o.exclude)) [
    | inl empty ↦ absurd (h (no_codes_of o.exclude empty))
    | inr some_codes ↦ ground arith
  ]

  prepared_parts :
      (data_ : CachedData F) (o : Options)
      → is_prepared data_ o ≡ true
      → (o.exclude ≡ []) × (o.warp ≡ false) × (o.format ≡ url)
  unfolding is_prepared
  prepared_parts data_ o h =
      (no_codes_of o.exclude (ground arith), ground arith, is_url_of o.format (ground arith))

  -- With countries excluded, a response holds exactly the entries that are up on the chosen route and
  -- pass the country filter, in their order, each of them up and with clear evidence for every exit
  -- address that is available; and those left out are counted.
  pub render_excluding :
      (fmt : Formatters) (now : Time) (data_ : CachedData F) (o : Options)
      → o.exclude ≢ []
      → let res = render fmt now data_ o in
        let names = served o.warp o.exclude data_.entries in
        (res.body
          ≡ format_body fmt now o names
              (record (data_.metadata) { total_alive = length names })
              o.format)
        × (res.entry_count ≡ length names)
        × (res.entry_count + res.filtered ≡ length (filter (is_healthy o.warp) data_.entries))
        × All (IsServable o.warp o.exclude) (filter (serves o.warp o.exclude) data_.entries)
  unfolding render
  render_excluding fmt now data_ o h =
      let (e, n) = view-served o.warp o.exclude data_.entries in
      let count = ap length e in
      rw (render, unprepared data_ o h)
        (
          ap
              (λ names.
                format_body fmt now o names (record (data_.metadata) { total_alive = length names })
                  o.format)
              e,
          count,
          n,
          serves-IsServable o.warp o.exclude data_.entries h,
        )

  -- The text prepared at the time `t` is the one that a response formatted at that time would have.
  pub render-prepared :
      (fmt : Formatters) (t now : Time) (data_ : CachedData F) (o : Options)
      → IsPrepared fmt t data_
      → is_prepared data_ o ≡ true
      → (render fmt now data_ o).body
        ≡ (respond fmt t data_ o (view o.warp o.exclude data_.entries)).body
  unfolding render respond is_prepared
  render-prepared fmt t now data_ o p h =
      let (none, direct, plain) = prepared_parts data_ o h in
      let names = (view-served false [] data_.entries).0 ∙ direct-served data_.entries in
      rw (render, h)
        (rw (none, direct, plain)
          (p
            ∙ sym (
                ap (λ ns. fmt.output t ns (record (data_.metadata) { total_alive = length ns }))
                  names)))
