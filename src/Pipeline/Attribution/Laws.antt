-- ===== src/Pipeline/Attribution/Laws.antt =====
-- internal/pipeline/attribution.go: the sources' counts add up to those of one pass over all lines.
use vless_sub_server.Base.{
  ℕ, suc, ◌+◌, ◌≡◌, refl, ◌∙◌, ap, List, [], ◌∷◌, length, length-append, arith,
}
use vless_sub_server.Base.Text.{Text}
use vless_sub_server.Base.Dict.{Dict, Text-eq}
use vless_sub_server.Fetch.Sources.{MergedSource, all_lines}
use vless_sub_server.Parse.Record.{ProxyRecord}
use vless_sub_server.Parse.Lines.{Parsers, parse_all_lines}
use vless_sub_server.Parse.Lines.Laws.{
  accepted, firsts, parse_all_lines-firsts, parse_all_lines_counts,
}
use vless_sub_server.Parse.Lines.Passes.{
  seen_after, firsts-firsts, seen_after-firsts, firsts-append, accepted-append,
}
use vless_sub_server.Quality.Identity.{Library}
use vless_sub_server.Pipeline.Attribution.{
  SourceAttribution, Ledger, attribute, attribute_all, own_counts, attribute_from,
  attribute_sources,
}

-- The sum of one count over all sources.
abbrev pub total : (SourceAttribution → ℕ) → List SourceAttribution → ℕ
total f [] = 0
total f (a ∷ attrs) = f a + total f attrs

module _ (lib : Library) (p : Parsers) where
  record Attributes (s : Ledger) (rs : List ProxyRecord) (s' : Ledger) : Type 0 where
    seen : s'.seen ≡ seen_after s.seen rs
    unique : s'.attr.unique ≡ s.attr.unique + length (firsts s.seen rs)
    both : s'.attr.unique + s'.attr.duplicates ≡ s.attr.unique + s.attr.duplicates + length rs
    skipped : s'.attr.skipped ≡ s.attr.skipped

  attribute_all-Attributes :
      (i : ℕ) (s : Ledger) (rs : List ProxyRecord) → Attributes s rs (attribute_all lib p i s rs)
  unfolding attribute_all attribute
  attribute_all-Attributes i s [] = record {
    seen = refl;
    unique = omega arith;
    both = omega arith;
    skipped = refl;
  }
  attribute_all-Attributes i s (r ∷ rs) =
      let a = attribute_all-Attributes i (attribute lib p i s r) rs in
      record {
        seen = ground (arith, a.seen);
        unique = ground (arith, a.unique);
        both = ground (arith, a.both);
        skipped = ground (arith, a.skipped);
      }

  -- What the outer loop counts for the sources `srcs`, whose lines stand for the records `rs`.
  record Totals (seen : List Text) (srcs : List MergedSource) (attrs : List SourceAttribution)
      : Type 0 where
    unique : total (λ a. a.unique) attrs ≡ length (firsts seen (accepted p (all_lines srcs)))
    duplicates :
        total (λ a. a.unique) attrs + total (λ a. a.duplicates) attrs
        ≡ length (accepted p (all_lines srcs))
    skipped :
        total (λ a. a.skipped) attrs + length (accepted p (all_lines srcs))
        ≡ length (all_lines srcs)

  -- The counts of one source.
  record Counted (seen : List Text) (lines : List Text) (attr : SourceAttribution) : Type 0 where
    unique : attr.unique ≡ length (firsts seen (accepted p lines))
    both : attr.unique + attr.duplicates ≡ length (accepted p lines)
    skipped : attr.skipped + length (accepted p lines) ≡ length lines

  attribute_all-Counted :
      (i : ℕ) (owners : Dict Text ℕ) (seen : List Text) (src : MergedSource)
      → let s =
          attribute_all lib p i
            (record { owners = owners; seen = seen; attr = own_counts lib p src })
            (parse_all_lines p src.lines).records in
        Counted seen src.lines s.attr × (s.seen ≡ seen_after seen (accepted p src.lines))
  unfolding own_counts
  attribute_all-Counted i owners seen src =
      let s : Ledger = record { owners = owners; seen = seen; attr = own_counts lib p src } in
      let rs = (parse_all_lines p src.lines).records in
      let a = attribute_all-Attributes i s rs in
      let e = parse_all_lines-firsts p src.lines in
      let (all, dropped) = parse_all_lines_counts p src.lines in
      let u =
        ap (λ q. length (firsts seen q)) e
        ∙ ap length (firsts-firsts seen [] (accepted p src.lines) (λ k h. absurd (ground arith))) in
      let n = ap length e in
      (
        record {
          unique = omega (arith, a.unique, u);
          both = omega (arith, a.both, all, dropped);
          skipped = omega (arith, a.skipped, dropped);
        },
        a.seen
            ∙ ap (seen_after seen) e
            ∙ seen_after-firsts seen [] (accepted p src.lines) (λ k h. absurd (ground arith)),
      )

  attribute_from-Totals :
      (i : ℕ) (owners : Dict Text ℕ) (seen : List Text) (srcs : List MergedSource)
      → Totals seen srcs (attribute_from lib p i owners seen srcs).0
  unfolding attribute_from
  attribute_from-Totals i owners seen [] = record {
    unique = refl;
    duplicates = refl;
    skipped = refl;
  }
  attribute_from-Totals i owners seen (src ∷ srcs) =
      let s =
        attribute_all lib p i (record { owners = owners; seen = seen; attr = own_counts lib p src })
          (parse_all_lines p src.lines).records in
      let (c, e) = attribute_all-Counted i owners seen src in
      let rest = attribute_from-Totals (suc i) s.owners s.seen srcs in
      let split = accepted-append p src.lines (all_lines srcs) in
      let many =
        ap length split ∙ length-append (accepted p src.lines) (accepted p (all_lines srcs)) in
      let lines = length-append src.lines (all_lines srcs) in
      let first =
        ap (λ q. length (firsts seen q)) split
        ∙ ap length (firsts-append seen (accepted p src.lines) (accepted p (all_lines srcs)))
        ∙ length-append (firsts seen (accepted p src.lines))
            (firsts (seen_after seen (accepted p src.lines)) (accepted p (all_lines srcs))) in
      let same = ap (λ q. length (firsts q (accepted p (all_lines srcs)))) e in
      record {
        unique = omega (arith, c.unique, rest.unique, first, same);
        duplicates = omega (arith, c.both, rest.duplicates, many);
        skipped = omega (arith, c.skipped, rest.skipped, many, lines);
      }

  -- Over all sources the counts add up to those of one parse of all lines: a record is counted as
  -- unique for exactly one source, and a duplicate within a source or across sources is one
  -- duplicate.
  pub attribute_sources_counts :
      (merged : List MergedSource)
      → let attrs = (attribute_sources lib p merged).0 in
        let res = parse_all_lines p (all_lines merged) in
        (total (λ a. a.unique) attrs ≡ length res.records)
        × (total (λ a. a.duplicates) attrs ≡ res.duplicates)
        × (total (λ a. a.skipped) attrs ≡ res.skipped)
  unfolding attribute_sources
  attribute_sources_counts merged =
      let t = attribute_from-Totals 0 [] [] merged in
      let e = ap length (parse_all_lines-firsts p (all_lines merged)) in
      let (all, dropped) = parse_all_lines_counts p (all_lines merged) in
      (
        omega (arith, t.unique, e),
        omega (arith, t.unique, t.duplicates, all, dropped, e),
        omega (arith, t.skipped, dropped),
      )
