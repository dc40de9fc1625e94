-- ===== src/Pipeline/Attribution.antt =====
-- internal/pipeline/attribution.go: the counts of each subscription source in one refresh.
pub mod Laws
use vless_sub_server.Base.{ℕ, suc, ◌+◌, Bool, List, [], ◌∷◌, length, if◌then◌else◌}
use vless_sub_server.Base.Text.{Text}
use vless_sub_server.Base.Dict.{Dict, insert, has, Text-eq}
use vless_sub_server.Fetch.Sources.{MergedSource}
use vless_sub_server.Parse.Record.{ProxyRecord}
use vless_sub_server.Parse.Query.{dedup_key}
use vless_sub_server.Parse.Lines.{Parsers, parse_all_lines}
use vless_sub_server.Quality.Identity.{Library, identity}

pub record SourceAttribution : Type 0 where
  pub url : Text
  pub fetch_ok : Bool
  pub stale : Bool
  pub via_proxy : Bool
  pub lines : ℕ
  pub parsed : ℕ
  pub skipped : ℕ
  pub duplicates : ℕ
  pub unique : ℕ

-- The variables of both loops: `owners`, `seen` and the source at hand.
pub record Ledger : Type 0 where
  pub owners : Dict Text ℕ
  pub seen : List Text
  pub attr : SourceAttribution

module _ (lib : Library) (p : Parsers) where
  -- One round of the inner loop, for the source at index `i`.
  unfoldable pub attribute : ℕ → Ledger → ProxyRecord → Ledger
  attribute i s r =
      if has (dedup_key r) s.seen
      then record s { attr = record (s.attr) { duplicates = s.attr.duplicates + 1 } }
      else record {
        owners = insert (identity lib r) i s.owners;
        seen = dedup_key r ∷ s.seen;
        attr = record (s.attr) { unique = s.attr.unique + 1 };
      }

  unfoldable pub attribute_all : ℕ → Ledger → List ProxyRecord → Ledger
  unfolding attribute
  attribute_all i s [] = s
  attribute_all i s (r ∷ rs) = attribute_all i (attribute i s r) rs

  -- The source's own counts, before its records are compared with those of earlier sources.
  unfoldable pub own_counts : MergedSource → SourceAttribution
  unfolding parse_all_lines
  own_counts src =
      let result = parse_all_lines p src.lines in
      record {
        url = src.url;
        fetch_ok = src.fetch_ok;
        stale = src.stale;
        via_proxy = src.via_proxy;
        lines = length src.lines;
        parsed = length result.records;
        skipped = result.skipped;
        duplicates = result.duplicates;
        unique = 0;
      }

  -- The outer loop from the index `i` on.
  unfoldable pub attribute_from :
      ℕ → Dict Text ℕ → List Text → List MergedSource → List SourceAttribution × Dict Text ℕ
  unfolding own_counts attribute_all
  attribute_from i owners seen [] = ([], owners)
  attribute_from i owners seen (src ∷ srcs) =
      let s =
        attribute_all i (record { owners = owners; seen = seen; attr = own_counts src })
          (parse_all_lines p src.lines).records in
      let (attrs, owners') = attribute_from (suc i) s.owners s.seen srcs in
      (s.attr ∷ attrs, owners')

  unfoldable pub attribute_sources : List MergedSource → List SourceAttribution × Dict Text ℕ
  unfolding attribute_from
  attribute_sources merged = attribute_from 0 [] [] merged
