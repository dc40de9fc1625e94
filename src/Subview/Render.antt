-- ===== src/Subview/Render.antt =====
-- internal/subview/view.go, `Render`: the entries of a response.
pub mod Laws
use vless_sub_server.Base.{
  ℕ, suc, ◌+◌, Bool, true, false, ◌&&◌, ◌||◌, not, List, [], ◌∷◌, length, if◌then◌else◌,
}
use vless_sub_server.Base.Text.{Text, is_empty}
use vless_sub_server.Base.Clock.{Time}
use vless_sub_server.Country.Filter.{Decision, filter}
use vless_sub_server.Country.Codes.{Codes}
use vless_sub_server.Parse.Record.{is_set}
use vless_sub_server.Rename.{RenamedEntry}
use vless_sub_server.Pipeline.Cached.{
  FormatMetadata, RoutingProfile, unset, russia, without_rules, Formatters, CachedEntry, CachedData,
}
use vless_sub_server.Subview.Request.{Format, url, json, singbox, clash, is_url, Options}

pub record Response : Type 0 where
  pub body : Text
  pub filtered : ℕ
  pub unknown : ℕ
  pub conflict : ℕ
  pub entry_count : ℕ

-- The variables of the loop.
pub record View : Type 0 where
  pub entries : List RenamedEntry
  pub filtered : ℕ
  pub unknown : ℕ
  pub conflict : ℕ

abbrev pub empty_view : View
empty_view = record { entries = []; filtered = 0; unknown = 0; conflict = 0 }

abbrev pub is_default : RoutingProfile → Bool
is_default without_rules = false
is_default p = true

abbrev pub no_codes : Codes → Bool
no_codes [] = true
no_codes (c ∷ cs) = false

-- What an entry that is healthy on the route does to the rest of the loop.
unfoldable pub add_decision : Decision → RenamedEntry → View → View
add_decision d entry v =
    let v' = record v { unknown = d.unknown + v.unknown; conflict = d.conflict + v.conflict } in
    if d.included
    then record v' { entries = entry ∷ v.entries }
    else record v' { filtered = suc v.filtered }

unfoldable pub format_body :
    Formatters → Time → Options → List RenamedEntry → FormatMetadata → Format → Text
format_body fmt now o entries meta url = fmt.output now entries meta
format_body fmt now o entries meta json = fmt.xray_json entries meta o.warp o.profile
format_body fmt now o entries meta singbox = fmt.singbox_json entries meta o.warp o.profile
format_body fmt now o entries meta clash = fmt.clash_yaml entries meta o.warp o.profile

module _ {F : Type 0} where
  -- `options.Warp && !cached.WarpHealthy || !options.Warp && !cached.DirectHealthy`, negated.
  abbrev pub is_healthy : Bool → CachedEntry F → Bool
  is_healthy warp c = if warp then c.warp_healthy else c.direct_healthy

  -- `entry` in the loop.
  unfoldable pub shown : Bool → CachedEntry F → RenamedEntry
  shown warp c = if warp && is_set c.warp_entry.entry.protocol then c.warp_entry else c.entry

  unfoldable pub view : Bool → Codes → List (CachedEntry F) → View
  unfolding add_decision shown
  view warp exclude [] = empty_view
  view warp exclude (c ∷ cs) =
      let rest = view warp exclude cs in
      if is_healthy warp c
      then add_decision (filter c.countries warp exclude) (shown warp c) rest
      else rest

  -- What follows the loop.
  unfoldable pub respond : Formatters → Time → CachedData F → Options → View → Response
  unfolding format_body
  respond fmt now data_ o v = record {
    body =
        format_body fmt now o v.entries (record (data_.metadata) { total_alive = length v.entries })
          o.format;
    filtered = v.filtered;
    unknown = v.unknown;
    conflict = v.conflict;
    entry_count = length v.entries;
  }

  -- Whether the text that was formatted at publication serves.
  unfoldable pub is_prepared : CachedData F → Options → Bool
  is_prepared data_ o =
      no_codes o.exclude
      && (is_default o.profile && (is_url o.format && (not o.warp && not (is_empty data_.output))))

  unfoldable pub render : Formatters → Time → CachedData F → Options → Response
  unfolding respond view is_prepared
  render fmt now data_ o =
      if is_prepared data_ o
      then record {
        body = data_.output;
        filtered = 0;
        unknown = 0;
        conflict = 0;
        entry_count = length data_.entries;
      }
      else respond fmt now data_ o (view o.warp o.exclude data_.entries)
