-- ===== src/Tests/Clients.antt =====
-- Tests of the requests of subscription clients and of their responses.
use vless_sub_server.Base.{◌≡◌, ◌+◌, refl, false, [], ◌∷◌, All, filter, length, arith}
use vless_sub_server.Base.Text.{text, text_eq, trim_space, has_prefix, to_lower}
use vless_sub_server.Base.Result.{ok}
use vless_sub_server.Country.Codes.{parse_codes}
use vless_sub_server.Pipeline.Cached.{russia, without_rules}
use vless_sub_server.Subview.Request.{
  Options, Values, url, json, husi, v2rayng, all_values, parse_for_client, parse_format, parse_warp,
  check_warp, parse_profile, parse_exclude, is_flattened, detect_client,
}
use vless_sub_server.Subview.Request.Laws.{
  IsServed, explicit, parse_for_client-IsServed, parse_for_client-explicit,
}
use vless_sub_server.Subview.Render.{view, render, respond, is_prepared, format_body, is_healthy}
use vless_sub_server.Subview.Render.Laws.{
  IsServable, served, serves, render-prepared, render_excluding,
}
use vless_sub_server.Tests.Values.{formatters, cached_data}

abbrev query : Values
query = (text "format", text "json" ∷ []) ∷ (text "profile", text "none" ∷ []) ∷ []

abbrev options : Options
options = record { format = json; warp = false; profile = without_rules; exclude = [] }

-- A client that flattens the config gets no WARP.
accepted : parse_for_client query husi ≡ ok options
unfolding parse_for_client parse_format parse_warp check_warp parse_profile parse_exclude
    parse_codes is_flattened text_eq
accepted = refl

parse_for_client-IsServed_example :
    IsServed husi options × (parse_codes (all_values (text "exclude") query) ≡ ok options.exclude)
parse_for_client-IsServed_example = parse_for_client-IsServed query husi options accepted

parse_for_client-explicit_example : parse_for_client (explicit options query) husi ≡ ok options
parse_for_client-explicit_example = parse_for_client-explicit query husi options accepted

detected : detect_client (text " V2RayNG/1.9") [] ≡ v2rayng
unfolding detect_client trim_space has_prefix to_lower text_eq
detected = refl

abbrev plain : Options
plain = record { format = url; warp = false; profile = russia; exclude = [] }

render-prepared_example :
    (render formatters 5 cached_data plain).body
    ≡ (respond formatters 3 cached_data plain
        (view plain.warp plain.exclude cached_data.entries)).body
unfolding is_prepared
render-prepared_example = render-prepared formatters 3 5 cached_data plain refl refl

abbrev excluding : Options
excluding = record plain { exclude = text "RO" ∷ [] }

render_excluding_example :
    let res = render formatters 5 cached_data excluding in
    let names = served false (text "RO" ∷ []) cached_data.entries in
    (res.body
      ≡ format_body formatters 5 excluding names
          (record (cached_data.metadata) { total_alive = length names })
          url)
    × (res.entry_count ≡ length names)
    × (res.entry_count + res.filtered ≡ length (filter (is_healthy false) cached_data.entries))
    × All
        (IsServable false (text "RO" ∷ []))
        (filter (serves false (text "RO" ∷ [])) cached_data.entries)
render_excluding_example = render_excluding formatters 5 cached_data excluding (ground arith)
