-- ===== src/Tests/Pipeline.antt =====
-- Tests of the refresh: probes, names, publication, and the gateway's candidates.
use vless_sub_server.Base.{ℕ, ◌≡◌, refl, false, List, [], ◌∷◌, map, none, some, if◌then◌else◌}
use vless_sub_server.Base.Text.{Text, text, text_eq}
use vless_sub_server.Base.Int.{pos}
use vless_sub_server.Base.Clock.{minute}
use vless_sub_server.Fetch.Sources.{FetchResult}
use vless_sub_server.Quality.State.{Observation, transition, default_state_config}
use vless_sub_server.Quality.State.Laws.{HasEdge}
use vless_sub_server.Quality.Runtime.{Runtime, get}
use vless_sub_server.Quality.Identity.{identity}
use vless_sub_server.Parse.Query.{itoa}
use vless_sub_server.Rename.{Named, rename_all}
use vless_sub_server.Rename.Laws.{numbered, public_name, rename_all_names}
use vless_sub_server.Pipeline.Cached.{rebuild_cached_countries}
use vless_sub_server.Pipeline.Probes.{update_runtime, old_state}
use vless_sub_server.Pipeline.Probes.Laws.{
  IsValid, IsJudged, update_runtime-IsValid, update_runtime_move,
}
use vless_sub_server.Pipeline.Publish.{OutputEntry}
use vless_sub_server.Pipeline.Publish.Laws.{rebuild-IsPrepared}
use vless_sub_server.Pipeline.Gateway.{gateway_candidates, retry_failed}
use vless_sub_server.Pipeline.Gateway.Laws.{
  places, IsDiverse, AreRetried, gateway_candidates-IsDiverse, retry_failed-AreRetried,
}
use vless_sub_server.Subview.Render.Laws.{IsPrepared}
use vless_sub_server.Tests.Values.{
  float, library, formatters, finland, finnish_routes, proxy, probe, runtime, empty_memory,
  empty_memory-IsValid, cached_data,
}

update_runtime-IsValid_example :
    IsValid (update_runtime float (pos minute) (text "k") (some probe) 7 empty_memory)
update_runtime-IsValid_example =
    update_runtime-IsValid float (pos minute) (text "k") (some probe) 7 empty_memory
      empty_memory-IsValid

update_runtime_move_example :
    ((o : Observation) × (r : Runtime ℕ) × IsJudged float (some probe) o
      × (get
            (text "k")
            (update_runtime float (pos minute) (text "k") (some probe) 7 empty_memory).runtime
          ≡ some r)
      × (r.state_data
          ≡ transition (old_state float (text "k") empty_memory) o 7 default_state_config)
      × HasEdge default_state_config (old_state float (text "k") empty_memory) o 7)
    × ((j : Text)
        → text_eq (text "k") j ≡ false
        → get j (update_runtime float (pos minute) (text "k") (some probe) 7 empty_memory).runtime
          ≡ get j empty_memory.runtime)
update_runtime_move_example =
    update_runtime_move float (pos minute) (text "k") (some probe) 7 empty_memory
      empty_memory-IsValid

abbrev routes : List Named
routes =
    record { entry = proxy (text "a"); geo = some finland; is_lan = false }
    ∷ record {
      entry = proxy (text "b");
      geo = some (record finland { ip = text "10.0.0.2" });
      is_lan = false;
    }
    ∷ []

rename_all_names_example :
    (map (λ e. e.entry) (rename_all library routes) ≡ map (λ r. r.entry) routes)
    × (map (λ e. e.renamed_fragment) (rename_all library routes)
        ≡ numbered [] (map (λ r. public_name library routes r.geo) routes))
rename_all_names_example = rename_all_names library routes

abbrev output_entry : Text → OutputEntry ℕ
output_entry host = record {
  entry = proxy host;
  geo = some finland;
  warp_geo = none;
  is_lan = false;
  countries = finnish_routes;
  intel = none;
  warp_intel = none;
  services = [];
  warp_services = [];
  port_results = [];
  warp_port_results = [];
  dnsbl_results = [];
  warp_dnsbl_results = [];
}

abbrev outputs : List (OutputEntry ℕ)
outputs = output_entry (text "a") ∷ output_entry (text "b") ∷ []

abbrev store : List (Text × Runtime ℕ)
store =
    (identity library (proxy (text "a")), runtime (text "a"))
    ∷ (identity library (proxy (text "b")), runtime (text "b"))
    ∷ []

rebuild-IsPrepared_example :
    IsPrepared formatters 9 (rebuild_cached_countries library formatters 9 store cached_data)
unfolding identity itoa text_eq
rebuild-IsPrepared_example =
    rebuild-IsPrepared library formatters 9 store cached_data
      ((runtime (text "a"), refl), ((runtime (text "b"), refl), tt))

gateway_candidates-IsDiverse_example :
    IsDiverse library
      (places 6)
      cached_data.entries
      (gateway_candidates library 6 (some cached_data))
gateway_candidates-IsDiverse_example = gateway_candidates-IsDiverse library 6 cached_data

abbrev failed : FetchResult
failed = record {
  url = text "u";
  status = text "error";
  lines = [];
  error = text "timeout";
  via = [];
}

-- The second tag works.
abbrev attempt : Text → Text → FetchResult
attempt tag url = record failed {
  url = url;
  status = if text_eq tag (text "2") then text "ok" else text "error";
}

retry_failed-AreRetried_example :
    AreRetried attempt
      (text "1" ∷ text "2" ∷ [])
      (failed ∷ [])
      (retry_failed attempt (text "1" ∷ text "2" ∷ []) (failed ∷ []))
retry_failed-AreRetried_example =
    retry_failed-AreRetried attempt (text "1" ∷ text "2" ∷ []) (failed ∷ [])
