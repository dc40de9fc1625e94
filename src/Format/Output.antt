-- ===== src/Format/Output.antt =====
-- internal/format/format.go: the list of links under its header.
use vless_sub_server.Base.{ℕ, ◌+◌, List, [], ◌∷◌, ◌++◌}
use vless_sub_server.Base.Int.{pos}
use vless_sub_server.Base.Text.{Text, text}
use vless_sub_server.Base.Clock.{Time}
use vless_sub_server.Format.Links.{Encoders, reconstruct_url}
use vless_sub_server.Format.Vmess.{VmessLibrary, reconstruct_vmess}
use vless_sub_server.Parse.Query.{itoa}
use vless_sub_server.Pipeline.Cached.{FormatMetadata}
use vless_sub_server.Rename.{RenamedEntry}

-- `%d`
abbrev shown : ℕ → Text
shown n = itoa (pos n)

-- `show_time` formats an instant as the date and the time of Moscow.
unfoldable pub header_lines : (Time → Text) → Time → FormatMetadata → List Text
header_lines show_time now meta =
    text "# profile-title: Proxy Subscription Parser"
    ∷ text "# profile-update-interval: 1"
    ∷ (text "# Date/Time: " ++ (show_time now ++ text " (Moscow)"))
    ∷ (text "# Количество: " ++ shown meta.total_alive)
    ∷ (text "# Sources: "
        ++ (shown meta.sources_ok
            ++ (text " ok, " ++ (shown meta.sources_failed ++ text " failed"))))
    ∷ (text "# Parsed: "
        ++ (shown meta.total_parsed
            ++ (text " valid, "
                ++ (shown meta.total_skipped
                    ++ (text " skipped, "
                        ++ (shown meta.total_duplicates ++ text " duplicates"))))))
    ∷ (text "# Probed: "
        ++ (shown (meta.total_alive + meta.total_dead)
            ++ (text " total, "
                ++ (shown meta.total_alive
                    ++ (text " alive, " ++ (shown meta.total_dead ++ text " dead"))))))
    ∷ (text "# Geo: available for " ++ (shown meta.geo_available ++ b'/' ∷ shown meta.geo_total))
    ∷ text "---"
    ∷ []

unfoldable pub link_lines : Encoders → VmessLibrary → List RenamedEntry → List Text
link_lines enc lib [] = []
link_lines enc lib (e ∷ entries) =
    reconstruct_url enc (reconstruct_vmess lib) e.entry e.renamed_fragment
    ∷ link_lines enc lib entries

-- `strings.Join(lines, "\n")`
unfoldable pub join_lines : List Text → Text
join_lines [] = []
join_lines (line ∷ []) = line
join_lines (line ∷ next ∷ lines) = line ++ 10 ∷ join_lines (next ∷ lines)

unfoldable pub format_output :
    Encoders → VmessLibrary → (Time → Text) → Time → List RenamedEntry → FormatMetadata → Text
unfolding header_lines link_lines join_lines
format_output enc lib show_time now entries meta =
    join_lines (header_lines show_time now meta ++ link_lines enc lib entries)
