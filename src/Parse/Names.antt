-- ===== src/Parse/Names.antt =====
-- internal/parse/parse.go, `ApplyNameFilter`: records are kept by what their fragments contain.
use vless_sub_server.Base.{not, List, filter, if◌then◌else◌}
use vless_sub_server.Base.Text.{Text, is_empty, contains}
use vless_sub_server.Parse.Record.{ProxyRecord}

unfoldable pub apply_name_filter : List ProxyRecord → Text → Text → List ProxyRecord
apply_name_filter records include exclude =
    let kept =
      if not (is_empty exclude)
      then filter (λ r. not (contains r.fragment exclude)) records
      else records in
    if not (is_empty include) then filter (λ r. contains r.fragment include) kept else kept
