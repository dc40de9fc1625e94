-- ===== src/Rename.antt =====
-- internal/rename/rename.go: the names under which the routes are published.
pub mod Laws
use vless_sub_server.Base.{
  ℕ, suc, ◌+◌, Bool, true, false, ◌&&◌, not, List, [], ◌∷◌, ◌++◌, map, Option, none, some, leb, ltb,
  length, take, if◌then◌else◌,
}
use vless_sub_server.Base.Text.{Text, text, is_empty, to_upper}
use vless_sub_server.Base.Dict.{Dict, lookup, insert, has, Text-eq}
use vless_sub_server.Parse.Record.{ProxyRecord}
use vless_sub_server.Parse.Query.{decimal, utf8}
use vless_sub_server.Quality.Identity.{Library}
use vless_sub_server.Quality.Runtime.{GeoInfo}

pub record RenamedEntry : Type 0 where
  pub entry : ProxyRecord
  pub renamed_fragment : Text

-- The elements of the slice that `RenameAll` takes.
pub record Named : Type 0 where
  pub entry : ProxyRecord
  pub geo : Option GeoInfo
  pub is_lan : Bool

-- The bytes of a string.
bytes : Text → List ℕ
unfolding utf8
bytes [] = []
bytes (c ∷ s) = utf8 c ++ bytes s

-- Two bytes become two regional indicators.
flag_of : Text → List ℕ → Text
flag_of code (a ∷ b ∷ []) = (a + 0x1F1A5) ∷ (b + 0x1F1A5) ∷ []
flag_of code other = code

unfoldable pub country_code_to_flag : Text → Text
unfolding flag_of bytes
country_code_to_flag code = flag_of code (bytes code)

or_unknown : Text → Text
or_unknown s = if is_empty s then text "Unknown" else s

is_pair : List ℕ → Bool
is_pair (a ∷ b ∷ []) = true
is_pair other = false

unfoldable pub build_name : Option GeoInfo → Text
unfolding or_unknown country_code_to_flag is_pair bytes to_upper
build_name none = 0x1F310 ∷ text " Unknown (Unknown)"
build_name (some g) =
    let flag =
      if is_pair (bytes g.country_code)
      then country_code_to_flag (to_upper g.country_code)
      else 0x1F310 ∷ [] in
    flag ++ (32 ∷ (or_unknown g.city ++ (text " (" ++ (or_unknown g.isp ++ text ")"))))

-- The first three bytes of the hash are the first six digits of it.
unfoldable pub exit_id : Library → Text → Text
exit_id lib ip = take 6 (lib.sha256_hex ip)

-- `r.Geo.IP`, empty without a place.
unfoldable pub exit_ip : Option GeoInfo → Text
exit_ip none = []
exit_ip (some g) = g.ip

abbrev pub Ips : Type 0
Ips = Dict Text (List Text)

-- The set kept for a name.
abbrev pub ips_at : Text → Ips → List Text
ips_at name m = elim (lookup name m) [ none ↦ [] | some ips ↦ ips ]

unfoldable pub add_ip : Text → List Text → List Text
add_ip ip ips = if has ip ips then ips else ip ∷ ips

-- The first loop.
unfoldable pub collect : List Named → Ips → Ips
unfolding exit_ip add_ip
collect [] m = m
collect (r ∷ rs) m =
    let name = build_name r.geo in
    let ip = exit_ip r.geo in
    if is_empty ip then collect rs m else collect rs (insert name (add_ip ip (ips_at name m)) m)

-- The first statements of the second loop.
unfoldable pub full_name : Library → Ips → Option GeoInfo → Text
unfolding exit_ip
full_name lib m geo =
    let name = build_name geo in
    let ip = exit_ip geo in
    if not (is_empty ip) && ltb 1 (length (ips_at name m))
    then name ++ (32 ∷ 0xb7 ∷ 32 ∷ exit_id lib ip)
    else name

-- The name of the entry that `count` others of the same name precede.
unfoldable pub final_name : Text → ℕ → Text
final_name name count =
    if ltb 0 count then name ++ (text " (" ++ (decimal (count + 1) ++ text ")")) else name

abbrev pub count_at : Text → Dict Text ℕ → ℕ
count_at name counts = elim (lookup name counts) [ none ↦ 0 | some n ↦ n ]

-- The second loop.
unfoldable pub name_all : Library → Ips → Dict Text ℕ → List Named → List RenamedEntry
name_all lib m counts [] = []
name_all lib m counts (r ∷ rs) =
    let name = full_name lib m r.geo in
    let count = count_at name counts in
    record { entry = r.entry; renamed_fragment = final_name name count }
    ∷ name_all lib m (insert name (count + 1) counts) rs

unfoldable pub rename_all : Library → List Named → List RenamedEntry
unfolding name_all collect
rename_all lib rs = name_all lib (collect rs []) [] rs
