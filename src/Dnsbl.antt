-- ===== src/Dnsbl.antt =====
-- internal/dnsbl/dnsbl.go: whether the block lists name an address. The resolver is a parameter. The
-- lookups run at once, a bounded number at a time; each writes the result at its own position.
pub mod Laws
use vless_sub_server.Base.{
  ℕ, ◌≡◌, Bool, true, false, not, List, [], ◌∷◌, ◌++◌, Option, none, some, if◌then◌else◌,
}
use vless_sub_server.Base.Text.{Text, text, text_eq, has_prefix, split}
use vless_sub_server.Pipeline.Cached.{DnsblResult}

pub record DnsList : Type 0 where
  pub zone : Text
  pub name : Text

abbrev pub status_listed : Text
status_listed = text "listed"

abbrev pub status_clean : Text
status_clean = text "clean"

abbrev pub status_unknown : Text
status_unknown = text "unknown"

abbrev listed_zone : Text → Text → DnsList
listed_zone zone name = record { zone = zone; name = name }

unfoldable pub default_lists : List DnsList
default_lists =
    listed_zone (text "zen.spamhaus.org") (text "Spamhaus ZEN")
    ∷ listed_zone (text "b.barracudacentral.org") (text "Barracuda BRBL")
    ∷ listed_zone (text "bl.spamcop.net") (text "SpamCop")
    ∷ listed_zone (text "dnsbl.sorbs.net") (text "SORBS aggregate")
    ∷ listed_zone (text "all.spamrats.com") (text "Spamrats")
    ∷ listed_zone (text "bl.mailspike.net") (text "Mailspike")
    ∷ listed_zone (text "bl.spameatingmonkey.net") (text "SpamEatingMonkey")
    ∷ listed_zone (text "dnsbl-1.uceprotect.net") (text "UCEProtect-1")
    ∷ listed_zone (text "ix.dnsbl.manitu.net") (text "Manitu")
    ∷ listed_zone (text "spam.dnsbl.sophos.com") (text "Sophos")
    ∷ []

-- What `LookupHost` returns; `failed` tells whether the error is a DNS error that says "not found".
pub data Resolution : Type 0 where
  found : List Text → Resolution
  failed : Bool → Resolution

-- `netip.Addr`: whether it is an IPv4 address, and its text.
pub record Address : Type 0 where
  pub is_4 : Bool
  pub shown : Text

unfoldable pub classify_lookup : Resolution → Text
classify_lookup (failed not_found) = if not_found then status_clean else status_unknown
classify_lookup (found []) = status_unknown
classify_lookup (found (ip ∷ ips)) =
    if has_prefix ip (text "127.") then status_listed else status_unknown

abbrev pub result : DnsList → Bool → Text → Text → DnsblResult
result list listed return_code status = record {
  zone = list.zone;
  name = list.name;
  listed = listed;
  return_code = return_code;
  status = status;
}

-- `ips[0]`, which is read only where the first address is there.
abbrev first_code : Resolution → Text
first_code (failed not_found) = []
first_code (found []) = []
first_code (found (ip ∷ ips)) = ip

-- The answer of the resolver for `reversed + "." + list.Zone`, within the time that is left.
unfoldable pub lookup_list : (Text → Resolution) → Text → DnsList → DnsblResult
unfolding classify_lookup
lookup_list resolve reversed list =
    let answer = resolve (reversed ++ b'.' ∷ list.zone) in
    let status = classify_lookup answer in
    if text_eq status status_clean
    then result list false [] status_clean
    else if text_eq status status_unknown
    then result list false [] status_unknown
    else result list true (first_code answer) status_listed

unfoldable pub reverse_ipv4 : Address → Option Text
reverse_ipv4 ip = elim (split b'.' ip.shown) [
  | a ∷ b ∷ c ∷ d ∷ [] ↦ some (d ++ b'.' ∷ (c ++ b'.' ∷ (b ++ b'.' ∷ a)))
  | other ↦ none
]

unfoldable pub all_unknown : List DnsList → List DnsblResult
all_unknown [] = []
all_unknown (list ∷ lists) = result list false [] status_unknown ∷ all_unknown lists

-- The goroutine of each list; `cancelled` tells whether the context ended before its turn came.
unfoldable pub lookup_all :
    (DnsList → Bool) → (Text → Resolution) → Text → List DnsList → List DnsblResult
unfolding lookup_list
lookup_all cancelled resolve reversed [] = []
lookup_all cancelled resolve reversed (list ∷ lists) =
    (if cancelled list
      then result list false [] status_unknown
      else lookup_list resolve reversed list)
    ∷ lookup_all cancelled resolve reversed lists

unfoldable pub check_ip :
    (DnsList → Bool) → (Text → Resolution) → Address → List DnsList → List DnsblResult
unfolding all_unknown lookup_all reverse_ipv4
check_ip cancelled resolve ip lists =
    if not ip.is_4 then all_unknown lists else elim (reverse_ipv4 ip) [
      | none ↦ all_unknown lists
      | some reversed ↦ lookup_all cancelled resolve reversed lists
    ]
