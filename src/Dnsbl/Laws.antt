-- ===== src/Dnsbl/Laws.antt =====
-- The results of a check against the block lists.
use vless_sub_server.Base.{
  ◌≡◌, refl, Bool, true, false, not, List, [], ◌∷◌, ◌++◌, Option, none, some, inl, inr,
  if◌then◌else◌, Bool-cases,
}
use vless_sub_server.Base.Text.{Text, text, text_eq, has_prefix}
use vless_sub_server.Dnsbl.{
  DnsList, Resolution, found, failed, Address, status_listed, status_clean, status_unknown, result,
  classify_lookup, lookup_list, reverse_ipv4, all_unknown, lookup_all, check_ip,
}
use vless_sub_server.Pipeline.Cached.{DnsblResult}

-- What a result may say of a list, by what the resolver answers for the address and the list.
pub data IsVerdict (answer : Option Resolution) (list : DnsList) : DnsblResult → Type 0 where
  is_listed :
      {code : Text} {codes : List Text}
      → answer ≡ some (found (code ∷ codes))
      → has_prefix code (text "127.") ≡ true
      → IsVerdict answer list (result list true code status_listed)
  is_clean : answer ≡ some (failed true) → IsVerdict answer list (result list false [] status_clean)
  is_unknown : IsVerdict answer list (result list false [] status_unknown)

-- One verdict for each list, in the order of the lists.
abbrev pub AreVerdicts : (DnsList → Option Resolution) → List DnsList → List DnsblResult → Type 0
AreVerdicts answer [] [] = Unit
AreVerdicts answer [] (r ∷ rs) = ⊥
AreVerdicts answer (list ∷ lists) [] = ⊥
AreVerdicts answer (list ∷ lists) (r ∷ rs) =
    IsVerdict (answer list) list r × AreVerdicts answer lists rs

-- The resolver's answer for a list, if the address can be asked for.
abbrev pub answer_for : (Text → Resolution) → Address → DnsList → Option Resolution
answer_for resolve ip list = if not ip.is_4 then none else elim (reverse_ipv4 ip) [
  | none ↦ none
  | some reversed ↦ some (resolve (reversed ++ b'.' ∷ list.zone))
]

lookup_list-IsVerdict :
    (resolve : Text → Resolution) (reversed : Text) (list : DnsList)
    → IsVerdict
        (some (resolve (reversed ++ b'.' ∷ list.zone)))
        list
        (lookup_list resolve reversed list)
unfolding lookup_list classify_lookup text_eq
lookup_list-IsVerdict resolve reversed list =
    elim (resolve (reversed ++ b'.' ∷ list.zone))
      as (λ a. IsVerdict (some a) list (lookup_list (λ t. a) reversed list)) [
        | failed true ↦ is_clean refl
        | failed false ↦ is_unknown
        | found [] ↦ is_unknown
        | found (code ∷ codes) ↦ elim (Bool-cases (has_prefix code (text "127."))) [
          | inl e ↦ rw e (is_listed refl e)
          | inr e ↦ rw e is_unknown
        ]
      ]

all_unknown-AreVerdicts :
    (answer : DnsList → Option Resolution) (lists : List DnsList)
    → AreVerdicts answer lists (all_unknown lists)
unfolding all_unknown
all_unknown-AreVerdicts answer [] = tt
all_unknown-AreVerdicts answer (list ∷ lists) = (is_unknown, all_unknown-AreVerdicts answer lists)

lookup_all-AreVerdicts :
    (cancelled : DnsList → Bool) (resolve : Text → Resolution) (reversed : Text)
    (lists : List DnsList)
    → AreVerdicts
        (λ list. some (resolve (reversed ++ b'.' ∷ list.zone)))
        lists
        (lookup_all cancelled resolve reversed lists)
unfolding lookup_all
lookup_all-AreVerdicts cancelled resolve reversed [] = tt
lookup_all-AreVerdicts cancelled resolve reversed (list ∷ lists) =
    let rest = lookup_all-AreVerdicts cancelled resolve reversed lists in
    elim (Bool-cases (cancelled list)) [
      | inl e ↦ rw e (is_unknown, rest)
      | inr e ↦ rw e (lookup_list-IsVerdict resolve reversed list, rest)
    ]

check_reversed-AreVerdicts :
    (cancelled : DnsList → Bool) (resolve : Text → Resolution) (shown : Text) (lists : List DnsList)
    (o : Option Text)
    → let ip : Address = record { is_4 = true; shown = shown } in
      reverse_ipv4 ip ≡ o
      → AreVerdicts (answer_for resolve ip) lists (check_ip cancelled resolve ip lists)
unfolding check_ip
check_reversed-AreVerdicts cancelled resolve shown lists none e =
    rw (e, answer_for) (all_unknown-AreVerdicts (λ list. none) lists)
check_reversed-AreVerdicts cancelled resolve shown lists (some reversed) e =
    rw (e, answer_for) (lookup_all-AreVerdicts cancelled resolve reversed lists)

check_family-AreVerdicts :
    (cancelled : DnsList → Bool) (resolve : Text → Resolution) (is_4 : Bool) (shown : Text)
    (lists : List DnsList)
    → let ip : Address = record { is_4 = is_4; shown = shown } in
      AreVerdicts (answer_for resolve ip) lists (check_ip cancelled resolve ip lists)
unfolding check_ip
check_family-AreVerdicts cancelled resolve true shown lists =
    check_reversed-AreVerdicts cancelled resolve shown lists
      (reverse_ipv4 (record { is_4 = true; shown = shown })) refl
check_family-AreVerdicts cancelled resolve false shown lists =
    all_unknown-AreVerdicts (λ list. none) lists

-- `CheckIP` gives one result for each list, in order and under the list's zone and name. A result says
-- "listed" only if the address is IPv4 and the resolver's first answer for it and the list begins with
-- 127., which is the return code; "clean" only if the resolver says that the name does not exist; and
-- otherwise "unknown".
pub check_ip-AreVerdicts :
    (cancelled : DnsList → Bool) (resolve : Text → Resolution) (ip : Address) (lists : List DnsList)
    → AreVerdicts (answer_for resolve ip) lists (check_ip cancelled resolve ip lists)
check_ip-AreVerdicts cancelled resolve ip lists =
    check_family-AreVerdicts cancelled resolve ip.is_4 ip.shown lists
