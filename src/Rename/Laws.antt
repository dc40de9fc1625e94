-- ===== src/Rename/Laws.antt =====
-- internal/rename/rename.go: the names that `RenameAll` gives, without its maps.
use vless_sub_server.Base.{
  ℕ, zero, suc, ◌+◌, ◌≡◌, refl, inl, inr, ap, ◌∙◌, Bool, true, ◌&&◌, ◌||◌, not, List, [], ◌∷◌, ◌++◌,
  map, Option, ltb, length, arith, if◌then◌else◌, Bool-cases,
}
use vless_sub_server.Base.Text.{Text, text, is_empty, text_eq}
use vless_sub_server.Base.Text.Laws.{text_eq_iff, text_eq_refl}
use vless_sub_server.Base.Dict.{Dict, insert, has, Distinct, lookup-insert, Text-eq}
use vless_sub_server.Parse.Query.{decimal}
use vless_sub_server.Quality.Identity.{Library}
use vless_sub_server.Quality.Runtime.{GeoInfo}
use vless_sub_server.Rename.{
  Named, build_name, exit_ip, Ips, ips_at, add_ip, collect, exit_id, full_name, final_name,
  count_at, name_all, rename_all,
}

-- How often a name occurs.
abbrev pub occurrences : Text → List Text → ℕ
occurrences name [] = 0
occurrences name (n ∷ ns) =
    if text_eq n name then suc (occurrences name ns) else occurrences name ns

-- A name that occurred before with its number: the second occurrence has the number 2.
abbrev pub with_number : Text → ℕ → Text
with_number name zero = name
with_number name (suc n) = name ++ (text " (" ++ (decimal (n + 2) ++ text ")"))

final_name-with_number : (name : Text) (n : ℕ) → final_name name n ≡ with_number name n
unfolding final_name
final_name-with_number name zero = refl
final_name-with_number name (suc n) =
    let later : ltb 0 (suc n) ≡ true = ground arith in
    let e : suc n + 1 ≡ n + 2 = omega arith in rw (later, e) refl

-- Every name, with its number where it occurred before.
abbrev pub numbered : List Text → List Text → List Text
numbered before [] = []
numbered before (n ∷ ns) = with_number n (occurrences n before) ∷ numbered (n ∷ before) ns

-- The exit addresses that one name stands for.
abbrev pub ips_of : Text → List Named → List Text
ips_of name [] = []
ips_of name (r ∷ rs) =
    let rest = ips_of name rs in
    if is_empty (exit_ip r.geo)
    then rest
    else if text_eq (build_name r.geo) name
    then exit_ip r.geo ∷ rest
    else rest

-- Whether all members of a list are the same.
abbrev pub all_is : Text → List Text → Bool
all_is a [] = true
all_is a (b ∷ bs) = text_eq a b && all_is a bs

abbrev pub all_same : List Text → Bool
all_same [] = true
all_same (a ∷ bs) = all_is a bs

-- The name of one entry before it is numbered: entries with the same place and provider are told
-- apart by their exit, if there is more than one.
abbrev pub public_name : Library → List Named → Option GeoInfo → Text
public_name lib rs geo =
    let name = build_name geo in
    let ip = exit_ip geo in
    if is_empty ip || all_same (ips_of name rs)
    then name
    else name ++ (32 ∷ 0xb7 ∷ 32 ∷ exit_id lib ip)

all_is-has :
    (a k : Text) (bs : List Text) → all_is a bs ≡ true → has k bs ≡ true → text_eq a k ≡ true
all_is-has a k [] h m = absurd (ground arith)
all_is-has a k (b ∷ bs) h m =
    ground (arith, text_eq_iff a b, text_eq_iff b k, text_eq_iff a k, all_is-has a k bs)

all_is_of :
    (a : Text) (bs : List Text)
    → ((k : Text) → has k bs ≡ true → text_eq a k ≡ true)
    → all_is a bs ≡ true
all_is_of a [] h = refl
all_is_of a (b ∷ bs) h =
    let first = h b (ground (arith, text_eq_refl b)) in
    ground (arith, all_is_of a bs (λ k m. h k (ground (arith, text_eq_iff b k))))

-- A set has more than one member exactly if not all members of a list with the same members agree.
several_iff :
    (set list : List Text)
    → Distinct set
    → ((k : Text) → has k set ≡ has k list)
    → ltb 1 (length set) ≡ not (all_same list)
several_iff [] [] d h = refl
several_iff [] (b ∷ bs) d h = absurd (ground (arith, h b, text_eq_refl b))
several_iff (a ∷ []) [] d h = refl
several_iff (a ∷ []) (b ∷ bs) d h = ground (
  arith,
  text_eq_refl b,
  h b,
  text_eq_iff a b,
  all_is_of b bs (λ k m.
      ground (arith, h k, h b, text_eq_iff a k, text_eq_iff a b, text_eq_iff b k, text_eq_refl b)),
)
several_iff (a ∷ a' ∷ as') [] d h = absurd (ground (arith, h a, text_eq_refl a))
several_iff (a ∷ a' ∷ as') (b ∷ bs) d h = elim (Bool-cases (all_is b bs)) [
  | inl same ↦ absurd (
      ground (
        arith,
        h a,
        h a',
        text_eq_refl a,
        text_eq_refl a',
        all_is-has b a bs,
        all_is-has b a' bs,
        text_eq_iff b a,
        text_eq_iff b a',
        text_eq_iff a a',
        text_eq_iff a' a,
      ))
  | inr other ↦ rw other (ground arith)
]

ips_at-insert :
    (name name' : Text) (ips : List Text) (m : Ips)
    → ips_at name' (insert name ips m) ≡ (if text_eq name name' then ips else ips_at name' m)
ips_at-insert name name' ips m = rw (ips_at, lookup-insert name name' ips m) (ground arith)

has-add_ip : (k ip : Text) (ips : List Text) → has k (add_ip ip ips) ≡ (has k ips || text_eq ip k)
unfolding add_ip
has-add_ip k ip ips = ground (arith, text_eq_iff ip k)

Distinct-add_ip : (ip : Text) (ips : List Text) → Distinct ips → Distinct (add_ip ip ips)
unfolding add_ip
Distinct-add_ip ip ips d = ground arith

Distinct-insert :
    (n q x : Text) (m : Ips)
    → Distinct (ips_at n m)
    → Distinct (ips_at q m)
    → Distinct (ips_at q (insert n (add_ip x (ips_at n m)) m))
Distinct-insert n q x m d d' =
    rw (ips_at-insert n q (add_ip x (ips_at n m)) m) (elim (Bool-cases (text_eq n q)) [
      | inl e ↦ rw e (Distinct-add_ip x (ips_at n m) d)
      | inr e ↦ rw e d'
    ])

collect_member :
    (rs : List Named) (m : Ips) (name ip : Text)
    → has ip (ips_at name (collect rs m)) ≡ (has ip (ips_at name m) || has ip (ips_of name rs))
unfolding collect
collect_member [] m name ip = ground arith
collect_member (r ∷ rs) m name ip =
    let n = build_name r.geo in
    let x = exit_ip r.geo in
    let ips = add_ip x (ips_at n m) in
    ground (
      arith,
      collect_member rs m name ip,
      collect_member rs (insert n ips m) name ip,
      ips_at-insert n name ips m,
      has-add_ip ip x (ips_at n m),
      text_eq_iff n name,
      text_eq_iff x ip,
    )

collect-Distinct :
    (rs : List Named) (m : Ips)
    → ((name : Text) → Distinct (ips_at name m))
    → (name : Text) → Distinct (ips_at name (collect rs m))
unfolding collect
collect-Distinct [] m h name = h name
collect-Distinct (r ∷ rs) m h name =
    let n = build_name r.geo in
    let x = exit_ip r.geo in
    let ips = add_ip x (ips_at n m) in
    elim (Bool-cases (is_empty x)) [
      | inl without ↦ rw without (collect-Distinct rs m h name)
      | inr with_ip ↦
          rw with_ip
            (collect-Distinct rs (insert n ips m) (λ q. Distinct-insert n q x m (h n) (h q)) name)
    ]

module _ (lib : Library) where
  count_at-insert :
      (n name : Text) (k : ℕ) (counts : Dict Text ℕ)
      → count_at name (insert n k counts) ≡ (if text_eq n name then k else count_at name counts)
  count_at-insert n name k counts = rw (count_at, lookup-insert n name k counts) (ground arith)

  -- The map counts the names that came before.
  name_all-numbered :
      (m : Ips) (counts : Dict Text ℕ) (before : List Text) (rs : List Named)
      → ((name : Text) → count_at name counts ≡ occurrences name before)
      → map (λ e. e.renamed_fragment) (name_all lib m counts rs)
        ≡ numbered before (map (λ r. full_name lib m r.geo) rs)
  unfolding name_all
  name_all-numbered m counts before [] h = refl
  name_all-numbered m counts before (r ∷ rs) h =
      let n = full_name lib m r.geo in
      let rest =
        name_all-numbered m (insert n (count_at n counts + 1) counts) (n ∷ before) rs (λ name.
          ground (
            arith,
            h name,
            h n,
            text_eq_iff n name,
            count_at-insert n name (count_at n counts + 1) counts,
          )) in
      ap
        (λ k.
          final_name n k
          ∷ map (λ e. e.renamed_fragment)
              (name_all lib m (insert n (count_at n counts + 1) counts) rs))
        (h n)
      ∙ (ap
            (λ t.
              t
              ∷ map (λ e. e.renamed_fragment)
                  (name_all lib m (insert n (count_at n counts + 1) counts) rs))
            (final_name-with_number n (occurrences n before))
          ∙ ap (◌∷◌ (with_number n (occurrences n before))) rest)

  name_all-entries :
      (m : Ips) (counts : Dict Text ℕ) (rs : List Named)
      → map (λ e. e.entry) (name_all lib m counts rs) ≡ map (λ r. r.entry) rs
  unfolding name_all
  name_all-entries m counts [] = refl
  name_all-entries m counts (r ∷ rs) = ap (◌∷◌ r.entry) (
      name_all-entries m
        (insert (full_name lib m r.geo) (count_at (full_name lib m r.geo) counts + 1) counts) rs)

  map_cong :
      {f g : Named → Text} (rs : List Named) → ((r : Named) → f r ≡ g r) → map f rs ≡ map g rs
  map_cong [] h = refl
  map_cong {f = f} {g = g} (r ∷ rs) h =
      ap (λ t. t ∷ map f rs) (h r) ∙ ap (◌∷◌ (g r)) (map_cong rs h)

  full_name-public_name :
      (rs : List Named) (geo : Option GeoInfo)
      → full_name lib (collect rs []) geo ≡ public_name lib rs geo
  unfolding full_name
  full_name-public_name rs geo =
      let name = build_name geo in
      ground (
        arith,
        several_iff (ips_at name (collect rs [])) (ips_of name rs)
            (collect-Distinct rs [] (λ q. tt) name) (collect_member rs [] name),
      )

  -- Every route is published once, in the order given, under the name of its place and provider. An
  -- exit address that is known adds its hash to the name exactly if routes of the same name have
  -- different ones, and what still occurs again is numbered from the second occurrence on.
  pub rename_all_names :
      (rs : List Named)
      → (map (λ e. e.entry) (rename_all lib rs) ≡ map (λ r. r.entry) rs)
        × (map (λ e. e.renamed_fragment) (rename_all lib rs)
            ≡ numbered [] (map (λ r. public_name lib rs r.geo) rs))
  unfolding rename_all
  rename_all_names rs = (
    name_all-entries (collect rs []) [] rs,
    name_all-numbered (collect rs []) [] [] rs (λ name. refl)
        ∙ ap (numbered []) (map_cong rs (λ r. full_name-public_name rs r.geo)),
  )
