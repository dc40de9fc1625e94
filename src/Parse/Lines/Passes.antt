-- ===== src/Parse/Lines/Passes.antt =====
-- internal/parse/parse.go, the deduplication of `ParseAllLines`: passes over parts of a list, and
-- over a list that has been deduplicated before.
use vless_sub_server.Base.{
  ◌≡◌, refl, ap, ◌∙◌, Option, none, some, true, List, [], ◌∷◌, ◌++◌, arith, if◌then◌else◌,
  Bool-cases, inl, inr,
}
use vless_sub_server.Base.Text.{Text}
use vless_sub_server.Base.Text.Laws.{text_eq_iff}
use vless_sub_server.Base.Dict.{has, Text-eq}
use vless_sub_server.Parse.Record.{ProxyRecord}
use vless_sub_server.Parse.Query.{dedup_key}
use vless_sub_server.Parse.Lines.{Parsers, line_record}
use vless_sub_server.Parse.Lines.Laws.{firsts, accepted, optional}

-- One set of keys within another.
abbrev Within : List Text → List Text → Type 0
Within xs ys = (k : Text) → has k xs ≡ true → has k ys ≡ true

Within-cons : (xs ys : List Text) (k : Text) → has k ys ≡ true → Within xs ys → Within (k ∷ xs) ys
Within-cons xs ys k h w q e =
    ground (arith, text_eq_iff k q, w q, h, ap (λ t. has t ys) {x = k} {y = q})

cons-Within : (xs ys : List Text) (k : Text) → Within xs ys → Within (k ∷ xs) (k ∷ ys)
cons-Within xs ys k w q e = ground (arith, w q)

-- Duplicates that were dropped before make no difference to what is first.
pub firsts-firsts :
    (seen early : List Text) (rs : List ProxyRecord)
    → ((k : Text) → has k early ≡ true → has k seen ≡ true)
    → firsts seen (firsts early rs) ≡ firsts seen rs
firsts-firsts seen early [] h = refl
firsts-firsts seen early (r ∷ rs) h = elim (Bool-cases (has (dedup_key r) early)) [
  | inl old ↦ rw (old, h (dedup_key r) old) (firsts-firsts seen early rs h)
  | inr new ↦ elim (Bool-cases (has (dedup_key r) seen)) [
    | inl old ↦
        rw (new, old)
          (firsts-firsts seen (dedup_key r ∷ early) rs (Within-cons early seen (dedup_key r) old h))
    | inr fresh ↦
        rw (new, fresh)
          (ap (◌∷◌ r) (
            firsts-firsts (dedup_key r ∷ seen) (dedup_key r ∷ early) rs
              (cons-Within early seen (dedup_key r) h)))
  ]
]

-- The keys that a pass over `rs` has seen at its end.
abbrev pub seen_after : List Text → List ProxyRecord → List Text
seen_after seen [] = seen
seen_after seen (r ∷ rs) =
    let dropped = seen_after seen rs in
    let kept = seen_after (dedup_key r ∷ seen) rs in
    if has (dedup_key r) seen then dropped else kept

pub seen_after-firsts :
    (seen early : List Text) (rs : List ProxyRecord)
    → ((k : Text) → has k early ≡ true → has k seen ≡ true)
    → seen_after seen (firsts early rs) ≡ seen_after seen rs
seen_after-firsts seen early [] h = refl
seen_after-firsts seen early (r ∷ rs) h = elim (Bool-cases (has (dedup_key r) early)) [
  | inl old ↦ rw (old, h (dedup_key r) old) (seen_after-firsts seen early rs h)
  | inr new ↦ elim (Bool-cases (has (dedup_key r) seen)) [
    | inl old ↦
        rw (new, old)
          (seen_after-firsts seen (dedup_key r ∷ early) rs
            (Within-cons early seen (dedup_key r) old h))
    | inr fresh ↦
        rw (new, fresh)
          (seen_after-firsts (dedup_key r ∷ seen) (dedup_key r ∷ early) rs
            (cons-Within early seen (dedup_key r) h))
  ]
]

pub firsts-append :
    (seen : List Text) (rs ss : List ProxyRecord)
    → firsts seen (rs ++ ss) ≡ firsts seen rs ++ firsts (seen_after seen rs) ss
firsts-append seen [] ss = refl
firsts-append seen (r ∷ rs) ss =
    ground (arith, firsts-append seen rs ss, firsts-append (dedup_key r ∷ seen) rs ss)

optional-append :
    (o : Option ProxyRecord) (rs ss : List ProxyRecord)
    → optional o (rs ++ ss) ≡ optional o rs ++ ss
optional-append none rs ss = refl
optional-append (some r) rs ss = refl

pub accepted-append :
    (p : Parsers) (xs ys : List Text) → accepted p (xs ++ ys) ≡ accepted p xs ++ accepted p ys
accepted-append p [] ys = refl
accepted-append p (x ∷ xs) ys =
    ap (optional (line_record p x)) (accepted-append p xs ys)
    ∙ optional-append (line_record p x) (accepted p xs) (accepted p ys)
