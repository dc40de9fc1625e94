-- ===== src/Parse/Lines/Laws.antt =====
-- internal/parse/parse.go, `ParseAllLines`: every line is accounted for, and no record is lost or
-- kept twice.
use mathlib.Core.List.{append_assoc, append-nil}
use vless_sub_server.Base.{
  ℕ, suc, ◌+◌, ◌≤◌, ◌≡◌, refl, ◌∙◌, sym, ap, true, false, ◌&&◌, not, List, [], ◌∷◌, ◌++◌, map,
  Option, none, some, All, arith, if◌then◌else◌, length, Bool-cases, inl, inr,
}
use vless_sub_server.Base.Int.{ℤ, pos, negsuc, ltb_ℤ}
use vless_sub_server.Base.Text.{Text, is_empty, trim_space}
use vless_sub_server.Base.Text.Laws.{text_eq_iff, text_eq_refl}
use vless_sub_server.Base.Dict.{has, Distinct, Text-eq}
use vless_sub_server.Parse.Record.{ProxyRecord}
use vless_sub_server.Parse.Query.{dedup_key}
use vless_sub_server.Parse.Lines.{
  Parsers, Progress, placeholder_hosts, is_usable, check_record, parse_scheme, line_record, keep,
  parse_from, parse_all_lines, empty_result,
}

abbrev pub optional : Option ProxyRecord → List ProxyRecord → List ProxyRecord
optional none rs = rs
optional (some r) rs = r ∷ rs

-- The records of the lines that stand for one, duplicates included.
abbrev pub accepted : Parsers → List Text → List ProxyRecord
accepted p [] = []
accepted p (line ∷ lines) = optional (line_record p line) (accepted p lines)

-- The first record for each key that is not in `seen`.
abbrev pub firsts : List Text → List ProxyRecord → List ProxyRecord
firsts seen [] = []
firsts seen (r ∷ rs) =
    let dropped = firsts seen rs in
    let kept = r ∷ firsts (dedup_key r ∷ seen) rs in
    if has (dedup_key r) seen then dropped else kept

abbrev pub keys : List ProxyRecord → List Text
keys = map dedup_key

-- A record that may be served.
pub record IsUsable (r : ProxyRecord) : Type 0 where
  pub named : is_empty r.host ≡ false
  pub port : ℕ
  pub port_is : r.port ≡ pos port
  pub port_bounds : (1 ≤ port) × (port ≤ 65535)
  pub real : has r.host placeholder_hosts ≡ false

port_of :
    (z : ℤ)
    → ltb_ℤ (pos 0) z ≡ true
    → ltb_ℤ (pos 65535) z ≡ false
    → (n : ℕ) × (z ≡ pos n) × (1 ≤ n) × (n ≤ 65535)
port_of (pos n) h k = (n, refl, ground arith, ground arith)
port_of (negsuc n) h k = absurd (ground arith)

is_usable-IsUsable : (r : ProxyRecord) → is_usable r ≡ true → IsUsable r
unfolding is_usable
is_usable-IsUsable r h =
    let (n, e, low, high) = port_of r.port (ground arith) (ground arith) in
    record {
      named = ground arith;
      port = n;
      port_is = e;
      port_bounds = (low, high);
      real = ground arith;
    }

optional-IsUsable :
    (o : Option ProxyRecord) (rs : List ProxyRecord)
    → All IsUsable rs
    → All IsUsable (optional (check_record o) rs)
unfolding check_record
optional-IsUsable none rs h = h
optional-IsUsable (some r) rs h = elim (Bool-cases (is_usable r)) [
  | inl good ↦ rw good (is_usable-IsUsable r good, h)
  | inr bad ↦ rw bad h
]

line_record-IsUsable :
    (p : Parsers) (line : Text) (rs : List ProxyRecord)
    → All IsUsable rs
    → All IsUsable (optional (line_record p line) rs)
unfolding line_record
line_record-IsUsable p line rs h =
    ground (arith, optional-IsUsable (parse_scheme p (trim_space line)) rs h)

accepted-IsUsable : (p : Parsers) (lines : List Text) → All IsUsable (accepted p lines)
accepted-IsUsable p [] = tt
accepted-IsUsable p (line ∷ lines) =
    line_record-IsUsable p line (accepted p lines) (accepted-IsUsable p lines)

pub All-firsts :
    (P : ProxyRecord → Type 0) (seen : List Text) (rs : List ProxyRecord)
    → All P rs
    → All P (firsts seen rs)
All-firsts P seen [] h = tt
All-firsts P seen (r ∷ rs) (p, h) =
    ground (arith, All-firsts P seen rs h, All-firsts P (dedup_key r ∷ seen) rs h)

has-firsts :
    (k : Text) (seen : List Text) (rs : List ProxyRecord)
    → has k (keys (firsts seen rs)) ≡ (has k (keys rs) && not (has k seen))
has-firsts k seen [] = refl
has-firsts k seen (r ∷ rs) =
    ground (
      arith,
      has-firsts k seen rs,
      has-firsts k (dedup_key r ∷ seen) rs,
      text_eq_iff (dedup_key r) k,
    )

Distinct-firsts : (seen : List Text) (rs : List ProxyRecord) → Distinct (keys (firsts seen rs))
Distinct-firsts seen [] = tt
Distinct-firsts seen (r ∷ rs) = ground (
  arith,
  Distinct-firsts seen rs,
  Distinct-firsts (dedup_key r ∷ seen) rs,
  has-firsts (dedup_key r) (dedup_key r ∷ seen) rs,
  text_eq_refl (dedup_key r),
)

-- What the loop adds to its variables for `n` lines that stand for the records `rs`.
record Adds (s : Progress) (rs : List ProxyRecord) (n : ℕ) (s' : Progress) : Type 0 where
  records : s'.result.records ≡ s.result.records ++ firsts s.seen rs
  skipped : s'.result.skipped + length rs ≡ s.result.skipped + n
  duplicates : s'.result.duplicates + length (firsts s.seen rs) ≡ s.result.duplicates + length rs

Adds-keep :
    (s : Progress) (o : Option ProxyRecord) (rs : List ProxyRecord) (n : ℕ) (s' : Progress)
    → Adds (keep s o) rs n s'
    → Adds s (optional o rs) (suc n) s'
unfolding keep
Adds-keep s none rs n s' a = record {
  records = a.records;
  skipped = omega (arith, a.skipped);
  duplicates = a.duplicates;
}
Adds-keep s (some r) rs n s' a = elim (Bool-cases (has (dedup_key r) s.seen)) [
  | inl twice ↦ record {
    records = rw twice (rw (twice, keep) at a.records);
    skipped = ground (arith, a.skipped);
    duplicates = ground (arith, a.duplicates);
  }
  | inr new ↦ record {
    records = ground (
      arith,
      a.records,
      append_assoc s.result.records (r ∷ []) (firsts (dedup_key r ∷ s.seen) rs),
    );
    skipped = ground (arith, a.skipped);
    duplicates = ground (arith, a.duplicates);
  }
]

parse_from-Adds :
    (p : Parsers) (s : Progress) (lines : List Text)
    → Adds s (accepted p lines) (length lines) (parse_from p s lines)
unfolding parse_from
parse_from-Adds p s [] = record {
  records = sym (append-nil s.result.records);
  skipped = refl;
  duplicates = refl;
}
parse_from-Adds p s (line ∷ lines) =
    Adds-keep s (line_record p line) (accepted p lines) (length lines)
      (parse_from p s (line ∷ lines)) (parse_from-Adds p (keep s (line_record p line)) lines)

pub parse_all_lines-firsts :
    (p : Parsers) (lines : List Text)
    → (parse_all_lines p lines).records ≡ firsts [] (accepted p lines)
unfolding parse_all_lines
parse_all_lines-firsts p lines =
    (parse_from-Adds p (record { seen = []; result = empty_result }) lines).records

-- Every line ends in exactly one of the three counts: a record, a skipped line or a duplicate; and
-- the lines that are not skipped are those that stand for a record.
pub parse_all_lines_counts :
    (p : Parsers) (lines : List Text)
    → let res = parse_all_lines p lines in
      (length res.records + res.skipped + res.duplicates ≡ length lines)
      × (res.skipped + length (accepted p lines) ≡ length lines)
unfolding parse_all_lines
parse_all_lines_counts p lines =
    let a = parse_from-Adds p (record { seen = []; result = empty_result }) lines in
    let n = ap length a.records in omega (arith, n, a.skipped, a.duplicates)

-- The records are usable (a host that is no placeholder, a port from 1 to 65535), no two have the
-- same key, and the keys are those of all lines that stand for a record.
pub parse_all_lines_records :
    (p : Parsers) (lines : List Text)
    → let records = (parse_all_lines p lines).records in
      All IsUsable records
      × Distinct (keys records)
      × ((k : Text) → has k (keys records) ≡ has k (keys (accepted p lines)))
parse_all_lines_records p lines = rw (parse_all_lines-firsts p lines) (
  All-firsts IsUsable [] (accepted p lines) (accepted-IsUsable p lines),
  Distinct-firsts [] (accepted p lines),
  λ k. has-firsts k [] (accepted p lines) ∙ ground arith,
)
