-- ===== src/Base/Dict.antt =====
-- Go's maps as association lists; `insert` is `m[k] = v`, `delete` is `delete(m, k)`.
use vless_sub_server.Base.{
  ◌≡◌, refl, ◌↔◌, Bool, true, false, map, List, [], ◌∷◌, ◌++◌, ◌||◌, Option, none, some, arith,
  if◌then◌else◌,
}
use vless_sub_server.Base.Sort
use vless_sub_server.Base.Text.{Text, text_eq}
use vless_sub_server.Base.Text.Laws.{text_eq_iff}

-- Keys with a Boolean equality.
pub record Eq {ℓ} (A : Type ℓ) : Type ℓ where
  pub beq : A → A → Bool
  pub beq_iff : (a b : A) → (beq a b ≡ true) ↔ (a ≡ b)

instance abbrev pub Text-eq : Eq Text
Text-eq = record { beq = text_eq; beq_iff = text_eq_iff }

abbrev pub Dict : Type 0 → Type 0 → Type 0
Dict K V = List (K × V)

module _ {K : Type 0} ⦃e : Eq K⦄ where
  -- A set of keys is a list; `has` is the test of `_, ok := seen[key]`.
  abbrev pub has : K → List K → Bool
  has k [] = false
  has k (j ∷ ks) = if e.beq j k then true else has k ks

  pub beq_refl : (k : K) → e.beq k k ≡ true
  beq_refl k = (e.beq_iff k k).1 refl

module _ {K V : Type 0} ⦃e : Eq K⦄ where
  abbrev pub lookup : K → Dict K V → Option V
  lookup k [] = none
  lookup k ((j, v) ∷ m) = if e.beq j k then some v else lookup k m

  abbrev pub insert : K → V → Dict K V → Dict K V
  insert k v [] = (k, v) ∷ []
  insert k v ((j, w) ∷ m) = if e.beq j k then (k, v) ∷ m else (j, w) ∷ insert k v m

  abbrev pub delete : K → Dict K V → Dict K V
  delete k [] = []
  delete k ((j, w) ∷ m) = if e.beq j k then delete k m else (j, w) ∷ delete k m

module _ {K V : Type 0} ⦃e : Eq K⦄ where
  pub lookup-insert :
      (k j : K) (v : V) (m : Dict K V)
      → lookup j (insert k v m) ≡ (if e.beq k j then some v else lookup j m)
  lookup-insert k j v [] = refl
  lookup-insert k j v ((i, w) ∷ m) =
      ground (arith, e.beq_iff k j, e.beq_iff i k, e.beq_iff i j, lookup-insert k j v m)

  pub lookup-delete :
      (k j : K) (m : Dict K V) → lookup j (delete k m) ≡ (if e.beq k j then none else lookup j m)
  lookup-delete k j [] = ground arith
  lookup-delete k j ((i, w) ∷ m) =
      ground (arith, e.beq_iff k j, e.beq_iff i k, e.beq_iff i j, lookup-delete k j m)

  pub lookup-insert_self : (k : K) (v : V) (m : Dict K V) → lookup k (insert k v m) ≡ some v
  lookup-insert_self k v m = simp (lookup-insert, beq_refl)

module _ {K : Type 0} ⦃e : Eq K⦄ where
  -- No key twice.
  abbrev pub Distinct : List K → Type 0
  Distinct [] = Unit
  Distinct (k ∷ ks) = (has k ks ≡ false) × Distinct ks

module _ {K : Type 0} ⦃e : Eq K⦄ where
  pub has-append : (k : K) (xs ys : List K) → has k (xs ++ ys) ≡ (has k xs || has k ys)
  has-append k [] ys = refl
  has-append k (x ∷ xs) ys = ground (arith, has-append k xs ys)

  -- To add a key at the end that is not there keeps the keys distinct.
  pub Distinct-snoc :
      (k : K) (xs : List K) → has k xs ≡ false → Distinct xs → Distinct (xs ++ k ∷ [])
  Distinct-snoc k [] h d = (refl, tt)
  Distinct-snoc k (x ∷ xs) h (n, d) =
      let apart : e.beq x k ≡ false = ground arith in
      let apart' : e.beq k x ≡ false = ground (arith, e.beq_iff x k, e.beq_iff k x) in
      (ground (arith, has-append x xs (k ∷ [])), Distinct-snoc k xs (ground arith) d)

-- Sorting records keeps the set of their keys.
module _ {K A : Type 0} ⦃e : Eq K⦄ (f : A → K) (less : A → A → Bool) where
  has-map-insert :
      (k : K) (x : A) (xs : List A)
      → has k (map f (Sort.insert less x xs)) ≡ (e.beq (f x) k || has k (map f xs))
  has-map-insert k x [] = ground arith
  has-map-insert k x (y ∷ ys) = ground (arith, has-map-insert k x ys)

  pub has-map-sort : (k : K) (xs : List A) → has k (map f (Sort.sort less xs)) ≡ has k (map f xs)
  has-map-sort k [] = refl
  has-map-sort k (x ∷ xs) =
      ground (arith, has-map-insert k x (Sort.sort less xs), has-map-sort k xs)
