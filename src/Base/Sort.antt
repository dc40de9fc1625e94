-- ===== src/Base/Sort.antt =====
-- Sorting by a Boolean `less`, as `sort.Slice`, `sort.SliceStable` and `sort.Strings` do: an
-- insertion sort, which is stable. Where the order is strict and total on the list's elements the
-- result of any sort is this one.
pub mod Unique
use mathlib.Core.List.Perm
use vless_sub_server.Base.{
  suc, length, refl, ap, ◌∙◌, ◌≡◌, Bool-cases, inl, inr, All-map, List, [], ◌∷◌, Bool, true, false,
  Perm, All, if◌then◌else◌, arith,
}

module _ {ℓ} {A : Type ℓ} (less : A → A → Bool) where
  abbrev pub insert : A → List A → List A
  insert x [] = x ∷ []
  insert x (y ∷ ys) = if less y x then y ∷ insert x ys else x ∷ y ∷ ys

  abbrev pub sort : List A → List A
  sort [] = []
  sort (x ∷ xs) = insert x (sort xs)

  -- No later element is below an earlier one.
  abbrev pub IsSorted : List A → Type 0
  IsSorted [] = Unit
  IsSorted (x ∷ xs) = All (λ y. less y x ≡ false) xs × IsSorted xs

module _ {ℓ} {A : Type ℓ} (less : A → A → Bool) where
  pub All-insert {κ} :
      (P : A → Type κ) (x : A) (xs : List A) → P x → All P xs → All P (insert less x xs)
  All-insert P x [] p h = (p, tt)
  All-insert P x (y ∷ ys) p (q, h) = ground (arith, All-insert P x ys p h)

  pub All-sort {κ} : (P : A → Type κ) (xs : List A) → All P xs → All P (sort less xs)
  All-sort P [] h = tt
  All-sort P (x ∷ xs) (p, h) = All-insert P x (sort less xs) p (All-sort P xs h)

  insert-perm : (x : A) (xs : List A) → Perm (insert less x xs) (x ∷ xs)
  insert-perm x [] = Perm.refl (x ∷ [])
  insert-perm x (y ∷ ys) =
      elim (less y x) as (λ b. Perm (if b then y ∷ insert less x ys else x ∷ y ∷ ys) (x ∷ y ∷ ys)) [
        | true ↦ Perm.trans (Perm.cons y (insert-perm x ys)) (Perm.swap x y ys)
        | false ↦ Perm.refl (x ∷ y ∷ ys)
      ]

  pub sort-perm : (xs : List A) → Perm (sort less xs) xs
  sort-perm [] = Perm.refl []
  sort-perm (x ∷ xs) = Perm.trans (insert-perm x (sort less xs)) (Perm.cons x (sort-perm xs))

-- `less` is a strict weak order.
pub record IsOrder {ℓ} {A : Type ℓ} (less : A → A → Bool) : Type ℓ where
  pub asym : (x y : A) → less x y ≡ true → less y x ≡ false
  pub trans : (x y z : A) → less y x ≡ false → less z y ≡ false → less z x ≡ false

module _ {ℓ} {A : Type ℓ} (less : A → A → Bool) (o : IsOrder less) where
  All-not_below :
      (x y : A) (zs : List A)
      → less y x ≡ false
      → All (λ z. less z y ≡ false) zs
      → All (λ z. less z x ≡ false) zs
  All-not_below x y zs e h =
      All-map (λ z. less z y ≡ false) (λ z. less z x ≡ false) zs (λ z. o.trans x y z e) h

  insert-IsSorted : (x : A) (xs : List A) → IsSorted less xs → IsSorted less (insert less x xs)
  insert-IsSorted x [] s = (tt, tt)
  insert-IsSorted x (y ∷ ys) (h, s) = elim (Bool-cases (less y x)) [
    | inl e ↦
        rw e (All-insert less (λ z. less z y ≡ false) x ys (o.asym y x e) h, insert-IsSorted x ys s)
    | inr e ↦ rw e ((e, All-not_below x y ys e h), (h, s))
  ]

  -- The sorted list is in order.
  pub sort-IsSorted : (xs : List A) → IsSorted less (sort less xs)
  sort-IsSorted [] = tt
  sort-IsSorted (x ∷ xs) = insert-IsSorted x (sort less xs) (sort-IsSorted xs)

module _ {ℓ} {A : Type ℓ} (less : A → A → Bool) where
  length-insert : (x : A) (xs : List A) → length (insert less x xs) ≡ suc (length xs)
  length-insert x [] = refl
  length-insert x (y ∷ ys) = ground (arith, length-insert x ys)

  pub length-sort : (xs : List A) → length (sort less xs) ≡ length xs
  length-sort [] = refl
  length-sort (x ∷ xs) = length-insert x (sort less xs) ∙ ap suc (length-sort xs)
