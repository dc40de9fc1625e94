-- ===== src/Base/Lists.antt =====
-- Lists measured by native numbers and filtered by Boolean tests, under the library's names.
use Prim.Native.Nat.{ℕ, zero, suc, ◌+◌, ◌≤◌, min}
use mathlib.Core.Path.{◌≡◌, refl, ap}
use mathlib.Core.Bool.{Bool, true, false}
use mathlib.Core.Logic.{◌⊎◌, inl, inr}
use mathlib.Core.List.Permᴰ as PermD
use mathlib.Core.List.{Permᴰ, List, [], ◌∷◌, ◌++◌, map}
use native.Mathlib.Omega.{arith}
use package.vless_sub_server.Base.Tests.{if◌then◌else◌}

-- A predicate by recursion computes to tuples, which the tactics read and build.
abbrev pub All {ℓ κ} : {A : Type ℓ} → (A → Type κ) → List A → Type κ
All P [] = Unit
All P (x ∷ xs) = P x × All P xs

module _ {ℓ} {A : Type ℓ} where
  abbrev pub length : List A → ℕ
  length [] = 0
  length (x ∷ xs) = suc (length xs)

  abbrev pub take : ℕ → List A → List A
  take zero xs = []
  take (suc n) [] = []
  take (suc n) (x ∷ xs) = x ∷ take n xs

  abbrev pub filter : (A → Bool) → List A → List A
  filter test [] = []
  filter test (x ∷ xs) = if test x then x ∷ filter test xs else filter test xs

module _ {ℓ} {A : Type ℓ} where
  pub length-append : (xs ys : List A) → length (xs ++ ys) ≡ length xs + length ys
  length-append [] ys = omega arith
  length-append (x ∷ xs) ys = omega (arith, length-append xs ys)

  pub length-map {κ} : {B : Type κ} (f : A → B) (xs : List A) → length (map f xs) ≡ length xs
  length-map f [] = refl
  length-map f (x ∷ xs) = ap suc (length-map f xs)

  pub length-take : (n : ℕ) (xs : List A) → length (take n xs) ≡ min n (length xs)
  length-take zero xs = omega arith
  length-take (suc n) [] = omega arith
  length-take (suc n) (x ∷ xs) = omega (arith, length-take n xs)

  pub length-filter-le : (test : A → Bool) (xs : List A) → length (filter test xs) ≤ length xs
  length-filter-le test [] = omega arith
  length-filter-le test (x ∷ xs) = ground (arith, length-filter-le test xs)

  pub All-filter : (test : A → Bool) (xs : List A) → All (λ x. test x ≡ true) (filter test xs)
  All-filter test [] = tt
  All-filter test (x ∷ xs) = ground (arith, All-filter test xs)

  pub All-filter_of {κ} :
      (P : A → Type κ) (test : A → Bool) (xs : List A) → All P xs → All P (filter test xs)
  All-filter_of P test [] h = tt
  All-filter_of P test (x ∷ xs) (p, h) = ground (arith, All-filter_of P test xs h)

  pub All-take {κ} : (P : A → Type κ) (n : ℕ) (xs : List A) → All P xs → All P (take n xs)
  All-take P zero xs h = tt
  All-take P (suc n) [] h = tt
  All-take P (suc n) (x ∷ xs) (p, h) = (p, All-take P n xs h)

  pub All-append {κ} : (P : A → Type κ) (xs ys : List A) → All P xs → All P ys → All P (xs ++ ys)
  All-append P [] ys h k = k
  All-append P (x ∷ xs) ys (p, h) k = (p, All-append P xs ys h k)

  pub All-map {κ μ} :
      (P : A → Type κ) (Q : A → Type μ) (xs : List A) → ((x : A) → P x → Q x) → All P xs → All Q xs
  All-map P Q [] f h = tt
  All-map P Q (x ∷ xs) f (p, h) = (f x p, All-map P Q xs f h)

module _ {ℓ} {A : Type ℓ} where
  abbrev pub drop : ℕ → List A → List A
  drop zero xs = xs
  drop (suc n) [] = []
  drop (suc n) (x ∷ xs) = drop n xs

module _ {ℓ} {A : Type ℓ} where
  pub take-append-drop : (n : ℕ) (xs : List A) → take n xs ++ drop n xs ≡ xs
  take-append-drop zero xs = refl
  take-append-drop (suc n) [] = refl
  take-append-drop (suc n) (x ∷ xs) = rw (take-append-drop n xs)

  pub take_of_length-le : (n : ℕ) (l : List A) → length l ≤ n → take n l ≡ l
  take_of_length-le (suc n) (y ∷ l) short =
      ap (◌∷◌ y) (take_of_length-le n l (omega (arith, short)))
  take_of_length-le (suc n) [] short = refl
  take_of_length-le zero (y ∷ l) short = absurd (omega (arith, short))
  take_of_length-le zero [] short = refl

  pub drop-nil_or_full : (n : ℕ) (xs : List A) → (drop n xs ≡ []) ⊎ (length (take n xs) ≡ n)
  drop-nil_or_full zero xs = inr refl
  drop-nil_or_full (suc n) [] = inl refl
  drop-nil_or_full (suc n) (x ∷ xs) = ground (arith, drop-nil_or_full n xs)

module _ {ℓ} {A : Type ℓ} (test : A → Bool) where
  filter-cons_perm :
      (a b : A) (xs ys : List A)
      → a ≡ b
      → Permᴰ (filter test xs) (filter test ys)
      → Permᴰ (filter test (a ∷ xs)) (filter test (b ∷ ys))
  filter-cons_perm a b xs ys e p = rw e (go (test b))
    where
      go :
          (t : Bool)
          → Permᴰ
              (if t then b ∷ filter test xs else filter test xs)
              (if t then b ∷ filter test ys else filter test ys)
      go true = Permᴰ.cons refl p
      go false = p

  filter-swap_perm :
      (a b : A) (xs : List A) → Permᴰ (filter test (a ∷ b ∷ xs)) (filter test (b ∷ a ∷ xs))
  filter-swap_perm a b xs = go (test a) (test b)
    where
      rest : List A
      rest = filter test xs

      go :
          (s t : Bool)
          → Permᴰ
              (if s then a ∷ (if t then b ∷ rest else rest) else (if t then b ∷ rest else rest))
              (if t then b ∷ (if s then a ∷ rest else rest) else (if s then a ∷ rest else rest))
      go true true = Permᴰ.swap refl refl
      go true false = PermD.refl (a ∷ rest)
      go false true = PermD.refl (b ∷ rest)
      go false false = PermD.refl rest

  pub filter-perm : {xs ys : List A} → Permᴰ xs ys → Permᴰ (filter test xs) (filter test ys)
  filter-perm Permᴰ.nil = Permᴰ.nil
  filter-perm (Permᴰ.cons {a = a} {b = b} {l₁ = xs} {l₂ = ys} e p) =
      filter-cons_perm a b xs ys e (filter-perm p)
  filter-perm (Permᴰ.swap {a = a} {b = b} {l = l} e e') = rw (← e, ← e') (filter-swap_perm a b l)
  filter-perm (Permᴰ.trans p q) = Permᴰ.trans (filter-perm p) (filter-perm q)
