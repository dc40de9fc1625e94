-- ===== src/Base/Sort/Unique.antt =====
-- The sorted list does not depend on the order of the input, where elements that neither is below
-- the other are equal.
use mathlib.Core.List.{Permᴰ}
use vless_sub_server.Base.{
  ◌≡◌, refl, ◌∙◌, subst, List, [], ◌∷◌, Bool, false, All, arith, Bool-cases, inl, inr,
}
use vless_sub_server.Base.Sort.{insert, sort, IsOrder}

module _ {ℓ κ} {A : Type ℓ} (less : A → A → Bool) (o : IsOrder less) (P : A → Type κ)
    (connected : (x y : A) → P x → P y → less x y ≡ false → less y x ≡ false → x ≡ y) where
  insert_comm :
      (x y : A) (zs : List A)
      → P x
      → P y
      → insert less x (insert less y zs) ≡ insert less y (insert less x zs)
  insert_comm x y [] p q = elim (Bool-cases (less x y)) [
    | inl e ↦ rw (e, o.asym x y e)
    | inr e ↦ elim (Bool-cases (less y x)) [
      | inl e' ↦ rw (e, e')
      | inr e' ↦ rw (connected x y p q e e')
    ]
  ]
  insert_comm x y (z ∷ zs) p q = ground (
    arith,
    insert_comm x y zs p q,
    o.asym x y,
    o.asym y x,
    o.trans x y z,
    o.trans y x z,
    connected x y p q,
  )

  All-perm : {xs ys : List A} → Permᴰ xs ys → All P xs → All P ys
  All-perm Permᴰ.nil h = h
  All-perm (Permᴰ.cons e r) (p, h) = (subst P e p, All-perm r h)
  All-perm (Permᴰ.swap e e') (p, (q, h)) = (subst P e' q, (subst P e p, h))
  All-perm (Permᴰ.trans r s) h = All-perm s (All-perm r h)

  pub sort-perm_eq : {xs ys : List A} → Permᴰ xs ys → All P xs → sort less xs ≡ sort less ys
  sort-perm_eq Permᴰ.nil h = refl
  sort-perm_eq (Permᴰ.cons e r) (p, h) = rw (e, sort-perm_eq r h)
  sort-perm_eq (Permᴰ.swap {a = a} {b = b} {l = l} e e') (p, (q, h)) =
      rw (← e, ← e') (insert_comm a b (sort less l) p q)
  sort-perm_eq (Permᴰ.trans r s) h = sort-perm_eq r h ∙ sort-perm_eq s (All-perm r h)
