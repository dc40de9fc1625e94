-- ===== src/Base/Text/Laws.antt =====
-- Texts: equality, order, and what trimming and case mapping do.
use vless_sub_server.Base.{ℕ, ◌≡◌, refl, ◌↔◌, true, false, [], ◌∷◌, arith, subst}
use vless_sub_server.Base.Sort.{IsOrder}
use vless_sub_server.Base.Text.{Text, text_eq, text_ltb, to_upper, upper_code}

pub text_eq→≡ : (s t : Text) → text_eq s t ≡ true → s ≡ t
unfolding text_eq
text_eq→≡ [] [] h = refl
text_eq→≡ [] (b ∷ t) h = ground arith
text_eq→≡ (a ∷ s) [] h = ground arith
text_eq→≡ (a ∷ s) (b ∷ t) h = ground (arith, text_eq→≡ s t)

pub text_eq_refl : (s : Text) → text_eq s s ≡ true
unfolding text_eq
text_eq_refl [] = refl
text_eq_refl (a ∷ s) = ground (arith, text_eq_refl s)

pub text_eq_iff : (s t : Text) → (text_eq s t ≡ true) ↔ (s ≡ t)
text_eq_iff s t = (text_eq→≡ s t, λ e. subst (λ u. text_eq s u ≡ true) e (text_eq_refl s))

pub text_ltb_asym : (s t : Text) → text_ltb s t ≡ true → text_ltb t s ≡ false
unfolding text_ltb
text_ltb_asym [] [] h = ground arith
text_ltb_asym [] (b ∷ t) h = refl
text_ltb_asym (a ∷ s) [] h = ground arith
text_ltb_asym (a ∷ s) (b ∷ t) h = ground (arith, text_ltb_asym s t)

pub text_ltb_trans :
    (s t u : Text) → text_ltb t s ≡ false → text_ltb u t ≡ false → text_ltb u s ≡ false
unfolding text_ltb
text_ltb_trans [] t [] h k = refl
text_ltb_trans [] [] (c ∷ u) h k = refl
text_ltb_trans [] (b ∷ t) (c ∷ u) h k = refl
text_ltb_trans (a ∷ s) [] u h k = ground arith
text_ltb_trans (a ∷ s) (b ∷ t) [] h k = ground arith
text_ltb_trans (a ∷ s) (b ∷ t) (c ∷ u) h k = ground (arith, text_ltb_trans s t u)

-- Two texts that neither is below the other are equal.
pub text_ltb_connected : (s t : Text) → text_ltb s t ≡ false → text_ltb t s ≡ false → s ≡ t
unfolding text_ltb
text_ltb_connected [] [] h k = refl
text_ltb_connected [] (b ∷ t) h k = ground arith
text_ltb_connected (a ∷ s) [] h k = ground arith
text_ltb_connected (a ∷ s) (b ∷ t) h k = ground (arith, text_ltb_connected s t)

pub text_ltb-IsOrder : IsOrder text_ltb
text_ltb-IsOrder = record { asym = text_ltb_asym; trans = text_ltb_trans }

upper_code_idem : (c : ℕ) → upper_code (upper_code c) ≡ upper_code c
unfolding upper_code
upper_code_idem c = ground arith

pub to_upper_idem : (s : Text) → to_upper (to_upper s) ≡ to_upper s
unfolding to_upper
to_upper_idem [] = refl
to_upper_idem (c ∷ s) = cc (upper_code_idem c, to_upper_idem s)
