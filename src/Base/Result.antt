-- ===== src/Base/Result.antt =====
-- A value or an error, for Go's `(T, error)`.
use vless_sub_server.Base.{◌≡◌, refl}

pub data Result (E : Type 0) (A : Type 0) : Type 0 where
  err : E → Result E A
  ok : A → Result E A

-- What follows `if err != nil { return err }`.
infixl 5 ◌>>=◌
abbrev pub ◌>>=◌ : {E A B : Type 0} → Result E A → (A → Result E B) → Result E B
err problem >>= next = err problem
ok value >>= next = next value

-- What is behind a success: its first step gave a value, and the next step on it succeeded.
pub >>=-eq-ok :
    {E A B : Type 0} (r : Result E A) (next : A → Result E B) {last : B}
    → (r >>= next) ≡ ok last
    → (value : A) × (r ≡ ok value) × (next value ≡ ok last)
>>=-eq-ok (err problem) next success = cc
>>=-eq-ok (ok value) next success = (value, refl, success)

pub >>=_assoc :
    {E A B C : Type 0} (m : Result E A) (f : A → Result E B) (g : B → Result E C)
    → ((m >>= f) >>= g) ≡ (m >>= λ a. f a >>= g)
>>=_assoc (ok a) f g = refl
>>=_assoc (err e) f g = refl

pub >>=_cong :
    {E A B : Type 0} (m : Result E A) (f g : A → Result E B)
    → ((a : A) → f a ≡ g a)
    → (m >>= f) ≡ (m >>= g)
>>=_cong (ok a) f g h = h a
>>=_cong (err e) f g h = refl
