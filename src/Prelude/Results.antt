-- ===== src/Prelude/Results.antt =====
-- Exceptions as values: a computation returns a value or raises an error of the model's own type.
use mathlib.Core.Path.{◌≡◌, refl, subst}
use mathlib.Core.Bool.{Bool, true, false}
use mathlib.Core.List.{List, [], ◌∷◌, ◌++◌}
use mathlib.Core.Option.{Option, none, some}
use native.Mathlib.Omega.{arith}
use locus_v.Prelude.Lists.{All, In, All-append}

pub data Result (E A : Type 0) : Type 0 where
  ok : A → Result E A
  raise : E → Result E A

infixl 5 ◌>>=◌ ◌>>◌
abbrev pub ◌>>=◌ : {E A B : Type 0} → Result E A → (A → Result E B) → Result E B
ok a >>= f = f a
raise e >>= f = raise e

abbrev pub ◌>>◌ : {E B : Type 0} → Result E (Unit {0}) → Result E B → Result E B
m >> k = m >>= λ _. k

-- `if failing: raise error`
abbrev pub raise_if : {E : Type 0} → Bool → E → Result E (Unit {0})
raise_if true e = raise e
raise_if false e = ok tt

abbrev pub or_raise : {E A : Type 0} → Option A → E → Result E A
or_raise none e = raise e
or_raise (some a) e = ok a

-- The computation returns, and what it returns satisfies `P`.
abbrev pub Returns : {E A : Type 0} → (A → Type 0) → Result E A → Type 0
Returns P (ok a) = P a
Returns P (raise e) = ⊥

module _ {E A : Type 0} where
  pub Returns-bind :
      {B : Type 0} (P : A → Type 0) (Q : B → Type 0) (m : Result E A) (f : A → Result E B)
      → Returns P m
      → ((a : A) → P a → Returns Q (f a))
      → Returns Q (m >>= f)
  Returns-bind P Q (ok a) f h k = k a h
  Returns-bind P Q (raise e) f h k = absurd h

  pub Returns-mono :
      (P Q : A → Type 0) (m : Result E A) → ((a : A) → P a → Q a) → Returns P m → Returns Q m
  Returns-mono P Q (ok a) k h = k a h
  Returns-mono P Q (raise e) k h = absurd h

  pub Returns-value : (P : A → Type 0) (m : Result E A) → Returns P m → (a : A) × (m ≡ ok a) × P a
  Returns-value P (ok a) h = (a, refl, h)
  Returns-value P (raise e) h = absurd h

  pub Returns-ok : (P : A → Type 0) (m : Result E A) → Returns P m → (a : A) → m ≡ ok a → P a
  Returns-ok P (ok b) h a e = subst P (ground arith) h
  Returns-ok P (raise x) h a e = absurd h

-- A loop `for a in xs: ...` that extends a list with what each round contributes.
unfoldable pub gather : {E A B : Type 0} → (A → Result E (List B)) → List A → Result E (List B)
gather f [] = ok []
gather f (x ∷ xs) = do ys ← f x; zs ← gather f xs; ok (ys ++ zs)

pub Returns-gather :
    {E A B : Type 0} (P : B → Type 0) (f : A → Result E (List B)) (xs : List A)
    → ((a : A) → In a xs → Returns (All P) (f a))
    → Returns (All P) (gather f xs)
unfolding gather
Returns-gather P f [] h = tt
Returns-gather P f (x ∷ xs) h = Returns-bind (All P) (All P) (f x) _ (h x (In.here refl)) λ ys hy.
    Returns-bind (All P) (All P) (gather f xs) _ (Returns-gather P f xs (λ a m. h a (In.there m)))
      λ zs hz. All-append P ys zs hy hz

-- What a result that was returned says of the parts of a computation.
module _ {E : Type 0} where
  pub bind-ok :
      {A B : Type 0} (m : Result E A) (f : A → Result E B) (b : B)
      → (m >>= f) ≡ ok b
      → (a : A) × (m ≡ ok a) × (f a ≡ ok b)
  bind-ok (ok a) f b h = (a, refl, h)
  bind-ok (raise e) f b h = absurd (cc)

  pub raise_if-ok :
      {B : Type 0} (failing : Bool) (e : E) (rest : Result E B) (b : B)
      → (raise_if failing e >> rest) ≡ ok b
      → (failing ≡ false) × (rest ≡ ok b)
  raise_if-ok true e rest b h = absurd (cc)
  raise_if-ok false e rest b h = (refl, h)

  pub or_raise-ok : {A : Type 0} (o : Option A) (e : E) (a : A) → or_raise o e ≡ ok a → o ≡ some a
  or_raise-ok none e a h = absurd (cc)
  or_raise-ok (some x) e a h = cc

  pub or_raise-some : {A : Type 0} (o : Option A) (e : E) (a : A) → o ≡ some a → or_raise o e ≡ ok a
  or_raise-some none e a h = absurd (cc)
  or_raise-some (some x) e a h = cc
