-- ===== src/Contracts/Accepts.antt =====
-- What the tests of values accept.
use locus_v.Prelude.{
  ℕ, ◌≤◌, false, not, ◌||◌, Option, none, some, [], ◌∷◌, ◌≡◌, ◌↔◌, arith, refl, ltb,
}
use locus_v.Prelude.Eq.{◌==◌, nat_eq}
use locus_v.Prelude.Lists.{length, All}
use locus_v.Prelude.Results.{ok, raise_if-ok, bind-ok}
use locus_v.Contracts.Values.{
  Text, identifier, positive_int, max_epoch, any, is_ascii, out_of_range, IsIdentifier, IsPositive,
  check_binding, required_int,
}

visible_of_any :
    (value : Text)
    → any out_of_range value ≡ false
    → All (λ character. 33 ≤ character × character ≤ 126) value
visible_of_any [] h = tt
visible_of_any (x ∷ xs) h = ((ground arith, ground arith), visible_of_any xs (ground arith))

any_of_visible :
    (value : Text)
    → All (λ character. 33 ≤ character × character ≤ 126) value
    → (any out_of_range value ≡ false) × (any (ltb 127) value ≡ false)
any_of_visible [] h = (refl, refl)
any_of_visible (x ∷ xs) ((l, u), h) =
    let (p, q) = any_of_visible xs h in (ground (arith, p), ground (arith, q))

pub identifier-IsIdentifier : (value v : Text) → identifier value ≡ ok v → IsIdentifier value
unfolding identifier
identifier-IsIdentifier value v h =
    let (passed, _) =
      raise_if-ok
        (length value == 0
          || ltb 255 (length value)
          || not (is_ascii value)
          || any out_of_range value)
        _ _ _ h in
    record {
      nonempty = ground (arith, passed);
      short = ground (arith, passed);
      visible = visible_of_any value (ground (arith, passed));
    }

pub IsIdentifier-identifier : (value : Text) → IsIdentifier value → identifier value ≡ ok value
unfolding identifier
IsIdentifier-identifier value h =
    let (p, q) = any_of_visible value h.visible in ground (arith, p, q, h.nonempty, h.short)

pub positive_int-IsPositive :
    (maximum value v : ℕ) → positive_int maximum value ≡ ok v → IsPositive maximum value
unfolding positive_int
positive_int-IsPositive maximum value v h =
    let (passed, _) = raise_if-ok (ltb value 1 || ltb maximum value) _ _ _ h in
    record { positive = ground (arith, passed); bounded = ground (arith, passed) }

pub IsPositive-positive_int :
    (maximum value : ℕ) → IsPositive maximum value → positive_int maximum value ≡ ok value
unfolding positive_int
IsPositive-positive_int maximum value h = ground (arith, h.positive, h.bounded)

-- A binding that names a backup names a valid epoch.
pub check_binding-some :
    (backup_id : Text) (epoch : Option ℕ)
    → check_binding (some backup_id) epoch ≡ ok tt
    → IsIdentifier backup_id × ((value : ℕ) × (epoch ≡ some value) × IsPositive max_epoch value)
unfolding check_binding
check_binding-some backup_id epoch h =
    let (b, named, h1) = bind-ok (identifier backup_id) _ _ h in
    let (n, numbered, _) = bind-ok (required_int epoch) _ _ h1 in
    (identifier-IsIdentifier backup_id b named, go epoch n numbered)
  where
    go :
        (epoch : Option ℕ) (n : ℕ)
        → required_int epoch ≡ ok n
        → (value : ℕ) × (epoch ≡ some value) × IsPositive max_epoch value
    go none n h = absurd (cc)
    go (some value) n h = (value, refl, positive_int-IsPositive max_epoch value n h)

pub some-check_binding :
    (backup_id : Text) (value : ℕ)
    → IsIdentifier backup_id
    → IsPositive max_epoch value
    → check_binding (some backup_id) (some value) ≡ ok tt
unfolding check_binding
some-check_binding backup_id value named counted = ground (
  arith,
  IsIdentifier-identifier backup_id named,
  IsPositive-positive_int max_epoch value counted,
)

-- `_identifier` returns its argument for the strings of one to 255 visible ASCII characters, and
-- for no others.
pub identifier_iff : (value : Text) → (identifier value ≡ ok value) ↔ IsIdentifier value
identifier_iff value = (identifier-IsIdentifier value value, IsIdentifier-identifier value)
