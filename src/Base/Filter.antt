-- ===== src/Base/Filter.antt =====
-- Lists of the elements that pass a test.
use mathlib.Core.Path.{◌≡◌, refl}
use mathlib.Core.Bool.{Bool, true, false, ◌&&◌}
use mathlib.Core.List.{List, [], ◌∷◌, ◌++◌}
use mathlib.Core.Logic.{inl, inr}
use crashlens.Base.Tests.{Bool-cases}
use crashlens.Base.Lists.{All, keep_if}

pub All-keep_if {ℓ κ} :
    {A : Type ℓ} (P : A → Type κ) (p : A → Bool) (xs : List A) → All P xs → All P (keep_if p xs)
All-keep_if P p [] h = tt
All-keep_if P p (x ∷ xs) h = elim (Bool-cases (p x)) [
  | inl hit ↦ rw hit (h.0, All-keep_if P p xs h.1)
  | inr miss ↦ rw miss (All-keep_if P p xs h.1)
]

-- What the test says of the elements that are left.
pub keep_if_holds {ℓ κ} :
    {A : Type ℓ} (P : A → Type κ) (p : A → Bool) (xs : List A)
    → ((x : A) → p x ≡ true → P x)
    → All P (keep_if p xs)
keep_if_holds P p [] h = tt
keep_if_holds P p (x ∷ xs) h = elim (Bool-cases (p x)) [
  | inl hit ↦ rw hit (h x hit, keep_if_holds P p xs h)
  | inr miss ↦ rw miss (keep_if_holds P p xs h)
]

pub keep_if-append {ℓ} :
    {A : Type ℓ} (p : A → Bool) (xs ys : List A)
    → keep_if p (xs ++ ys) ≡ keep_if p xs ++ keep_if p ys
keep_if-append p [] ys = refl
keep_if-append p (x ∷ xs) ys = elim (Bool-cases (p x)) [
  | inl hit ↦ rw (hit, keep_if-append p xs ys) refl
  | inr miss ↦ rw (miss, keep_if-append p xs ys) refl
]

pub keep_if-keep_if {ℓ} :
    {A : Type ℓ} (p q : A → Bool) (xs : List A)
    → keep_if p (keep_if q xs) ≡ keep_if (λ x. q x && p x) xs
keep_if-keep_if p q [] = refl
keep_if-keep_if p q (x ∷ xs) = elim (Bool-cases (q x)) [
  | inl hit ↦ elim (Bool-cases (p x)) [
    | inl too ↦ rw (hit, too, keep_if-keep_if p q xs) refl
    | inr not_p ↦ rw (hit, not_p, keep_if-keep_if p q xs) refl
  ]
  | inr miss ↦ rw (miss, keep_if-keep_if p q xs) refl
]

pub keep_if-all {ℓ} :
    {A : Type ℓ} (p : A → Bool) (xs : List A) → All (λ x. p x ≡ true) xs → keep_if p xs ≡ xs
keep_if-all p [] h = refl
keep_if-all p (x ∷ xs) h = rw (h.0, keep_if-all p xs h.1) refl

pub keep_if-nothing {ℓ} :
    {A : Type ℓ} (p : A → Bool) (xs : List A) → All (λ x. p x ≡ false) xs → keep_if p xs ≡ []
keep_if-nothing p [] h = refl
keep_if-nothing p (x ∷ xs) h = rw (h.0, keep_if-nothing p xs h.1) refl

pub keep_if-same {ℓ} :
    {A : Type ℓ} (p q : A → Bool) (xs : List A)
    → ((x : A) → p x ≡ q x)
    → keep_if p xs ≡ keep_if q xs
keep_if-same p q [] e = refl
keep_if-same p q (x ∷ xs) e = rw (e x, keep_if-same p q xs e) refl
