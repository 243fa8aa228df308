-- ===== src/Base/Text.antt =====
-- Python's slices of texts, by characters, over the native texts.
use Prim.Native.Nat.{ℕ, zero, suc, ◌≤◌, min}
use Prim.Native.Char.{Char}
use Prim.Native.String.{String, [], ◌∷◌}
pub use Prim.Native.String.{count}
use mathlib.Core.Path.{◌≡◌, refl, ap}
use mathlib.Core.Bool.{Bool}
use native.Mathlib.Omega.{arith}
use text.Mathlib.TextLemmas.{length-nil, length-cons}
use crashlens.Base.Tests.{if◌then◌else◌}

-- `s[:n]`.
unfoldable pub take_text : ℕ → String → String
take_text zero s = ""
take_text (suc n) [] = ""
take_text (suc n) (c ∷ s) = c ∷ take_text n s

-- The part before the first character that passes a test.
unfoldable pub before : (Char → Bool) → String → String
before p [] = ""
before p (c ∷ s) = let rest = c ∷ before p s in if p c then "" else rest

pub count-take_text : (n : ℕ) (s : String) → count (take_text n s) ≡ min n (count s)
unfolding take_text
count-take_text zero s = rw length-nil (omega arith)
count-take_text (suc n) [] = rw length-nil (omega arith)
count-take_text (suc n) (c ∷ s) =
    omega (arith, length-cons c s, length-cons c (take_text n s), count-take_text n s)

pub take_text-all : (n : ℕ) (s : String) → count s ≤ n → take_text n s ≡ s
unfolding take_text
take_text-all zero [] h = refl
take_text-all zero (c ∷ s) h = absurd (omega (arith, length-cons c s))
take_text-all (suc n) [] h = refl
take_text-all (suc n) (c ∷ s) h =
    ap (λ t. c ∷ t) (take_text-all n s (omega (arith, length-cons c s)))
