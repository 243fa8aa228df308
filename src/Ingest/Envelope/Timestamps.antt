-- ===== src/Ingest/Envelope/Timestamps.antt =====
-- `_is_rfc3339` of server/app/ingest.py, which reads a final Z as the offset +00:00.
use Prim.Native.Char.{Char}
use Prim.Native.String.{[], ◌∷◌, ◌++◌}
use Prim.Native.String.compare.{cons-cons}
use text.Mathlib.TextLemmas.{
  nil-append, cons-append, cons≢nil, tail-eq_of_cons-eq, append-ne-nil_of_right_ne-nil,
}
use crashlens.Base.{
  ◌≡◌, ◌≢◌, ◌⊎◌, inl, inr, refl, ap, sym, ◌∙◌, String, true, false, is_some, ◌==◌, string_eq,
  nat_eq, eq_iff, arith, Bool-cases,
}
use crashlens.Runtime.{Runtime, iso_candidate}
use crashlens.Ingest.Envelope.{is_rfc3339}

-- `fromisoformat` takes the text, with +00:00 in the place of a final Z.
abbrev pub Timestamp : Runtime → String → Type 0
Timestamp rt s =
    ((t : String) × ((s ≡ t ++ "Z") × (is_some (rt.from_iso (t ++ "+00:00")) ≡ true)))
    ⊎ (((t : String) → s ≢ t ++ "Z") × (is_some (rt.from_iso s) ≡ true))

cons_ne_empty : (c : Char) (s : String) → (c ∷ s) == "" ≡ false
cons_ne_empty c s = elim (Bool-cases ((c ∷ s) == "")) [
  | inl empty ↦ absurd (cons≢nil ((eq_iff (c ∷ s) "").0 empty))
  | inr filled ↦ filled
]

iso_candidate-cons :
    (c d : Char) (s : String) → iso_candidate (c ∷ (d ∷ s)) ≡ c ∷ iso_candidate (d ∷ s)
unfolding iso_candidate
iso_candidate-cons c d s = rw (cons_ne_empty d s) refl

iso_candidate-Z : (t : String) → iso_candidate (t ++ "Z") ≡ t ++ "+00:00"
unfolding iso_candidate
iso_candidate-Z [] = refl
iso_candidate-Z (c ∷ []) = rw (cons-append c "" "Z", cons-append c "" "+00:00") refl
iso_candidate-Z (c ∷ (d ∷ t)) =
    let z = ap (λ r. c ∷ r) (cons-append d t "Z") in
    ap iso_candidate (cons-append c (d ∷ t) "Z" ∙ z)
    ∙ iso_candidate-cons c d (t ++ "Z")
    ∙ ap (λ r. c ∷ r) (ap iso_candidate (sym (cons-append d t "Z")) ∙ iso_candidate-Z (d ∷ t))
    ∙ sym (cons-append c (d ∷ t) "+00:00")

-- A character before a text does not change its end, and the text of one character ends in itself.
cons_again :
    (c d : Char) (s t : String) → ((r : String) → d ∷ s ≢ r ++ "Z") → c ∷ (d ∷ s) ≢ t ++ "Z"
cons_again c d s [] other e = cons≢nil (tail-eq_of_cons-eq (e ∙ nil-append "Z"))
cons_again c d s (b ∷ t) other e = other t (tail-eq_of_cons-eq (e ∙ cons-append b t "Z"))

single : (c : Char) (t : String) → c ∷ [] ≢ "Z" → c ∷ [] ≢ t ++ "Z"
single c [] other e = other (e ∙ nil-append "Z")
single c (b ∷ t) other e =
    append-ne-nil_of_right_ne-nil t (λ h. cons≢nil h)
      (sym (tail-eq_of_cons-eq (e ∙ cons-append b t "Z")))

iso_candidate-cases :
    (s : String)
    → ((t : String) × (s ≡ t ++ "Z")) ⊎ (((t : String) → s ≢ t ++ "Z") × (iso_candidate s ≡ s))
unfolding iso_candidate
iso_candidate-cases [] =
    inr (λ t e. append-ne-nil_of_right_ne-nil t (λ h. cons≢nil h) (sym e), refl)
iso_candidate-cases (c ∷ []) = elim (Bool-cases ((c ∷ []) == "Z")) [
  | inl same ↦ inl ("", (eq_iff (c ∷ []) "Z").0 same ∙ sym (nil-append "Z"))
  | inr other ↦ inr (
    λ t. single c t (λ e. ground (arith, other, (eq_iff (c ∷ []) "Z").1 e)),
    ground (arith, other, cons-cons c "Z" "" ""),
  )
]
iso_candidate-cases (c ∷ (d ∷ s)) = elim (iso_candidate-cases (d ∷ s)) [
  | inl (t, e) ↦ inl (c ∷ t, ap (λ r. c ∷ r) e ∙ sym (cons-append c t "Z"))
  | inr (other, same) ↦
      inr (λ t. cons_again c d s t other, iso_candidate-cons c d s ∙ ap (λ r. c ∷ r) same)
]

pub is_rfc3339→ : (rt : Runtime) (s : String) → is_rfc3339 rt s ≡ true → Timestamp rt s
unfolding is_rfc3339
is_rfc3339→ rt s h = elim (iso_candidate-cases s) [
  | inl (t, e) ↦ inl (
    t,
    (e, ap (λ r. is_some (rt.from_iso r)) (sym (iso_candidate-Z t) ∙ ap iso_candidate (sym e)) ∙ h),
  )
  | inr (other, same) ↦ inr (other, ap (λ r. is_some (rt.from_iso r)) (sym same) ∙ h)
]

pub →is_rfc3339 : (rt : Runtime) (s : String) → Timestamp rt s → is_rfc3339 rt s ≡ true
unfolding is_rfc3339
→is_rfc3339 rt s (inl (t, (e, ok))) =
    ap (λ r. is_some (rt.from_iso r)) (ap iso_candidate e ∙ iso_candidate-Z t) ∙ ok
→is_rfc3339 rt s (inr (other, ok)) = elim (iso_candidate-cases s) [
  | inl (t, e) ↦ absurd (other t e)
  | inr (_, same) ↦ ap (λ r. is_some (rt.from_iso r)) same ∙ ok
]
