-- ===== src/Event/Normalize/Chain.antt =====
-- What the normalization leaves as it was.
use crashlens.Base.{
  ℕ, zero, suc, ◌≡◌, refl, String, false, Option, none, some, List, [], ◌∷◌, ap, ◌∙◌, ◌==◌,
  string_eq,
}
use crashlens.Json.{Json, obj, Fields, get}
use crashlens.Json.Laws.{get-discard, get-revise}
use crashlens.Event.Normalize.{followed, cap_stacktrace, normalize_exception, normalize_envelope}
use crashlens.Event.Normalize.Fits.{get-put_cause_self, get-put_cause_ne}

-- A field of the envelope that the protocol sets no limit for passes through untouched.
pub get-normalize_envelope_other :
    (k : String) (envelope : Fields)
    → ("message" == k) ≡ false
    → ("tags" == k) ≡ false
    → ("breadcrumbs" == k) ≡ false
    → ("exception" == k) ≡ false
    → get k (normalize_envelope envelope) ≡ get k envelope
unfolding normalize_envelope
get-normalize_envelope_other k e m t b x =
    rw (get-revise, x, get-revise, b, get-revise, t, get-revise, m)

-- The values of a key along the cause chain, the presented exception first and at most `n` causes.
abbrev pub column_below : (Fields → List (Option Json)) → Option Json → List (Option Json)
column_below column (some (obj cause)) = column cause
column_below column _ = []

pub column : ℕ → String → Fields → List (Option Json)
column zero k exception = get k exception ∷ []
column (suc n) k exception = get k exception ∷ column_below (column n k) (get "cause" exception)

column_below-followed :
    (P : Fields → List (Option Json)) (f : Fields → Fields)
    → ((d : Fields) → P (f d) ≡ P d)
    → (o : Option Json) → column_below P (followed f o) ≡ column_below P o
column_below-followed P f h (some (obj cause)) = h cause
column_below-followed P f h (some _) = refl
column_below-followed P f h none = refl

-- The first `n` + 1 exceptions of a cause chain survive the normalization in their order, with
-- every field but the stack trace and the link as it was.
pub column-normalize_exception :
    (n : ℕ) (k : String) (exception : Fields)
    → ("stacktrace" == k) ≡ false
    → ("cause" == k) ≡ false
    → column n k (normalize_exception n exception) ≡ column n k exception
unfolding column normalize_exception
column-normalize_exception zero k d s c = rw (get-discard, c, get-revise, s)
column-normalize_exception (suc n) k d s c =
    let out = cap_stacktrace d in
    let cause = followed (normalize_exception n) (get "cause" out) in
    let same : get "cause" out ≡ get "cause" d = rw get-revise in
    rw (get-put_cause_ne cause k out c, get-put_cause_self cause out, get-revise, s)
      (ap (λ below. get k d ∷ below)
        (column_below-followed (column n k) (normalize_exception n)
            (λ e. column-normalize_exception n k e s c) (get "cause" out)
          ∙ ap (column_below (column n k)) same))
