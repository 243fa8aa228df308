-- ===== src/Audit/Safety.antt =====
-- What the guard of server/app/audit.py keeps out of the audit log.
use crashlens.Base.{
  ◌≡◌, ◌↔◌, ◌⊎◌, inl, inr, refl, String, true, false, none, some, List, [], ◌∷◌, ◌++◌, All,
  All-append, All-parts, arith, Bool-cases,
}
use crashlens.Json.{null, bool, int, float, str, arr, obj, Fields, end, field}
use crashlens.Audit.{check_data_safety, is_forbidden, Entry, log}

-- The keys of a dict and, at any depth, of the dicts that stand below its keys.
abbrev pub keys_of : Fields → List String
keys_of end = []
keys_of (field k (obj d) rest) = k ∷ keys_of d ++ keys_of rest
keys_of (field k _ rest) = k ∷ keys_of rest

abbrev pub Clean : (String → String) → List String → Type 0
Clean lower = All (λ k. is_forbidden lower k ≡ false)

check→ :
    (lower : String → String) (d : Fields)
    → check_data_safety lower d ≡ true
    → Clean lower (keys_of d)
unfolding check_data_safety
check→ lower end h = tt
check→ lower (field k (obj d) rest) h = (
  ground arith,
  All-append _ (keys_of d) (keys_of rest) (check→ lower d (ground arith))
      (check→ lower rest (ground arith)),
)
check→ lower (field k null rest) h = (ground arith, check→ lower rest (ground arith))
check→ lower (field k (bool b) rest) h = (ground arith, check→ lower rest (ground arith))
check→ lower (field k (int n) rest) h = (ground arith, check→ lower rest (ground arith))
check→ lower (field k (float b s) rest) h = (ground arith, check→ lower rest (ground arith))
check→ lower (field k (str s) rest) h = (ground arith, check→ lower rest (ground arith))
check→ lower (field k (arr vs) rest) h = (ground arith, check→ lower rest (ground arith))

→check :
    (lower : String → String) (d : Fields)
    → Clean lower (keys_of d)
    → check_data_safety lower d ≡ true
unfolding check_data_safety
→check lower end h = refl
→check lower (field k (obj d) rest) h =
    let parts = All-parts _ (keys_of d) (keys_of rest) h.1 in
    rw (h.0, →check lower d parts.0, →check lower rest parts.1) refl
→check lower (field k null rest) h = rw (h.0, →check lower rest h.1) refl
→check lower (field k (bool b) rest) h = rw (h.0, →check lower rest h.1) refl
→check lower (field k (int n) rest) h = rw (h.0, →check lower rest h.1) refl
→check lower (field k (float b s) rest) h = rw (h.0, →check lower rest h.1) refl
→check lower (field k (str s) rest) h = rw (h.0, →check lower rest h.1) refl
→check lower (field k (arr vs) rest) h = rw (h.0, →check lower rest h.1) refl

-- A row goes into the audit log, at its end and alone, exactly when no key of its payload, at any
-- depth of dicts below dicts, holds a forbidden word; else nothing is written.
pub log_iff :
    (lower : String → String) (entry : Entry) (entries : List Entry)
    → ((log lower entry entries ≡ some (entries ++ entry ∷ []))
        ↔ Clean lower (keys_of entry.payload))
      × ((log lower entry entries ≡ none)
          ⊎ (log lower entry entries ≡ some (entries ++ entry ∷ [])))
unfolding log
log_iff lower entry entries = elim (Bool-cases (check_data_safety lower entry.payload)) [
  | inl safe ↦ ((λ _. check→ lower entry.payload safe, λ _. rw safe refl), inr (rw safe refl))
  | inr unsafe ↦ (
    (λ e. absurd (ground arith), λ c. absurd (cc (→check lower entry.payload c))),
    inl (rw unsafe refl),
  )
]
