-- ===== src/Ingest/Envelope/Levels.antt =====
-- The level that `validate_envelope` of server/app/ingest.py asks for.
use crashlens.Base.{◌≡◌, ◌⊎◌, inl, inr, refl, String, true, any, ◌==◌, string_eq, eq_iff, arith}
use crashlens.Ingest.Envelope.{valid_levels}

abbrev pub LevelName : String → Type 0
LevelName s = (s ≡ "fatal") ⊎ ((s ≡ "error") ⊎ ((s ≡ "warning") ⊎ ((s ≡ "info") ⊎ (s ≡ "debug"))))

pub LevelName→ : (s : String) → any (λ l. l == s) valid_levels ≡ true → LevelName s
LevelName→ s h = ground (
  arith,
  eq_iff "fatal" s,
  eq_iff "error" s,
  eq_iff "warning" s,
  eq_iff "info" s,
  eq_iff "debug" s,
)

pub →LevelName : (s : String) → LevelName s → any (λ l. l == s) valid_levels ≡ true
→LevelName s (inl e) = rw e refl
→LevelName s (inr (inl e)) = rw e refl
→LevelName s (inr (inr (inl e))) = rw e refl
→LevelName s (inr (inr (inr (inl e)))) = rw e refl
→LevelName s (inr (inr (inr (inr e)))) = rw e refl
