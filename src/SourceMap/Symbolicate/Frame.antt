-- ===== src/SourceMap/Symbolicate/Frame.antt =====
-- What symbolication changes, and how much stack it needs.
use crashlens.Base.{
  ℕ, ◌≡◌, refl, String, false, Option, none, some, ◌==◌, string_eq, Bool-cases, inl, inr,
}
use crashlens.Json.{Json, str, obj, Fields, get, get_or_null}
use crashlens.Json.Laws.{get-assign}
use crashlens.SourceMap.Symbolicate.{
  Disk, symbolicate_envelope, or_envelope, is_javascript, symbolicated,
}

or_envelope-other :
    (k : String) (envelope : Fields) (o : Option Fields)
    → ("exception" == k) ≡ false
    → get k (or_envelope envelope o) ≡ get k envelope
or_envelope-other k envelope none h = refl
or_envelope-other k envelope (some x) h = rw (get-assign, h)

symbolicated-other :
    (k : String) (e : Fields) (f : String → Fields → Option Fields) (x r : Option Json)
    → ("exception" == k) ≡ false
    → get k (symbolicated f e x r) ≡ get k e
symbolicated-other k e f (some (obj x)) (some (str release)) h = elim (Bool-cases (release == "")) [
  | inl blank ↦ rw blank
  | inr named ↦ rw named (or_envelope-other k e (f release x) h)
]
symbolicated-other k e f (some (obj x)) (some _) h = refl
symbolicated-other k e f (some (obj x)) none h = refl
symbolicated-other k e f (some _) r h = refl
symbolicated-other k e f none r h = refl

-- Symbolication touches no field of the envelope but the exception, whatever the files hold and
-- whatever is raised on the way.
pub get-symbolicate_envelope_other :
    (disk : Disk) (depth : ℕ) (k : String) (envelope : Fields) (org project maps_dir : String)
    → ("exception" == k) ≡ false
    → get k (symbolicate_envelope disk depth envelope org project maps_dir) ≡ get k envelope
unfolding symbolicate_envelope
get-symbolicate_envelope_other disk depth k e org project maps_dir h =
    elim (Bool-cases (is_javascript (get_or_null "platform" e))) [
      | inl js ↦ rw js (symbolicated-other k e _ (get "exception" e) (get "release" e) h)
      | inr other ↦ rw other
    ]
