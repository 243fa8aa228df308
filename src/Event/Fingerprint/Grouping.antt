-- ===== src/Event/Fingerprint/Grouping.antt =====
-- What the fingerprint of an event depends on.
use crashlens.Base.{
  ℕ, zero, suc, ◌-◌, ◌≡◌, refl, ap, Option, none, some, List, [], ◌∷◌, map, keep_if, drop, length,
  length-map, ◌≤◌, count, arith,
}
use crashlens.Json.{Json, obj, Fields, get, or_null}
use crashlens.Runtime.{Runtime}
use crashlens.Event.Normalize.{normalize_exception}
use crashlens.Event.Normalize.Fits.{
  ExceptionFits, normalize_exception-Fits, CauseFits, count-truncate,
}
use crashlens.Event.Fingerprint.{
  walk_from, walk_to_root_cause, selected, in_app_value, is_in_app, or_all, place, derive_title,
  stack_frames, compute_fingerprint,
}

root_of_cause :
    (n : ℕ) (o : Option Json) (d : Fields)
    → get "cause" d ≡ o
    → CauseFits (ExceptionFits n) o
    → ((c : Fields) → ExceptionFits n c → get "cause" (walk_from (suc n) c) ≡ none)
    → get "cause" (walk_from (suc (suc n)) d) ≡ none
unfolding walk_from
root_of_cause n none d e h ih = rw (e, walk_from) e
root_of_cause n (some (obj c)) d e h ih = rw (e, walk_from) (ih c h)
root_of_cause n (some _) d e h ih = absurd h

walk_from-root : (n : ℕ) (d : Fields) → ExceptionFits n d → get "cause" (walk_from (suc n) d) ≡ none
unfolding walk_from
walk_from-root zero d h = rw (h.1, walk_from) h.1
walk_from-root (suc n) d h =
    root_of_cause n (get "cause" d) d refl h.1 (λ c k. walk_from-root n c k)

-- The walk through a normalized exception ends at its root cause: what it returns has no cause.
pub walk_to_root_cause-root :
    (exception : Fields) → get "cause" (walk_to_root_cause (normalize_exception 4 exception)) ≡ none
unfolding walk_to_root_cause
walk_to_root_cause-root exception =
    walk_from-root 4 (normalize_exception 4 exception) (normalize_exception-Fits 4 exception)

module _ (g : Fields → Fields) where
  -- A change of frames that keeps what grouping reads of a frame.
  pub record KeepsPlace : Type 0 where
    pub filename : (f : Fields) → get "filename" (g f) ≡ get "filename" f
    pub function : (f : Fields) → get "function" (g f) ≡ get "function" f
    pub in_app : (f : Fields) → get "in_app" (g f) ≡ get "in_app" f

  keep_if-map :
      KeepsPlace → (fs : List Fields) → keep_if is_in_app (map g fs) ≡ map g (keep_if is_in_app fs)
  keep_if-map h [] = refl
  keep_if-map h (f ∷ fs) = ground (arith, keep_if-map h fs, ap in_app_value (h.in_app f))

  drop-map : (n : ℕ) (fs : List Fields) → drop n (map g fs) ≡ map g (drop n fs)
  drop-map zero fs = refl
  drop-map (suc n) [] = refl
  drop-map (suc n) (f ∷ fs) = drop-map n fs

  or_all-map : (xs ys : List Fields) → or_all (map g xs) (map g ys) ≡ map g (or_all xs ys)
  or_all-map [] ys = refl
  or_all-map (x ∷ xs) ys = refl

  selected-map : KeepsPlace → (fs : List Fields) → selected (map g fs) ≡ map g (selected fs)
  selected-map h fs =
      let chosen = or_all (keep_if is_in_app fs) fs in
      rw (keep_if-map h fs, or_all-map (keep_if is_in_app fs) fs, length-map g chosen)
        (drop-map (length chosen - 8) chosen)

  place-map : KeepsPlace → (fs : List Fields) → map place (map g fs) ≡ map place fs
  place-map h [] = refl
  place-map h (f ∷ fs) = cc (ap or_null (h.filename f), ap or_null (h.function f), place-map h fs)

-- Two exception events fall into one group when their platforms agree, their root causes have the
-- same type, and the frames of the one root cause are those of the other up to a change that keeps
-- each frame's filename, function and in_app: lines, columns, context and every other field of the
-- envelopes, of the root causes and of the frames do not matter.
pub compute_fingerprint-stable :
    (rt : Runtime) (g : Fields → Fields) (a b xa xb : Fields) (frames : List Fields)
    → KeepsPlace g
    → get "exception" a ≡ some (obj xa)
    → get "exception" b ≡ some (obj xb)
    → get "platform" a ≡ get "platform" b
    → get "type" (walk_to_root_cause xa) ≡ get "type" (walk_to_root_cause xb)
    → stack_frames (get "stacktrace" (walk_to_root_cause xa)) ≡ some frames
    → stack_frames (get "stacktrace" (walk_to_root_cause xb)) ≡ some (map g frames)
    → compute_fingerprint rt a ≡ compute_fingerprint rt b
unfolding compute_fingerprint
compute_fingerprint-stable rt g a b xa xb frames keeps ea eb platform type fa fb =
    rw (ea, eb, compute_fingerprint, fa, fb)
      (cc (
        ap or_null platform,
        ap or_null type,
        ap (map place) (selected-map g keeps frames),
        place-map g keeps (selected frames),
      ))

-- A title has at most 200 characters.
pub count-derive_title :
    (rt : Runtime) (normalized : Fields) → count (derive_title rt normalized) ≤ 200
unfolding derive_title
count-derive_title rt normalized = count-truncate 200 _ (omega arith)
