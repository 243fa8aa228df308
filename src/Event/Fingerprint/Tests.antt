-- ===== src/Event/Fingerprint/Tests.antt =====
-- Witnesses of the grouping.
use crashlens.Base.{◌≡◌, refl, none, [], ◌∷◌}
use crashlens.Json.{str, arr, obj, nil, cons, Fields, end, field, get, assign}
use crashlens.Json.Laws.{get-assign}
use crashlens.Event.Normalize.{normalize_exception}
use crashlens.Event.Fingerprint.{compute_fingerprint, walk_to_root_cause, walk_from}
use crashlens.Event.Fingerprint.Grouping.{
  KeepsPlace, walk_to_root_cause-root, compute_fingerprint-stable,
}
use crashlens.Samples.{plain_runtime}

-- A frame moves to another line.
abbrev moved : Fields → Fields
moved frame = assign "lineno" (str "12") frame

moved-KeepsPlace : KeepsPlace moved
moved-KeepsPlace = record {
  filename = λ f. rw get-assign refl;
  function = λ f. rw get-assign refl;
  in_app = λ f. rw get-assign refl;
}

abbrev frame : Fields
frame = field "filename" (str "a.py") (field "lineno" (str "7") end)

abbrev later_frame : Fields
later_frame = field "filename" (str "a.py") (field "lineno" (str "12") end)

abbrev raised : Fields → Fields
raised frame =
    field "type" (str "KeyError")
      (field "stacktrace" (obj (field "frames" (arr (cons (obj frame) nil)) end)) end)

abbrev event : Fields → Fields
event frame = field "platform" (str "python") (field "exception" (obj (raised frame)) end)

walk_to_root_cause-root_example :
    get "cause"
      (walk_to_root_cause (normalize_exception 4 (field "cause" (obj (raised frame)) end)))
    ≡ none
walk_to_root_cause-root_example = walk_to_root_cause-root (field "cause" (obj (raised frame)) end)

compute_fingerprint-stable_example :
    compute_fingerprint plain_runtime (event frame)
    ≡ compute_fingerprint plain_runtime (event later_frame)
unfolding walk_to_root_cause walk_from get assign
compute_fingerprint-stable_example =
    compute_fingerprint-stable plain_runtime moved (event frame) (event later_frame) (raised frame)
      (raised later_frame) (frame ∷ []) moved-KeepsPlace refl refl refl refl refl refl
