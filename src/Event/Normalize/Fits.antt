-- ===== src/Event/Normalize/Fits.antt =====
-- A normalized envelope keeps the limits that server/app/jobs/process_event.py sets by its constants. The
-- number of the lines in pre_context and post_context has none.
use crashlens.Base.{
  ℕ, zero, suc, ◌-◌, ◌≤◌, ◌≡◌, refl, String, false, Option, none, some, map, arith, count,
  count-append, count-take_text, take_text, last_of, length, length-map, length-last_of, All,
  All-map, Bool-cases, inl, inr, ◌==◌, string_eq,
}
use crashlens.Json.{
  Json, str, arr, obj, Fields, end, field, get, assign, revised, on_text, on_list, on_dict, to_list,
}
use crashlens.Json.Laws.{get-assign, get-discard, get-revise, to_list-of_list}
use crashlens.Event.Normalize.{
  truncate_string, truncate, truncate_if_text, truncation_marker, put_cause, followed,
  normalize_frame, cap_frames, cap_stacktrace, normalize_exception, cut_tags, keep_newest,
  normalize_top, normalize_envelope, context_line_max, max_frames, max_breadcrumbs, message_max,
  tag_key_max, tag_value_max,
}

-- A text has at most so many characters; a value of another type is not limited.
abbrev pub TextFits : ℕ → Option Json → Type 0
TextFits n (some (str s)) = count s ≤ n
TextFits n _ = Unit {0}

abbrev pub LinesFit : Option Json → Type 0
LinesFit (some (arr lines)) = All (λ v. TextFits context_line_max (some v)) (to_list lines)
LinesFit _ = Unit {0}

abbrev pub FrameFits : Json → Type 0
FrameFits (obj frame) =
    TextFits 256 (get "filename" frame)
    × TextFits 256 (get "function" frame)
    × TextFits 256 (get "context_line" frame)
    × LinesFit (get "pre_context" frame)
    × LinesFit (get "post_context" frame)
FrameFits _ = Unit {0}

abbrev pub FramesFit : Option Json → Type 0
FramesFit (some (arr frames)) =
    (length (to_list frames) ≤ max_frames) × All FrameFits (to_list frames)
FramesFit _ = Unit {0}

abbrev pub StackFits : Option Json → Type 0
StackFits (some (obj stacktrace)) = FramesFit (get "frames" stacktrace)
StackFits _ = Unit {0}

abbrev pub CauseFits : (Fields → Type 0) → Option Json → Type 0
CauseFits P none = Unit {0}
CauseFits P (some (obj cause)) = P cause
CauseFits P _ = ⊥

-- An exception with at most so many causes below it, each within the limits.
abbrev pub ExceptionFits : ℕ → Fields → Type 0
ExceptionFits zero exception =
    StackFits (get "stacktrace" exception) × (get "cause" exception ≡ none)
ExceptionFits (suc n) exception =
    StackFits (get "stacktrace" exception) × CauseFits (ExceptionFits n) (get "cause" exception)

abbrev pub TagsFit : Fields → Type 0
TagsFit end = Unit {0}
TagsFit (field key value rest) =
    (count key ≤ tag_key_max) × TextFits tag_value_max (some value) × TagsFit rest

abbrev pub DictFits : (Fields → Type 0) → Option Json → Type 0
DictFits P (some (obj d)) = P d
DictFits P _ = Unit {0}

abbrev pub CrumbsFit : Option Json → Type 0
CrumbsFit (some (arr crumbs)) = length (to_list crumbs) ≤ max_breadcrumbs
CrumbsFit _ = Unit {0}

pub record Conforms (env : Fields) : Type 0 where
  pub message : TextFits message_max (get "message" env)
  pub tags : DictFits TagsFit (get "tags" env)
  pub breadcrumbs : CrumbsFit (get "breadcrumbs" env)
  pub exception : DictFits (ExceptionFits 4) (get "exception" env)

pub count-truncate : (limit : ℕ) (value : String) → 3 ≤ limit → count (truncate limit value) ≤ limit
unfolding truncate_string
count-truncate limit value h = ground (
  arith,
  count-append (take_text (limit - 3) value) truncation_marker,
  count-take_text (limit - 3) value,
)

truncate_if_text-Fits : (n : ℕ) (v : Json) → 3 ≤ n → TextFits n (some (truncate_if_text n v))
truncate_if_text-Fits n (str s) h = count-truncate n s h
truncate_if_text-Fits n _ h = tt

cut_text-Fits :
    (n : ℕ) (o : Option Json) → 3 ≤ n → TextFits n (revised (on_text (λ s. str (truncate n s))) o)
cut_text-Fits n (some (str s)) h = count-truncate n s h
cut_text-Fits n (some _) h = tt
cut_text-Fits n none h = tt

cut_lines-Fit :
    (o : Option Json) → LinesFit (revised (on_list (map (truncate_if_text context_line_max))) o)
cut_lines-Fit (some (arr lines)) =
    rw to_list-of_list
      (All-map _ _ (λ v. truncate_if_text-Fits context_line_max v (omega arith)) (to_list lines))
cut_lines-Fit (some _) = tt
cut_lines-Fit none = tt

normalize_frame-Fits : (v : Json) → FrameFits (normalize_frame v)
unfolding normalize_frame
normalize_frame-Fits (obj frame) = (
  simp get-revise (cut_text-Fits 256 (get "filename" frame) (omega arith)),
  simp get-revise (cut_text-Fits 256 (get "function" frame) (omega arith)),
  simp get-revise (cut_text-Fits 256 (get "context_line" frame) (omega arith)),
  simp get-revise (cut_lines-Fit (get "pre_context" frame)),
  simp get-revise (cut_lines-Fit (get "post_context" frame)),
)
normalize_frame-Fits _ = tt

cap_frames-Fit :
    (o : Option Json)
    → FramesFit (revised (on_list (λ frames. map normalize_frame (last_of max_frames frames))) o)
cap_frames-Fit (some (arr frames)) =
    let kept = last_of max_frames (to_list frames) in
    rw to_list-of_list (
      omega (arith, length-map normalize_frame kept, length-last_of max_frames (to_list frames)),
      All-map _ _ normalize_frame-Fits kept,
    )
cap_frames-Fit (some _) = tt
cap_frames-Fit none = tt

cap_stacktrace-Fits : (o : Option Json) → StackFits (revised (on_dict cap_frames) o)
cap_stacktrace-Fits (some (obj stacktrace)) =
    simp get-revise (cap_frames-Fit (get "frames" stacktrace))
cap_stacktrace-Fits (some _) = tt
cap_stacktrace-Fits none = tt

pub get-put_cause_self : (o : Option Json) (d : Fields) → get "cause" (put_cause o d) ≡ o
get-put_cause_self none d = simp get-discard
get-put_cause_self (some v) d = simp get-assign

pub get-put_cause_ne :
    (o : Option Json) (j : String) (d : Fields)
    → ("cause" == j) ≡ false
    → get j (put_cause o d) ≡ get j d
get-put_cause_ne none j d h = rw (get-discard, h)
get-put_cause_ne (some v) j d h = rw (get-assign, h)

followed-Fits :
    (P : Fields → Type 0) (f : Fields → Fields)
    → ((d : Fields) → P (f d))
    → (o : Option Json) → CauseFits P (followed f o)
followed-Fits P f h (some (obj cause)) = h cause
followed-Fits P f h (some _) = tt
followed-Fits P f h none = tt

pub normalize_exception-Fits : (n : ℕ) (d : Fields) → ExceptionFits n (normalize_exception n d)
unfolding normalize_exception
normalize_exception-Fits zero d =
    (simp (get-discard, get-revise) (cap_stacktrace-Fits (get "stacktrace" d)), simp get-discard)
normalize_exception-Fits (suc n) d =
    let out = cap_stacktrace d in
    let cause = followed (normalize_exception n) (get "cause" out) in
    (
      rw (get-put_cause_ne cause "stacktrace" out refl)
          (simp get-revise (cap_stacktrace-Fits (get "stacktrace" d))),
      rw (get-put_cause_self cause out) (
          followed-Fits (ExceptionFits n) (normalize_exception n) (normalize_exception-Fits n)
            (get "cause" out)),
    )

assign-TagsFit :
    (k : String) (v : Json) (d : Fields)
    → count k ≤ tag_key_max
    → TextFits tag_value_max (some v)
    → TagsFit d
    → TagsFit (assign k v d)
unfolding assign
assign-TagsFit k v end short fits h = (short, fits, tt)
assign-TagsFit k v (field j w rest) short fits h = elim (Bool-cases (j == k)) [
  | inl same ↦ rw same (h.0, fits, h.2)
  | inr other ↦ rw other (h.0, h.1, assign-TagsFit k v rest short fits h.2)
]

cut_tags-TagsFit : (out tags : Fields) → TagsFit out → TagsFit (cut_tags out tags)
unfolding cut_tags
cut_tags-TagsFit out end h = h
cut_tags-TagsFit out (field k v rest) h =
    cut_tags-TagsFit (assign (truncate tag_key_max k) (truncate_if_text tag_value_max v) out) rest (
      assign-TagsFit (truncate tag_key_max k) (truncate_if_text tag_value_max v) out
        (count-truncate tag_key_max k (omega arith))
        (truncate_if_text-Fits tag_value_max v (omega arith)) h)

on_dict-Fits :
    (P : Fields → Type 0) (f : Fields → Fields)
    → ((d : Fields) → P (f d))
    → (o : Option Json) → DictFits P (revised (on_dict f) o)
on_dict-Fits P f h (some (obj d)) = h d
on_dict-Fits P f h (some _) = tt
on_dict-Fits P f h none = tt

keep_newest-Fit : (o : Option Json) → CrumbsFit (revised (on_list keep_newest) o)
keep_newest-Fit (some (arr crumbs)) =
    rw to_list-of_list (omega (arith, length-last_of max_breadcrumbs (to_list crumbs)))
keep_newest-Fit (some _) = tt
keep_newest-Fit none = tt

-- Whatever the envelope holds, its normalization keeps these limits of docs/PROTOCOL.md: a
-- message of at most 8192 characters, tag keys of 32 and text values of 200, 100 breadcrumbs, and a
-- chain of five exceptions, each with at most 128 frames, whose file name, function, context line and
-- each line of pre_context and post_context have at most 256 characters. The number of those lines is
-- not limited, and a field whose value has another type is left as it is.
pub normalize_envelope-Conforms : (envelope : Fields) → Conforms (normalize_envelope envelope)
unfolding normalize_envelope
normalize_envelope-Conforms e = record {
  message = simp get-revise (cut_text-Fits message_max (get "message" e) (omega arith));
  tags =
      simp get-revise
        (on_dict-Fits TagsFit (cut_tags end) (λ d. cut_tags-TagsFit end d tt) (get "tags" e));
  breadcrumbs = simp get-revise (keep_newest-Fit (get "breadcrumbs" e));
  exception = simp get-revise (
      on_dict-Fits (ExceptionFits 4) normalize_top (normalize_exception-Fits 4)
        (get "exception" e));
}
