-- ===== src/Event/Normalize/Tests.antt =====
-- Witnesses and runs of the normalization.
use crashlens.Base.{◌≡◌, refl, some, take_text}
use crashlens.Json.{str, obj, Fields, end, field, get}
use crashlens.Event.Normalize.{truncate_string, normalize_exception, normalize_envelope}
use crashlens.Event.Normalize.Fits.{Conforms, normalize_envelope-Conforms}
use crashlens.Event.Normalize.Chain.{
  column, column-normalize_exception, get-normalize_envelope_other,
}

abbrev inner : Fields
inner = field "type" (str "KeyError") end

abbrev outer : Fields
outer = field "type" (str "ValueError") (field "cause" (obj inner) end)

abbrev sample : Fields
sample = field "message" (str "boom") (field "custom" (str "x") (field "exception" (obj outer) end))

cut_short : truncate_string "abcdefgh" 6 "..." ≡ "abc..."
unfolding truncate_string take_text
cut_short = refl

normalize_envelope-Conforms_example : Conforms (normalize_envelope sample)
normalize_envelope-Conforms_example = normalize_envelope-Conforms sample

get-normalize_envelope_other_example : get "custom" (normalize_envelope sample) ≡ some (str "x")
unfolding get
get-normalize_envelope_other_example =
    get-normalize_envelope_other "custom" sample refl refl refl refl

column-normalize_exception_example :
    column 4 "type" (normalize_exception 4 outer) ≡ column 4 "type" outer
column-normalize_exception_example = column-normalize_exception 4 "type" outer refl refl
