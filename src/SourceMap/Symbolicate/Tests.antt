-- ===== src/SourceMap/Symbolicate/Tests.antt =====
-- A witness of the symbolication.
use crashlens.Base.{◌≡◌, refl}
use crashlens.Json.{str, obj, Fields, end, field, get}
use crashlens.SourceMap.Symbolicate.{Disk, absent, symbolicate_envelope}
use crashlens.SourceMap.Symbolicate.Frame.{get-symbolicate_envelope_other}

abbrev disk : Disk
disk = record {
  urlsafe_b64encode = λ s. s;
  path_join = λ s t. t;
  path_basename = λ s. s;
  file = λ s. absent;
}

abbrev event : Fields
event =
    field "platform" (str "javascript")
      (field "release" (str "1.0") (field "exception" (obj end) end))

get-symbolicate_envelope_other_example :
    get "release" (symbolicate_envelope disk 3 event "o" "p" "maps") ≡ get "release" event
get-symbolicate_envelope_other_example =
    get-symbolicate_envelope_other disk 3 "release" event "o" "p" "maps" refl
