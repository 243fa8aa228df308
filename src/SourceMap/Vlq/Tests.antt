-- ===== src/SourceMap/Vlq/Tests.antt =====
-- Witnesses and runs of the VLQ decoder.
use crashlens.Base.{◌≡◌, refl, some, none, [], ◌∷◌}
use crashlens.Json.Numbers.{pos, negsuc}
use crashlens.SourceMap.Vlq.{decode_vlq}
use crashlens.SourceMap.Vlq.Encode.{encode_vlq, decode_vlq-encode_vlq}

-- "gB" is 16 and "D" is -1.
reads : decode_vlq (b'g' ∷ b'B' ∷ b'D' ∷ []) ≡ some (pos 16 ∷ negsuc 0 ∷ [])
unfolding decode_vlq
reads = refl

cut_off : decode_vlq (b'g' ∷ []) ≡ none
unfolding decode_vlq
cut_off = refl

decode_vlq-encode_vlq_example :
    decode_vlq (encode_vlq (pos 16 ∷ negsuc 0 ∷ [])) ≡ some (pos 16 ∷ negsuc 0 ∷ [])
decode_vlq-encode_vlq_example = decode_vlq-encode_vlq (pos 16 ∷ negsuc 0 ∷ [])
