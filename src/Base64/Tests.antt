-- ===== src/Base64/Tests.antt =====
-- The encoding of web/src/lib/oidc.ts at concrete bytes.
use lab_keeper.Common.{All, List, [], arith, length, some, ℕ, ◌*◌, ◌+◌, ◌/◌, ◌∷◌, ◌≡◌}
use lab_keeper.Base64.{base64_url_encode, decode_segment}
use lab_keeper.Base64.Alphabet.{IsUrlSafe, base64_url_encode-IsUrlSafe}
use lab_keeper.Base64.RoundTrip.{IsByte, decode_segment-base64_url_encode}

decode_segment-base64_url_encode_example :
    decode_segment (base64_url_encode (251 ∷ 255 ∷ 1 ∷ 7 ∷ [])) ≡ some (251 ∷ 255 ∷ 1 ∷ 7 ∷ [])
unfolding IsByte lab_keeper.Common.All
decode_segment-base64_url_encode_example =
    decode_segment-base64_url_encode (251 ∷ 255 ∷ 1 ∷ 7 ∷ [])
      (omega arith, (omega arith, (omega arith, (omega arith, tt))))

abbrev sample_bytes : List ℕ
sample_bytes = 251 ∷ 255 ∷ []

base64_url_encode-IsUrlSafe_example :
    All IsUrlSafe (base64_url_encode sample_bytes)
    × (length (base64_url_encode sample_bytes) ≡ (length sample_bytes * 4 + 2) / 3)
base64_url_encode-IsUrlSafe_example = base64_url_encode-IsUrlSafe sample_bytes
