-- ===== src/Sha256/Tests.antt =====
-- Known digests, run through the model of web/src/lib/sha256.ts.
use lab_keeper.Common.{[], arith, refl, text, ◌∷◌, ◌≡◌}
use lab_keeper.Sha256.{sha256_pure}
use lab_keeper.Sha256.Standard.{standard_sha256}
use lab_keeper.Sha256.Refine.{sha256_pure-standard_sha256}

sha256_abc :
    sha256_pure (text "abc")
    ≡ 0xba ∷ 0x78 ∷ 0x16 ∷ 0xbf ∷ 0x8f ∷ 0x01 ∷ 0xcf ∷ 0xea ∷ 0x41 ∷ 0x41 ∷ 0x40 ∷ 0xde ∷ 0x5d
      ∷ 0xae ∷ 0x22 ∷ 0x23 ∷ 0xb0 ∷ 0x03 ∷ 0x61 ∷ 0xa3 ∷ 0x96 ∷ 0x17 ∷ 0x7a ∷ 0x9c ∷ 0xb4 ∷ 0x10
      ∷ 0xff ∷ 0x61 ∷ 0xf2 ∷ 0x00 ∷ 0x15 ∷ 0xad ∷ []
unfolding sha256_pure text
sha256_abc = refl

sha256_pure-standard_sha256_example : sha256_pure (text "abc") ≡ standard_sha256 (text "abc")
unfolding text
sha256_pure-standard_sha256_example = sha256_pure-standard_sha256 (text "abc") (omega arith)
