-- ===== src/Base64/Alphabet.antt =====
-- The texts that `base64UrlEncode` of web/src/lib/oidc.ts makes of random bytes and digests.
use lab_keeper.Common.{
  All, Bool, List, [], ap, arith, leb, length, refl, suc, true, ℕ, ◌&&◌, ◌*◌, ◌+◌, ◌/◌, ◌==◌, ◌||◌,
  ◌∙◌, ◌∷◌, ◌≡◌,
}
use lab_keeper.Base64.{sextet_char, base64_url_encode}
use lab_keeper.Base64.RoundTrip.{six, url_char, url_alphabet, strip-btoa}

-- A letter, a digit, - or _: what a PKCE verifier and a URL take unescaped.
unfoldable pub is_url_safe : ℕ → Bool
is_url_safe c =
    (leb b'A' c && leb c b'Z')
    || (leb b'a' c && leb c b'z')
    || (leb b'0' c && leb c b'9')
    || (c == b'-')
    || (c == b'_')

abbrev pub IsUrlSafe : ℕ → Type 0
IsUrlSafe c = is_url_safe c ≡ true

url_char-IsUrlSafe : (n : ℕ) → IsUrlSafe (url_char (sextet_char n))
unfolding is_url_safe sextet_char
url_char-IsUrlSafe n = ground arith

url_alphabet-IsUrlSafe : (ns : List ℕ) → All IsUrlSafe (url_alphabet ns)
unfolding lab_keeper.Common.All
url_alphabet-IsUrlSafe [] = tt
url_alphabet-IsUrlSafe (n ∷ ns) = (url_char-IsUrlSafe n, url_alphabet-IsUrlSafe ns)

length-url_alphabet : (ns : List ℕ) → length (url_alphabet ns) ≡ length ns
length-url_alphabet [] = refl
length-url_alphabet (n ∷ ns) = ap suc (length-url_alphabet ns)

length-six : (bs : List ℕ) → length (six bs) ≡ (length bs * 4 + 2) / 3
unfolding six
length-six [] = omega arith
length-six (a ∷ []) = omega arith
length-six (a ∷ b ∷ []) = omega arith
length-six (a ∷ b ∷ c ∷ rest) = omega (arith, length-six rest)

-- An encoded text has only letters, digits, - and _, and no padding: it has four characters for
-- three bytes, rounded up, so that the 32 bytes of a PKCE verifier give 43 characters.
pub base64_url_encode-IsUrlSafe :
    (bs : List ℕ)
    → All IsUrlSafe (base64_url_encode bs)
      × (length (base64_url_encode bs) ≡ (length bs * 4 + 2) / 3)
unfolding base64_url_encode
base64_url_encode-IsUrlSafe bs =
    rw (strip-btoa bs)
      (url_alphabet-IsUrlSafe (six bs), length-url_alphabet (six bs) ∙ length-six bs)
