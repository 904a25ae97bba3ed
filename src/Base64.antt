-- ===== src/Base64.antt =====
-- `base64UrlEncode` of web/src/lib/oidc.ts and the decoding in its `readJwtExpMs`, with the
-- browser's `btoa` and `atob` that they call.
pub mod RoundTrip
pub mod Alphabet
mod Tests
use lab_keeper.Common.{
  Bool, List, Option, Text, [], bind_option, ends_with, if◌then◌else◌, leb, length, ltb, non_empty,
  none, not, replace_all, slice_off, some, ℕ, ◌%◌, ◌&&◌, ◌*◌, ◌+◌, ◌-◌, ◌/◌, ◌==◌, ◌||◌, ◌∷◌,
}

-- The character for six bits.
unfoldable pub sextet_char : ℕ → ℕ
sextet_char n =
    if ltb n 26
    then b'A' + n
    else if ltb n 52
    then b'a' + (n - 26)
    else if ltb n 62
    then b'0' + (n - 52)
    else if n == 62
    then b'+'
    else b'/'

-- `btoa` of a string whose code units are bytes.
unfoldable pub btoa : List ℕ → Text
btoa [] = []
btoa (a ∷ []) = sextet_char (a / 4) ∷ sextet_char (a % 4 * 16) ∷ b'=' ∷ b'=' ∷ []
btoa (a ∷ b ∷ []) =
    sextet_char (a / 4) ∷ sextet_char (a % 4 * 16 + b / 16) ∷ sextet_char (b % 16 * 4) ∷ b'=' ∷ []
btoa (a ∷ b ∷ c ∷ rest) =
    sextet_char (a / 4)
    ∷ sextet_char (a % 4 * 16 + b / 16)
    ∷ sextet_char (b % 16 * 4 + c / 64)
    ∷ sextet_char (c % 64)
    ∷ btoa rest

-- `replace(/=+$/, "")` for any one character.
unfoldable pub strip_trailing : ℕ → Text → Text
strip_trailing d [] = []
strip_trailing d (c ∷ s) =
    let rest = strip_trailing d s in if (c == d) && not (non_empty rest) then [] else c ∷ rest

unfoldable pub base64_url_encode : List ℕ → Text
base64_url_encode buf =
    strip_trailing b'=' (replace_all b'/' b'_' (replace_all b'+' b'-' (btoa buf)))

-- The six bits of a character.
unfoldable pub sextet_value : ℕ → Option ℕ
sextet_value c =
    if leb b'A' c && leb c b'Z'
    then some (c - b'A')
    else if leb b'a' c && leb c b'z'
    then some (c - b'a' + 26)
    else if leb b'0' c && leb c b'9'
    then some (c - b'0' + 52)
    else if c == b'+'
    then some 62
    else if c == b'/'
    then some 63
    else none

unfoldable pub is_white : ℕ → Bool
is_white c = (c == 32) || (c == 9) || (c == 10) || (c == 12) || (c == 13)

unfoldable pub without_white : Text → Text
unfolding is_white
without_white [] = []
without_white (c ∷ s) = let rest = without_white s in if is_white c then rest else c ∷ rest

unfoldable pub sextets : Text → Option (List ℕ)
sextets [] = some []
sextets (c ∷ s) = bind_option (sextet_value c) (λ v. bind_option (sextets s) (λ vs. some (v ∷ vs)))

-- The bytes of a row of sextets; a single sextet at the end is an error, and the bits that fill
-- no byte are dropped.
unfoldable pub from_sextets : List ℕ → Option (List ℕ)
from_sextets [] = some []
from_sextets (a ∷ []) = none
from_sextets (a ∷ b ∷ []) = some ((a * 4 + b / 16) ∷ [])
from_sextets (a ∷ b ∷ c ∷ []) = some ((a * 4 + b / 16) ∷ (b % 16 * 16 + c / 4) ∷ [])
from_sextets (a ∷ b ∷ c ∷ d ∷ rest) =
    bind_option (from_sextets rest)
      (λ bytes. some ((a * 4 + b / 16) ∷ (b % 16 * 16 + c / 4) ∷ (c % 4 * 64 + d) ∷ bytes))

-- One or two `=` go if the length is a multiple of four.
unfoldable pub drop_padding : Text → Text
drop_padding s =
    if length s % 4 == 0
    then if ends_with s (b'=' ∷ b'=' ∷ [])
      then slice_off s 2
      else if ends_with s (b'=' ∷ [])
      then slice_off s 1
      else s
    else s

-- `atob`; `none` where it throws.
unfoldable pub atob : Text → Option (List ℕ)
atob s = bind_option (sextets (drop_padding (without_white s))) from_sextets

-- `atob(part.replace(/-/g, "+").replace(/_/g, "/"))`
unfoldable pub decode_segment : Text → Option (List ℕ)
decode_segment part = atob (replace_all b'_' b'/' (replace_all b'-' b'+' part))
