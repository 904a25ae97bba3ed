-- ===== src/Base64/RoundTrip.antt =====
-- `base64UrlEncode` of web/src/lib/oidc.ts against the decoding of its `readJwtExpMs`.
use lab_keeper.Common.{
  All, Bool-cases, List, Text, [], ap, arith, ends_with, eq→==, false, if◌then◌else◌, includes, inl,
  inr, refl, replace_all, some, sym, true, ℕ, ◌%◌, ◌*◌, ◌++◌, ◌+◌, ◌/◌, ◌<◌, ◌==◌, ◌∙◌, ◌∷◌, ◌≡◌,
  ◌≢◌,
}
use lab_keeper.Base64.{
  sextet_char, btoa, strip_trailing, base64_url_encode, sextet_value, is_white, without_white,
  sextets, from_sextets, drop_padding, atob, decode_segment,
}
use lab_keeper.Config.Laws.{ends_with_sound}

unfoldable pub IsByte : ℕ → Type 0
IsByte n = n < 256

-- The two replacements of a single character, there and back.
abbrev pub url_char : ℕ → ℕ
url_char c = if c == b'+' then b'-' else if c == b'/' then b'_' else c

sextet_char-plain :
    (n : ℕ)
    → (sextet_char n ≢ b'=')
      × (sextet_char n ≢ b'-')
      × (sextet_char n ≢ b'_')
      × (is_white (sextet_char n) ≡ false)
unfolding sextet_char is_white
sextet_char-plain n = (ground arith, ground arith, ground arith, ground arith)

sextet_value-sextet_char : (n : ℕ) → n < 64 → sextet_value (sextet_char n) ≡ some n
unfolding sextet_value sextet_char
sextet_value-sextet_char n h = ground arith

-- The row of sextets that a list of bytes is read as.
unfoldable pub six : List ℕ → List ℕ
six [] = []
six (a ∷ []) = a / 4 ∷ a % 4 * 16 ∷ []
six (a ∷ b ∷ []) = a / 4 ∷ (a % 4 * 16 + b / 16) ∷ b % 16 * 4 ∷ []
six (a ∷ b ∷ c ∷ rest) = a / 4 ∷ (a % 4 * 16 + b / 16) ∷ (b % 16 * 4 + c / 64) ∷ c % 64 ∷ six rest

abbrev alphabet : List ℕ → Text
alphabet [] = []
alphabet (n ∷ ns) = sextet_char n ∷ alphabet ns

abbrev pub url_alphabet : List ℕ → Text
url_alphabet [] = []
url_alphabet (n ∷ ns) = url_char (sextet_char n) ∷ url_alphabet ns

abbrev swap : Text → Text
swap s = replace_all b'/' b'_' (replace_all b'+' b'-' s)

abbrev unswap : Text → Text
unswap s = replace_all b'_' b'/' (replace_all b'-' b'+' s)

swap_char : (c : ℕ) (s : Text) → swap (c ∷ s) ≡ url_char c ∷ swap s
unfolding replace_all
swap_char c s = ap (λ d. d ∷ swap s) (ground arith)

strip_one :
    (n : ℕ) (s : Text)
    → strip_trailing b'=' (swap (sextet_char n ∷ s))
      ≡ url_char (sextet_char n) ∷ strip_trailing b'=' (swap s)
unfolding strip_trailing
strip_one n s =
    let (a, b, c, d) = sextet_char-plain n in
    let kept : (url_char (sextet_char n) == b'=') ≡ false = ground arith in
    rw (swap_char (sextet_char n) s, kept) refl

strip_end : strip_trailing b'=' (swap (b'=' ∷ b'=' ∷ [])) ≡ []
unfolding strip_trailing replace_all
strip_end = refl

strip_single : strip_trailing b'=' (swap (b'=' ∷ [])) ≡ []
unfolding strip_trailing replace_all
strip_single = refl

strip_nothing : strip_trailing b'=' (swap []) ≡ []
unfolding strip_trailing replace_all
strip_nothing = refl

abbrev pub stripped : Text → Text
stripped s = strip_trailing b'=' (swap s)

pub strip-btoa : (bs : List ℕ) → stripped (btoa bs) ≡ url_alphabet (six bs)
unfolding btoa six
strip-btoa [] = strip_nothing
strip-btoa (a ∷ []) = rw (strip_one (a / 4), strip_one (a % 4 * 16), strip_end) refl
strip-btoa (a ∷ b ∷ []) =
    rw (strip_one (a / 4), strip_one (a % 4 * 16 + b / 16), strip_one (b % 16 * 4), strip_single)
      refl
strip-btoa (a ∷ b ∷ c ∷ rest) =
    rw
      (
        strip_one (a / 4),
        strip_one (a % 4 * 16 + b / 16),
        strip_one (b % 16 * 4 + c / 64),
        strip_one (c % 64),
        strip-btoa rest,
      )
      refl

unswap_char : (n : ℕ) (s : Text) → unswap (url_char (sextet_char n) ∷ s) ≡ sextet_char n ∷ unswap s
unfolding replace_all
unswap_char n s = let (a, b, c, d) = sextet_char-plain n in ap (λ e. e ∷ unswap s) (ground arith)

unswap-url_alphabet : (ns : List ℕ) → unswap (url_alphabet ns) ≡ alphabet ns
unfolding replace_all
unswap-url_alphabet [] = refl
unswap-url_alphabet (n ∷ ns) =
    unswap_char n (url_alphabet ns) ∙ ap (λ s. sextet_char n ∷ s) (unswap-url_alphabet ns)

without_white-alphabet : (ns : List ℕ) → without_white (alphabet ns) ≡ alphabet ns
unfolding without_white
without_white-alphabet [] = refl
without_white-alphabet (n ∷ ns) =
    let (a, b, c, d) = sextet_char-plain n in rw (d, without_white-alphabet ns) refl

includes-alphabet : (ns : List ℕ) → includes (alphabet ns) b'=' ≡ false
unfolding includes
includes-alphabet [] = refl
includes-alphabet (n ∷ ns) =
    let (a, b, c, d) = sextet_char-plain n in let rest = includes-alphabet ns in ground arith

includes-append : (p : Text) (d : ℕ) (s : Text) → includes (p ++ d ∷ s) d ≡ true
unfolding includes
includes-append [] d s = rw (eq→== d d refl) refl
includes-append (c ∷ p) d s = let rest = includes-append p d s in ground arith

ends_with-alphabet : (ns : List ℕ) (s : Text) → ends_with (alphabet ns) (b'=' ∷ s) ≡ false
ends_with-alphabet ns s = elim (Bool-cases (ends_with (alphabet ns) (b'=' ∷ s))) [
  | inl padded ↦
      let (p, e) = ends_with_sound (alphabet ns) (b'=' ∷ s) padded in
      let found : includes (alphabet ns) b'=' ≡ true =
        ap (λ t. includes t b'=') e ∙ includes-append p b'=' s in
      let clash : true ≡ false = sym found ∙ includes-alphabet ns in cc
  | inr bare ↦ bare
]

drop_padding-alphabet : (ns : List ℕ) → drop_padding (alphabet ns) ≡ alphabet ns
unfolding drop_padding
drop_padding-alphabet ns =
    rw (ends_with-alphabet ns (b'=' ∷ []), ends_with-alphabet ns []) (ground arith)

sextets-alphabet : (ns : List ℕ) → All (λ n. n < 64) ns → sextets (alphabet ns) ≡ some ns
unfolding sextets lab_keeper.Common.All
sextets-alphabet [] h = refl
sextets-alphabet (n ∷ ns) (small, h) =
    rw (sextet_value-sextet_char n small, sextets-alphabet ns h) refl

six-small : (bs : List ℕ) → All IsByte bs → All (λ n. n < 64) (six bs)
unfolding six lab_keeper.Common.All IsByte
six-small [] h = tt
six-small (a ∷ []) (ha, h) = (omega arith, (omega arith, tt))
six-small (a ∷ b ∷ []) (ha, (hb, h)) = (omega arith, (omega arith, (omega arith, tt)))
six-small (a ∷ b ∷ c ∷ rest) (ha, (hb, (hc, h))) =
    (omega arith, (omega arith, (omega arith, (omega arith, six-small rest h))))

from_sextets-six : (bs : List ℕ) → All IsByte bs → from_sextets (six bs) ≡ some bs
unfolding six lab_keeper.Common.All IsByte from_sextets
from_sextets-six [] h = refl
from_sextets-six (a ∷ []) (ha, h) =
    let first : a / 4 * 4 + a % 4 * 16 / 16 ≡ a = omega arith in rw first refl
from_sextets-six (a ∷ b ∷ []) (ha, (hb, h)) =
    let first : a / 4 * 4 + (a % 4 * 16 + b / 16) / 16 ≡ a = omega arith in
    let second : (a % 4 * 16 + b / 16) % 16 * 16 + b % 16 * 4 / 4 ≡ b = omega arith in
    rw (first, second) refl
from_sextets-six (a ∷ b ∷ c ∷ rest) (ha, (hb, (hc, h))) =
    let first : a / 4 * 4 + (a % 4 * 16 + b / 16) / 16 ≡ a = omega arith in
    let second : (a % 4 * 16 + b / 16) % 16 * 16 + (b % 16 * 4 + c / 64) / 4 ≡ b = omega arith in
    let third : (b % 16 * 4 + c / 64) % 4 * 64 + c % 64 ≡ c = omega arith in
    rw (first, second, third, from_sextets-six rest h) refl

-- What is encoded for a URL decodes to the same bytes, whatever they are and however many.
pub decode_segment-base64_url_encode :
    (bs : List ℕ) → All IsByte bs → decode_segment (base64_url_encode bs) ≡ some bs
unfolding decode_segment base64_url_encode atob
decode_segment-base64_url_encode bs h =
    rw
      (
        strip-btoa bs,
        unswap-url_alphabet (six bs),
        without_white-alphabet (six bs),
        drop_padding-alphabet (six bs),
        sextets-alphabet (six bs) (six-small bs h),
      )
      (from_sextets-six bs h)
