-- ===== src/Common/Bytes.antt =====
-- Bytes and 32-bit words as the portal's typed arrays hold them, and the UTF-8 encoding of
-- `TextEncoder`.
use Prim.Native.Nat.{ℕ, zero, suc, ◌+◌, ◌-◌, ◌*◌, ◌/◌, ◌%◌, ◌^◌, ◌<◌}
use mathlib.Core.Bool.{Bool, true, ◌&&◌}
use mathlib.Core.Path.{◌≡◌}
use mathlib.Core.Logic.{inl, inr}
use native.Mathlib.Omega.{arith}
use mathlib.Core.List.{List, [], ◌∷◌, ◌++◌}
use lab_keeper.Common.Tests.{ltb, leb, if◌then◌else◌, Bool-cases}
use lab_keeper.Common.Texts.{Text, All}

-- `new Uint8Array(n)` and `new Uint32Array(n)`
abbrev pub zeros : ℕ → List ℕ
zeros zero = []
zeros (suc n) = 0 ∷ zeros n

-- A typed array reads 0 here where the source never reads, past its end.
abbrev pub get_or : List ℕ → ℕ → ℕ → ℕ
get_or [] i d = d
get_or (x ∷ xs) zero d = x
get_or (x ∷ xs) (suc i) d = get_or xs i d

-- A write past the end changes nothing.
abbrev pub set : List ℕ → ℕ → ℕ → List ℕ
set [] i v = []
set (x ∷ xs) zero v = v ∷ xs
set (x ∷ xs) (suc i) v = x ∷ set xs i v

-- The bytes written one after another from index `i` on.
abbrev pub set_all : List ℕ → ℕ → List ℕ → List ℕ
set_all buf i [] = buf
set_all buf i (v ∷ vs) = set_all (set buf i v) (suc i) vs

-- The four bytes of a word, the highest first: `setUint32(_, n, false)`.
abbrev pub word_bytes : ℕ → List ℕ
word_bytes n = n / 2 ^ 24 % 256 ∷ n / 2 ^ 16 % 256 ∷ n / 2 ^ 8 % 256 ∷ n % 256 ∷ []

-- `getUint32(i, false)`
unfoldable pub get_word : List ℕ → ℕ → ℕ
get_word buf i =
    get_or buf i 0 * 2 ^ 24
    + get_or buf (i + 1) 0 * 2 ^ 16
    + get_or buf (i + 2) 0 * 2 ^ 8
    + get_or buf (i + 3) 0

is_high_surrogate : ℕ → Bool
is_high_surrogate c = leb 0xd800 c && ltb c 0xdc00

is_low_surrogate : ℕ → Bool
is_low_surrogate c = leb 0xdc00 c && ltb c 0xe000

-- One code unit that is no half of a pair; a lone surrogate becomes U+FFFD.
utf8_unit : ℕ → List ℕ
unfolding is_high_surrogate is_low_surrogate
utf8_unit c =
    if ltb c 0x80
    then c ∷ []
    else if ltb c 0x800
    then (0xc0 + c / 64) ∷ (0x80 + c % 64) ∷ []
    else if leb 0xd800 c && ltb c 0xe000
    then 0xef ∷ 0xbf ∷ 0xbd ∷ []
    else (0xe0 + c / 4096) ∷ (0x80 + c / 64 % 64) ∷ (0x80 + c % 64) ∷ []

abbrev four_bytes : ℕ → List ℕ
four_bytes p =
    (0xf0 + p / 262144) ∷ (0x80 + p / 4096 % 64) ∷ (0x80 + p / 64 % 64) ∷ (0x80 + p % 64) ∷ []

utf8_pair : ℕ → ℕ → List ℕ
utf8_pair high low = four_bytes (0x10000 + (high - 0xd800) * 1024 + (low - 0xdc00))

-- `new TextEncoder().encode(s)`
unfoldable pub utf8 : Text → List ℕ
unfolding utf8_unit utf8_pair is_high_surrogate is_low_surrogate
utf8 [] = []
utf8 (c ∷ []) = utf8_unit c
utf8 (c ∷ d ∷ s) =
    let paired = utf8_pair c d ++ utf8 s in
    let single = utf8_unit c ++ utf8 (d ∷ s) in
    if is_high_surrogate c && is_low_surrogate d then paired else single

abbrev pub IsByte : ℕ → Type 0
IsByte b = b < 256

-- A UTF-16 code unit.
abbrev pub IsUnit : ℕ → Type 0
IsUnit c = c < 65536

pub All-append : (P : ℕ → Type 0) (p q : List ℕ) → All P p → All P q → All P (p ++ q)
unfolding All
All-append P [] q h k = k
All-append P (x ∷ p) q (h, hs) k = (h, All-append P p q hs k)

utf8_unit-IsByte : (c : ℕ) → IsUnit c → All IsByte (utf8_unit c)
unfolding utf8_unit All
utf8_unit-IsByte c h = elim (Bool-cases (ltb c 0x80)) [
  | inl one ↦ rw one (ground arith, tt)
  | inr more ↦ rw more (elim (Bool-cases (ltb c 0x800)) [
    | inl two ↦ rw two (ground arith, (omega arith, tt))
    | inr three ↦ rw three (elim (Bool-cases (leb 0xd800 c && ltb c 0xe000)) [
      | inl lone ↦ rw lone (omega arith, (omega arith, (omega arith, tt)))
      | inr whole ↦ rw whole (omega arith, (omega arith, (omega arith, tt)))
    ])
  ])
]

utf8_pair-IsByte :
    (c d : ℕ) → (is_high_surrogate c && is_low_surrogate d) ≡ true → All IsByte (utf8_pair c d)
unfolding utf8_pair All is_high_surrogate is_low_surrogate
utf8_pair-IsByte c d pair =
    let high : c < 0xdc00 = ground arith in
    let low : d < 0xe000 = ground arith in
    (omega arith, (omega arith, (omega arith, (omega arith, tt))))

-- The encoding of code units is made of bytes.
pub utf8-IsByte : (s : Text) → All IsUnit s → All IsByte (utf8 s)
unfolding utf8 All
utf8-IsByte [] h = tt
utf8-IsByte (c ∷ []) h = utf8_unit-IsByte c h.0
utf8-IsByte (c ∷ d ∷ s) (h, (k, hs)) =
    elim (Bool-cases (is_high_surrogate c && is_low_surrogate d)) [
      | inl both ↦ rw both (
          All-append IsByte (utf8_pair c d) (utf8 s) (utf8_pair-IsByte c d both) (utf8-IsByte s hs))
      | inr single ↦ rw single (
          All-append IsByte (utf8_unit c) (utf8 (d ∷ s)) (utf8_unit-IsByte c h)
            (utf8-IsByte (d ∷ s) (k, hs)))
    ]
