-- ===== src/Sha256/Standard.antt =====
-- SHA-256 as FIPS 180-4 describes it, written out on its own: constants, functions and rounds are those of the
-- standard, and none of web/src/lib/sha256.ts is used but the names of the eight registers.
use lab_keeper.Common.{
  List, [], get_or, length, suc, zero, zeros, ℕ, ◌%◌, ◌*◌, ◌++◌, ◌+◌, ◌-◌, ◌/◌, ◌^◌, ◌∷◌,
}
use lab_keeper.Sha256.{Registers}
use Prim.Native.Nat.{bit_and, bit_or, bit_xor}

-- Section 4.2.2
abbrev pub constants : List ℕ
constants =
    0x428a2f98 ∷ 0x71374491 ∷ 0xb5c0fbcf ∷ 0xe9b5dba5 ∷ 0x3956c25b ∷ 0x59f111f1 ∷ 0x923f82a4
    ∷ 0xab1c5ed5 ∷ 0xd807aa98 ∷ 0x12835b01 ∷ 0x243185be ∷ 0x550c7dc3 ∷ 0x72be5d74 ∷ 0x80deb1fe
    ∷ 0x9bdc06a7 ∷ 0xc19bf174 ∷ 0xe49b69c1 ∷ 0xefbe4786 ∷ 0x0fc19dc6 ∷ 0x240ca1cc ∷ 0x2de92c6f
    ∷ 0x4a7484aa ∷ 0x5cb0a9dc ∷ 0x76f988da ∷ 0x983e5152 ∷ 0xa831c66d ∷ 0xb00327c8 ∷ 0xbf597fc7
    ∷ 0xc6e00bf3 ∷ 0xd5a79147 ∷ 0x06ca6351 ∷ 0x14292967 ∷ 0x27b70a85 ∷ 0x2e1b2138 ∷ 0x4d2c6dfc
    ∷ 0x53380d13 ∷ 0x650a7354 ∷ 0x766a0abb ∷ 0x81c2c92e ∷ 0x92722c85 ∷ 0xa2bfe8a1 ∷ 0xa81a664b
    ∷ 0xc24b8b70 ∷ 0xc76c51a3 ∷ 0xd192e819 ∷ 0xd6990624 ∷ 0xf40e3585 ∷ 0x106aa070 ∷ 0x19a4c116
    ∷ 0x1e376c08 ∷ 0x2748774c ∷ 0x34b0bcb5 ∷ 0x391c0cb3 ∷ 0x4ed8aa4a ∷ 0x5b9cca4f ∷ 0x682e6ff3
    ∷ 0x748f82ee ∷ 0x78a5636f ∷ 0x84c87814 ∷ 0x8cc70208 ∷ 0x90befffa ∷ 0xa4506ceb ∷ 0xbef9a3f7
    ∷ 0xc67178f2 ∷ []

-- Section 5.3.3
abbrev pub first_hash : Registers
first_hash = record {
  a = 0x6a09e667;
  b = 0xbb67ae85;
  c = 0x3c6ef372;
  d = 0xa54ff53a;
  e = 0x510e527f;
  f = 0x9b05688c;
  g = 0x1f83d9ab;
  h = 0x5be0cd19;
}

-- Section 3.2: the rotation to the right is `(x >> n) ∨ (x << 32 - n)`.
abbrev pub rotated : ℕ → ℕ → ℕ
rotated n x = bit_or (x / 2 ^ n) (x * 2 ^ (32 - n) % 2 ^ 32)

abbrev pub complement : ℕ → ℕ
complement x = 2 ^ 32 - 1 - x

-- Section 4.1.2
abbrev pub choice : ℕ → ℕ → ℕ → ℕ
choice x y z = bit_xor (bit_and x y) (bit_and (complement x) z)

abbrev pub majority : ℕ → ℕ → ℕ → ℕ
majority x y z = bit_xor (bit_xor (bit_and x y) (bit_and x z)) (bit_and y z)

abbrev pub big_sigma0 : ℕ → ℕ
big_sigma0 x = bit_xor (bit_xor (rotated 2 x) (rotated 13 x)) (rotated 22 x)

abbrev pub big_sigma1 : ℕ → ℕ
big_sigma1 x = bit_xor (bit_xor (rotated 6 x) (rotated 11 x)) (rotated 25 x)

abbrev pub small_sigma0 : ℕ → ℕ
small_sigma0 x = bit_xor (bit_xor (rotated 7 x) (rotated 18 x)) (x / 2 ^ 3)

abbrev pub small_sigma1 : ℕ → ℕ
small_sigma1 x = bit_xor (bit_xor (rotated 17 x) (rotated 19 x)) (x / 2 ^ 10)

-- Section 3.1: in words and in long words the highest byte comes first.
abbrev pub word_at : List ℕ → ℕ → ℕ
word_at buf i =
    get_or buf i 0 * 2 ^ 24
    + get_or buf (i + 1) 0 * 2 ^ 16
    + get_or buf (i + 2) 0 * 2 ^ 8
    + get_or buf (i + 3) 0

abbrev pub four_bytes : ℕ → List ℕ
four_bytes n = n / 2 ^ 24 % 256 ∷ n / 2 ^ 16 % 256 ∷ n / 2 ^ 8 % 256 ∷ n % 256 ∷ []

abbrev pub eight_bytes : ℕ → List ℕ
eight_bytes n =
    n / 2 ^ 56 % 256 ∷ n / 2 ^ 48 % 256 ∷ n / 2 ^ 40 % 256 ∷ n / 2 ^ 32 % 256 ∷ four_bytes n

-- Section 5.1.1: a bit 1, the fewest zeros that fill the last block, and the length in bits.
abbrev pub fill : ℕ → ℕ
fill len = (64 - (len + 9) % 64) % 64

abbrev pub padded_message : List ℕ → List ℕ
padded_message bytes =
    bytes ++ 0x80 ∷ (zeros (fill (length bytes)) ++ eight_bytes (length bytes * 8))

-- Section 6.2.2, step 1: the sixteen words of the block, and `n` more of the schedule.
abbrev pub words_of : ℕ → ℕ → List ℕ → ℕ → List ℕ
words_of zero j buf i = []
words_of (suc n) j buf i = word_at buf (i + j * 4) ∷ words_of n (suc j) buf i

abbrev pub next_word : List ℕ → ℕ → ℕ
next_word ws t =
    (small_sigma1 (get_or ws (t - 2) 0)
      + get_or ws (t - 7) 0
      + small_sigma0 (get_or ws (t - 15) 0)
      + get_or ws (t - 16) 0)
    % 2 ^ 32

abbrev pub extended : ℕ → List ℕ → List ℕ
extended zero ws = ws
extended (suc n) ws = extended n (ws ++ next_word ws (length ws) ∷ [])

-- Step 3: one round with a constant and a word of the schedule, and all of them.
abbrev pub standard_round : ℕ → ℕ → Registers → Registers
standard_round k w r =
    let t1 = (r.h + big_sigma1 r.e + choice r.e r.f r.g + k + w) % 2 ^ 32 in
    let t2 = (big_sigma0 r.a + majority r.a r.b r.c) % 2 ^ 32 in
    record {
      a = (t1 + t2) % 2 ^ 32;
      b = r.a;
      c = r.b;
      d = r.c;
      e = (r.d + t1) % 2 ^ 32;
      f = r.e;
      g = r.f;
      h = r.g;
    }

abbrev pub all_rounds : List ℕ → List ℕ → Registers → Registers
all_rounds [] ws r = r
all_rounds (k ∷ ks) [] r = r
all_rounds (k ∷ ks) (w ∷ ws) r = all_rounds ks ws (standard_round k w r)

-- Step 4
abbrev pub added : Registers → Registers → Registers
added s r = record {
  a = (s.a + r.a) % 2 ^ 32;
  b = (s.b + r.b) % 2 ^ 32;
  c = (s.c + r.c) % 2 ^ 32;
  d = (s.d + r.d) % 2 ^ 32;
  e = (s.e + r.e) % 2 ^ 32;
  f = (s.f + r.f) % 2 ^ 32;
  g = (s.g + r.g) % 2 ^ 32;
  h = (s.h + r.h) % 2 ^ 32;
}

-- The hash after `n` blocks from index `i` on
abbrev pub standard_hash : ℕ → ℕ → List ℕ → Registers → Registers
standard_hash zero i buf s = s
standard_hash (suc n) i buf s =
    standard_hash n (i + 64) buf
      (added s (all_rounds constants (extended 48 (words_of 16 0 buf i)) s))

abbrev pub concatenated : Registers → List ℕ
concatenated s =
    four_bytes s.a
    ++ four_bytes s.b
    ++ four_bytes s.c
    ++ four_bytes s.d
    ++ four_bytes s.e
    ++ four_bytes s.f
    ++ four_bytes s.g
    ++ four_bytes s.h

abbrev pub standard_sha256 : List ℕ → List ℕ
standard_sha256 bytes =
    let len = length bytes in
    concatenated (standard_hash ((len + 9 + fill len) / 64) 0 (padded_message bytes) first_hash)
