-- ===== src/Sha256.antt =====
-- web/src/lib/sha256.ts. A word stands for its residue modulo 2 ^ 32: where JavaScript's bit
-- operations give a signed number, only further bit operations, additions and `>>> 0` follow.
pub mod Padding
pub mod Blocks
pub mod Lists
pub mod Standard
pub mod Agrees
pub mod Refine
mod Tests
use lab_keeper.Common.{
  Bool, List, [], get_or, get_word, if◌then◌else◌, length, ltb, set, set_all, suc, word_bytes, zero,
  zeros, ℕ, ◌%◌, ◌*◌, ◌++◌, ◌+◌, ◌-◌, ◌/◌, ◌^◌, ◌∷◌,
}
use Prim.Native.Nat.{bit_and, bit_or, bit_xor}

abbrev pub word_mod : ℕ
word_mod = 2 ^ 32

abbrev pub k_table : List ℕ
k_table =
    0x428a2f98 ∷ 0x71374491 ∷ 0xb5c0fbcf ∷ 0xe9b5dba5 ∷ 0x3956c25b ∷ 0x59f111f1 ∷ 0x923f82a4
    ∷ 0xab1c5ed5 ∷ 0xd807aa98 ∷ 0x12835b01 ∷ 0x243185be ∷ 0x550c7dc3 ∷ 0x72be5d74 ∷ 0x80deb1fe
    ∷ 0x9bdc06a7 ∷ 0xc19bf174 ∷ 0xe49b69c1 ∷ 0xefbe4786 ∷ 0x0fc19dc6 ∷ 0x240ca1cc ∷ 0x2de92c6f
    ∷ 0x4a7484aa ∷ 0x5cb0a9dc ∷ 0x76f988da ∷ 0x983e5152 ∷ 0xa831c66d ∷ 0xb00327c8 ∷ 0xbf597fc7
    ∷ 0xc6e00bf3 ∷ 0xd5a79147 ∷ 0x06ca6351 ∷ 0x14292967 ∷ 0x27b70a85 ∷ 0x2e1b2138 ∷ 0x4d2c6dfc
    ∷ 0x53380d13 ∷ 0x650a7354 ∷ 0x766a0abb ∷ 0x81c2c92e ∷ 0x92722c85 ∷ 0xa2bfe8a1 ∷ 0xa81a664b
    ∷ 0xc24b8b70 ∷ 0xc76c51a3 ∷ 0xd192e819 ∷ 0xd6990624 ∷ 0xf40e3585 ∷ 0x106aa070 ∷ 0x19a4c116
    ∷ 0x1e376c08 ∷ 0x2748774c ∷ 0x34b0bcb5 ∷ 0x391c0cb3 ∷ 0x4ed8aa4a ∷ 0x5b9cca4f ∷ 0x682e6ff3
    ∷ 0x748f82ee ∷ 0x78a5636f ∷ 0x84c87814 ∷ 0x8cc70208 ∷ 0x90befffa ∷ 0xa4506ceb ∷ 0xbef9a3f7
    ∷ 0xc67178f2 ∷ []

-- `~x`
abbrev pub not32 : ℕ → ℕ
not32 x = word_mod - 1 - x

unfoldable pub rotr : ℕ → ℕ → ℕ
rotr n x = bit_or (x / 2 ^ n) (x * 2 ^ (32 - n) % word_mod)

unfoldable pub ch : ℕ → ℕ → ℕ → ℕ
ch x y z = bit_xor (bit_and x y) (bit_and (not32 x) z)

unfoldable pub maj : ℕ → ℕ → ℕ → ℕ
maj x y z = bit_xor (bit_xor (bit_and x y) (bit_and x z)) (bit_and y z)

unfoldable pub s0 : ℕ → ℕ
unfolding rotr
s0 x = bit_xor (bit_xor (rotr 2 x) (rotr 13 x)) (rotr 22 x)

unfoldable pub s1 : ℕ → ℕ
unfolding rotr
s1 x = bit_xor (bit_xor (rotr 6 x) (rotr 11 x)) (rotr 25 x)

unfoldable pub g0 : ℕ → ℕ
unfolding rotr
g0 x = bit_xor (bit_xor (rotr 7 x) (rotr 18 x)) (x / 2 ^ 3)

unfoldable pub g1 : ℕ → ℕ
unfolding rotr
g1 x = bit_xor (bit_xor (rotr 17 x) (rotr 19 x)) (x / 2 ^ 10)

-- The registers `a` to `h`, and the running hash `h0` to `h7`.
pub record Registers : Type 0 where
  pub a : ℕ
  pub b : ℕ
  pub c : ℕ
  pub d : ℕ
  pub e : ℕ
  pub f : ℕ
  pub g : ℕ
  pub h : ℕ

abbrev pub initial_hash : Registers
initial_hash = record {
  a = 0x6a09e667;
  b = 0xbb67ae85;
  c = 0x3c6ef372;
  d = 0xa54ff53a;
  e = 0x510e527f;
  f = 0x9b05688c;
  g = 0x1f83d9ab;
  h = 0x5be0cd19;
}

-- `((len + 9 + 63) & ~63) >>> 0`
unfoldable pub pad_len : ℕ → ℕ
pad_len len = bit_and ((len + 9 + 63) % word_mod) (not32 63)

-- The buffer: the data, 0x80, zeros, and the length in bits in the last four bytes.
unfoldable pub padded : List ℕ → List ℕ
unfolding pad_len
padded bytes =
    let len = length bytes in
    let size = pad_len len in
    set_all (set (set_all (zeros size) 0 bytes) len 0x80) (size - 4)
      (word_bytes (len * 8 % word_mod))

-- `for (let j = 0; j < 16; j++) w[j] = view.getUint32(i + j * 4, false)`, by the rounds left.
unfoldable pub load_block : ℕ → ℕ → List ℕ → ℕ → List ℕ → List ℕ
unfolding get_word
load_block zero j buf i w = w
load_block (suc rounds) j buf i w =
    load_block rounds (suc j) buf i (set w j (get_word buf (i + j * 4)))

-- One entry of the message schedule, from the entries before it.
unfoldable pub schedule_word : List ℕ → ℕ → ℕ
unfolding g0 g1
schedule_word w j =
    (g1 (get_or w (j - 2) 0) + get_or w (j - 7) 0 + g0 (get_or w (j - 15) 0) + get_or w (j - 16) 0)
    % word_mod

-- `for (let j = 16; j < 64; j++)`, by the rounds left.
unfoldable pub extend : ℕ → ℕ → List ℕ → List ℕ
unfolding schedule_word
extend zero j w = w
extend (suc rounds) j w = extend rounds (suc j) (set w j (schedule_word w j))

-- One round of the compression, with `K[j]` and `w[j]`.
unfoldable pub compress_round : ℕ → ℕ → Registers → Registers
unfolding s0 s1 ch maj
compress_round k w r =
    let t1 = (r.h + s1 r.e + ch r.e r.f r.g + k + w) % word_mod in
    let t2 = (s0 r.a + maj r.a r.b r.c) % word_mod in
    record {
      a = (t1 + t2) % word_mod;
      b = r.a;
      c = r.b;
      d = r.c;
      e = (r.d + t1) % word_mod;
      f = r.e;
      g = r.f;
      h = r.g;
    }

-- `for (let j = 0; j < 64; j++)`, by the rounds left.
unfoldable pub compress : ℕ → ℕ → List ℕ → Registers → Registers
unfolding compress_round
compress zero j w r = r
compress (suc rounds) j w r =
    compress rounds (suc j) w (compress_round (get_or k_table j 0) (get_or w j 0) r)

unfoldable pub add_registers : Registers → Registers → Registers
add_registers s r = record {
  a = (s.a + r.a) % word_mod;
  b = (s.b + r.b) % word_mod;
  c = (s.c + r.c) % word_mod;
  d = (s.d + r.d) % word_mod;
  e = (s.e + r.e) % word_mod;
  f = (s.f + r.f) % word_mod;
  g = (s.g + r.g) % word_mod;
  h = (s.h + r.h) % word_mod;
}

-- The loop over the blocks, `for (let i = 0; i < padLen; i += 64)`, with the one array `w` that
-- every round overwrites. The fuel is the size of the buffer, more than the rounds that it has.
unfoldable pub hash_blocks : ℕ → ℕ → ℕ → List ℕ → List ℕ → Registers → Registers
unfolding load_block extend compress add_registers
hash_blocks zero i size buf w s = s
hash_blocks (suc fuel) i size buf w s =
    let w' = extend 48 16 (load_block 16 0 buf i w) in
    let rest = hash_blocks fuel (i + 64) size buf w' (add_registers s (compress 64 0 w' s)) in
    if ltb i size then rest else s

-- The eight words, each with its highest byte first.
unfoldable pub digest_bytes : Registers → List ℕ
digest_bytes s =
    word_bytes s.a
    ++ word_bytes s.b
    ++ word_bytes s.c
    ++ word_bytes s.d
    ++ word_bytes s.e
    ++ word_bytes s.f
    ++ word_bytes s.g
    ++ word_bytes s.h

unfoldable pub sha256_pure : List ℕ → List ℕ
unfolding padded hash_blocks digest_bytes
sha256_pure bytes =
    let size = pad_len (length bytes) in
    digest_bytes (hash_blocks size 0 size (padded bytes) (zeros 64) initial_hash)

-- In a secure context the browser's own digest is asked.
unfoldable pub sha256 : Bool → (List ℕ → List ℕ) → List ℕ → List ℕ
unfolding sha256_pure
sha256 secure subtle_digest bytes = if secure then subtle_digest bytes else sha256_pure bytes
