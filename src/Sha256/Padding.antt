-- ===== src/Sha256/Padding.antt =====
-- The padding of web/src/lib/sha256.ts against that of the standard.
use lab_keeper.Common.{
  List, [], ap, append_assoc, arith, drop, length, length-append, refl, set, set_all, suc, sym,
  word_bytes, zero, zeros, ℕ, ◌%◌, ◌*◌, ◌++◌, ◌+◌, ◌-◌, ◌/◌, ◌<◌, ◌^◌, ◌∙◌, ◌∷◌, ◌≡◌, ◌≤◌,
}
use Prim.Native.Nat.{bit_and, bit_and-bitwise, digits, min}
use lab_keeper.Sha256.{pad_len, padded}

abbrev low_digits : ℕ → ℕ → ℕ → ℕ
low_digits = digits (λ b. 0) min

-- Any count that is not below the number gives the same digits.
count_enough : (a b n m : ℕ) → a ≤ n → a ≤ m → low_digits n a b ≡ low_digits m a b
count_enough zero b zero zero h k = refl
count_enough zero b zero (suc m) h k = refl
count_enough zero b (suc n) zero h k = refl
count_enough zero b (suc n) (suc m) h k = refl
count_enough (suc a) b zero m h k = absurd (omega arith)
count_enough (suc a) b (suc n) zero h k = absurd (omega arith)
count_enough (suc a) b (suc n) (suc m) h k =
    ap (λ d. d * 2 + min (suc a % 2) (b % 2))
      (count_enough (suc a / 2) (b / 2) n m (omega arith) (omega arith))

-- A mask that is even clears the lowest digit.
even_mask : (x m : ℕ) → bit_and x (m * 2) ≡ bit_and (x / 2) m * 2
even_mask zero m = omega (arith, bit_and-bitwise 0 (m * 2), bit_and-bitwise 0 m)
even_mask (suc a) m =
    let half : m * 2 / 2 ≡ m = omega arith in
    let even : m * 2 % 2 ≡ 0 = omega arith in
    let shorter : low_digits a (suc a / 2) m ≡ low_digits (suc a / 2) (suc a / 2) m =
      count_enough (suc a / 2) m a (suc a / 2) (omega arith) (omega arith) in
    let last : low_digits (suc a) (suc a) (m * 2) ≡ low_digits a (suc a / 2) m * 2 =
      ap (λ d. low_digits a (suc a / 2) d * 2 + min (suc a % 2) (m * 2 % 2)) half ∙ omega arith in
    bit_and-bitwise (suc a) (m * 2)
    ∙ last
    ∙ ap (λ d. d * 2) (shorter ∙ sym (bit_and-bitwise (suc a / 2) m))

abbrev ones : ℕ → ℕ
ones zero = 0
ones (suc k) = ones k * 2 + 1

-- A mask of ones keeps what is not larger.
ones_mask : (k n x : ℕ) → x ≤ n → x ≤ ones k → low_digits n x (ones k) ≡ x
ones_mask k zero x h l = omega arith
ones_mask k (suc n) zero h l = refl
ones_mask zero (suc n) (suc a) h l = absurd (omega arith)
ones_mask (suc k) (suc n) (suc a) h l =
    let half : (ones k * 2 + 1) / 2 ≡ ones k = omega arith in
    ap (λ d. low_digits n (suc a / 2) d * 2 + min (suc a % 2) ((ones k * 2 + 1) % 2)) half
    ∙ omega (arith, ones_mask k n (suc a / 2) (omega arith) (omega arith))

six_cleared : (x : ℕ) → x < 2 ^ 32 → bit_and x 4294967232 ≡ x / 64 * 64
six_cleared x h = omega (
  arith,
  even_mask x 2147483616,
  even_mask (x / 2) 1073741808,
  even_mask (x / 2 / 2) 536870904,
  even_mask (x / 2 / 2 / 2) 268435452,
  even_mask (x / 2 / 2 / 2 / 2) 134217726,
  even_mask (x / 2 / 2 / 2 / 2 / 2) 67108863,
  bit_and-bitwise (x / 2 / 2 / 2 / 2 / 2 / 2) 67108863,
  ones_mask 26 (x / 2 / 2 / 2 / 2 / 2 / 2) (x / 2 / 2 / 2 / 2 / 2 / 2) (omega arith) (omega arith),
)

pub pad_len-rounded : (len : ℕ) → len < 2 ^ 29 → pad_len len ≡ (len + 72) / 64 * 64
unfolding pad_len
pad_len-rounded len h = six_cleared ((len + 9 + 63) % 2 ^ 32) (omega arith) ∙ omega arith

pub set_at : (p : List ℕ) (c x : ℕ) (q : List ℕ) → set (p ++ x ∷ q) (length p) c ≡ p ++ c ∷ q
set_at [] c x q = refl
set_at (y ∷ p) c x q = ap (λ r. y ∷ r) (set_at p c x q)

pub length-snoc : (p : List ℕ) (c : ℕ) → length (p ++ c ∷ []) ≡ suc (length p)
length-snoc p c = omega (arith, length-append p (c ∷ []))

set_all-append :
    (p v q : List ℕ)
    → length v ≤ length q
    → set_all (p ++ q) (length p) v ≡ p ++ (v ++ drop (length v) q)
set_all-append p [] q h = refl
set_all-append p (c ∷ v) [] h = absurd (omega arith)
set_all-append p (c ∷ v) (x ∷ q) h =
    let one : set (p ++ x ∷ q) (length p) c ≡ (p ++ c ∷ []) ++ q =
      set_at p c x q ∙ sym (append_assoc p (c ∷ []) q) in
    rw (one, sym (length-snoc p c))
      (set_all-append (p ++ c ∷ []) v q (omega arith)
        ∙ append_assoc p (c ∷ []) (v ++ drop (length v) q))

zeros-add : (m n : ℕ) → zeros (m + n) ≡ zeros m ++ zeros n
zeros-add zero n = ap zeros (omega arith)
zeros-add (suc m) n =
    let count : suc m + n ≡ suc (m + n) = omega arith in
    ap zeros count ∙ ap (λ r. 0 ∷ r) (zeros-add m n)

length-zeros : (n : ℕ) → length (zeros n) ≡ n
length-zeros zero = refl
length-zeros (suc n) = ap suc (length-zeros n)

drop-zeros : (m n : ℕ) → drop m (zeros (m + n)) ≡ zeros n
drop-zeros zero n = ap zeros (omega arith)
drop-zeros (suc m) n =
    let count : suc m + n ≡ suc (m + n) = omega arith in
    ap (λ k. drop (suc m) (zeros k)) count ∙ drop-zeros m n

-- The message, one bit, zeros, and a word with four bytes of zeros in front.
abbrev pub message_block : List ℕ → ℕ → List ℕ → List ℕ
message_block bytes z word = bytes ++ 0x80 ∷ (zeros z ++ (0 ∷ 0 ∷ 0 ∷ 0 ∷ word))

copied : (bytes : List ℕ) (n : ℕ) → set_all (zeros (length bytes + n)) 0 bytes ≡ bytes ++ zeros n
copied bytes n =
    let room : length bytes ≤ length (zeros (length bytes + n)) =
      omega (arith, length-zeros (length bytes + n)) in
    set_all-append [] bytes (zeros (length bytes + n)) room
    ∙ ap (λ q. bytes ++ q) (drop-zeros (length bytes) n)

marked :
    (bytes : List ℕ) (z : ℕ)
    → set (set_all (zeros (length bytes + (9 + z))) 0 bytes) (length bytes) 0x80
      ≡ (bytes ++ 0x80 ∷ zeros (z + 4)) ++ zeros 4
marked bytes z =
    let count : 9 + z ≡ suc (z + 4 + 4) = omega arith in
    ap (λ b. set b (length bytes) 0x80) (copied bytes (9 + z) ∙ ap (λ n. bytes ++ zeros n) count)
    ∙ set_at bytes 0x80 0 (zeros (z + 4 + 4))
    ∙ ap (λ q. bytes ++ 0x80 ∷ q) (zeros-add (z + 4) 4)
    ∙ sym (append_assoc bytes (0x80 ∷ zeros (z + 4)) (zeros 4))

length-marked :
    (bytes : List ℕ) (z : ℕ) → length bytes + (9 + z) - 4 ≡ length (bytes ++ 0x80 ∷ zeros (z + 4))
length-marked bytes z =
    omega (arith, length-append bytes (0x80 ∷ zeros (z + 4)), length-zeros (z + 4))

written :
    (bytes : List ℕ) (z n : ℕ)
    → set_all
        ((bytes ++ 0x80 ∷ zeros (z + 4)) ++ zeros 4)
        (length (bytes ++ 0x80 ∷ zeros (z + 4)))
        (word_bytes n)
      ≡ message_block bytes z (word_bytes n)
written bytes z n =
    set_all-append (bytes ++ 0x80 ∷ zeros (z + 4)) (word_bytes n) (zeros 4) (omega arith)
    ∙ append_assoc bytes (0x80 ∷ zeros (z + 4)) (word_bytes n)
    ∙ ap (λ q. bytes ++ 0x80 ∷ (q ++ word_bytes n)) (zeros-add z 4)
    ∙ ap (λ q. bytes ++ 0x80 ∷ q) (append_assoc (zeros z) (zeros 4) (word_bytes n))

filled :
    (bytes : List ℕ) (z n size : ℕ)
    → size ≡ length bytes + (9 + z)
    → set_all (set (set_all (zeros size) 0 bytes) (length bytes) 0x80) (size - 4) (word_bytes n)
      ≡ message_block bytes z (word_bytes n)
filled bytes z n size e = rw (e, marked bytes z, length-marked bytes z) (written bytes z n)

-- A message of less than 2 ^ 29 bytes is padded as the standard says: a bit 1, then zeros, then the length
-- in bits as 64 bits, and the number of zeros is the least that fills the last block of 64 bytes.
pub padded-message_block :
    (bytes : List ℕ)
    → length bytes < 2 ^ 29
    → (z : ℕ) × (z < 64)
      × ((length bytes + 9 + z) % 64 ≡ 0)
      × (padded bytes ≡ message_block bytes z (word_bytes (length bytes * 8)))
unfolding padded
padded-message_block bytes h =
    let size : pad_len (length bytes) ≡ (length bytes + 72) / 64 * 64 =
      pad_len-rounded (length bytes) h in
    let z : ℕ = (length bytes + 72) / 64 * 64 - length bytes - 9 in
    let bits : length bytes * 8 % 2 ^ 32 ≡ length bytes * 8 = omega arith in
    (
      z,
      omega arith,
      omega arith,
      filled bytes z (length bytes * 8 % 2 ^ 32) (pad_len (length bytes)) (omega arith)
          ∙ ap (λ n. message_block bytes z (word_bytes n)) bits,
    )
