-- ===== src/Sha256/Blocks.antt =====
-- The loop of web/src/lib/sha256.ts over the blocks of the padded message.
use lab_keeper.Common.{
  Bool-cases, List, ap, arith, false, inl, inr, length, ltb, refl, suc, sym, zero, zeros, ℕ, ◌*◌,
  ◌+◌, ◌∙◌, ◌≡◌, ◌≤◌,
}
use lab_keeper.Sha256.{
  Registers, pad_len, padded, initial_hash, hash_blocks, digest_bytes, sha256_pure,
}

pub no_block :
    (n i size : ℕ) (buf w : List ℕ) (s : Registers) → size ≤ i → hash_blocks n i size buf w s ≡ s
unfolding hash_blocks
no_block zero i size buf w s h = refl
no_block (suc n) i size buf w s h = let past : ltb i size ≡ false = ground arith in rw past refl

-- As soon as the fuel covers the buffer, more of it changes nothing.
hash_blocks-fuel :
    (n m i size : ℕ) (buf w : List ℕ) (s : Registers)
    → size ≤ i + n * 64
    → size ≤ i + m * 64
    → hash_blocks n i size buf w s ≡ hash_blocks m i size buf w s
unfolding hash_blocks
hash_blocks-fuel zero m i size buf w s h k =
    no_block zero i size buf w s (omega arith) ∙ sym (no_block m i size buf w s (omega arith))
hash_blocks-fuel (suc n) zero i size buf w s h k = no_block (suc n) i size buf w s (omega arith)
hash_blocks-fuel (suc n) (suc m) i size buf w s h k = elim (Bool-cases (ltb i size)) [
  | inl more ↦ rw more (hash_blocks-fuel n m (i + 64) size buf _ _ (omega arith) (omega arith))
  | inr past ↦ rw past refl
]

-- The hash runs the loop to its end: with any number of rounds that covers the padded message, the
-- digest is the same.
pub sha256_pure-fuel :
    (bytes : List ℕ) (rounds : ℕ)
    → pad_len (length bytes) ≤ rounds * 64
    → digest_bytes
        (hash_blocks rounds 0 (pad_len (length bytes)) (padded bytes) (zeros 64) initial_hash)
      ≡ sha256_pure bytes
unfolding sha256_pure
sha256_pure-fuel bytes rounds h = ap digest_bytes (
    hash_blocks-fuel rounds (pad_len (length bytes)) 0 (pad_len (length bytes)) (padded bytes)
      (zeros 64) initial_hash (omega arith) (omega arith))
