-- ===== src/Sha256/Agrees.antt =====
-- The hash of web/src/lib/sha256.ts on lists computes what FIPS 180-4 describes.
use lab_keeper.Common.{
  List, [], ap, arith, get_word, length, refl, suc, word_bytes, zero, zeros, ℕ, ◌%◌, ◌*◌, ◌++◌, ◌+◌,
  ◌/◌, ◌<◌, ◌^◌, ◌∙◌, ◌∷◌, ◌≡◌,
}
use lab_keeper.Sha256.{
  Registers, k_table, schedule_word, compress_round, add_registers, initial_hash, digest_bytes, g0,
  g1, s0, s1, ch, maj, rotr,
}
use lab_keeper.Sha256.Padding.{message_block}
use lab_keeper.Sha256.Lists.{block_words, grow, schedule, rounds, hash_from, list_sha256}
use lab_keeper.Sha256.Standard.{
  constants, first_hash, fill, padded_message, words_of, next_word, extended, standard_round,
  all_rounds, added, standard_hash, concatenated, standard_sha256,
}

schedule_word-next_word : (ws : List ℕ) (t : ℕ) → schedule_word ws t ≡ next_word ws t
unfolding schedule_word g0 g1 rotr
schedule_word-next_word ws t = refl

compress_round-standard_round :
    (k w : ℕ) (r : Registers) → compress_round k w r ≡ standard_round k w r
unfolding compress_round s0 s1 ch maj rotr
compress_round-standard_round k w r = refl

add_registers-added : (s r : Registers) → add_registers s r ≡ added s r
unfolding add_registers
add_registers-added s r = refl

block_words-words_of : (n j : ℕ) (buf : List ℕ) (i : ℕ) → block_words n j buf i ≡ words_of n j buf i
unfolding get_word
block_words-words_of zero j buf i = refl
block_words-words_of (suc n) j buf i =
    ap (λ ws. get_word buf (i + j * 4) ∷ ws) (block_words-words_of n (suc j) buf i)

grow-extended : (n : ℕ) (ws : List ℕ) → grow n ws ≡ extended n ws
grow-extended zero ws = refl
grow-extended (suc n) ws =
    ap (λ v. grow n (ws ++ v ∷ [])) (schedule_word-next_word ws (length ws))
    ∙ grow-extended n (ws ++ next_word ws (length ws) ∷ [])

rounds-all_rounds : (ks ws : List ℕ) (r : Registers) → rounds ks ws r ≡ all_rounds ks ws r
rounds-all_rounds [] ws r = refl
rounds-all_rounds (k ∷ ks) [] r = refl
rounds-all_rounds (k ∷ ks) (w ∷ ws) r =
    ap (rounds ks ws) (compress_round-standard_round k w r)
    ∙ rounds-all_rounds ks ws (standard_round k w r)

schedule-extended : (buf : List ℕ) (i : ℕ) → schedule buf i ≡ extended 48 (words_of 16 0 buf i)
schedule-extended buf i =
    grow-extended 48 (block_words 16 0 buf i) ∙ ap (extended 48) (block_words-words_of 16 0 buf i)

k_table-constants : k_table ≡ constants
k_table-constants = refl

hash_from-standard_hash :
    (n i : ℕ) (buf : List ℕ) (s : Registers) → hash_from n i buf s ≡ standard_hash n i buf s
hash_from-standard_hash zero i buf s = refl
hash_from-standard_hash (suc n) i buf s =
    let ws : List ℕ = extended 48 (words_of 16 0 buf i) in
    ap (λ q. hash_from n (i + 64) buf (add_registers s (rounds k_table q s)))
      (schedule-extended buf i)
    ∙ ap (λ ks. hash_from n (i + 64) buf (add_registers s (rounds ks ws s))) k_table-constants
    ∙ ap (λ r. hash_from n (i + 64) buf (add_registers s r)) (rounds-all_rounds constants ws s)
    ∙ ap (hash_from n (i + 64) buf) (add_registers-added s (all_rounds constants ws s))
    ∙ hash_from-standard_hash n (i + 64) buf (added s (all_rounds constants ws s))

digest_bytes-concatenated : (s : Registers) → digest_bytes s ≡ concatenated s
unfolding digest_bytes
digest_bytes-concatenated s = refl

message_block-padded_message :
    (bytes : List ℕ)
    → length bytes < 2 ^ 29
    → message_block bytes (fill (length bytes)) (word_bytes (length bytes * 8))
      ≡ padded_message bytes
message_block-padded_message bytes h =
    let n : ℕ = length bytes * 8 in
    let first : 0 ≡ n / 2 ^ 56 % 256 = omega arith in
    let second : 0 ≡ n / 2 ^ 48 % 256 = omega arith in
    let third : 0 ≡ n / 2 ^ 40 % 256 = omega arith in
    let fourth : 0 ≡ n / 2 ^ 32 % 256 = omega arith in
    let front : List ℕ → List ℕ = λ q. bytes ++ 0x80 ∷ (zeros (fill (length bytes)) ++ q) in
    ap (λ x. front (x ∷ 0 ∷ 0 ∷ 0 ∷ word_bytes n)) first
    ∙ ap (λ x. front (n / 2 ^ 56 % 256 ∷ x ∷ 0 ∷ 0 ∷ word_bytes n)) second
    ∙ ap (λ x. front (n / 2 ^ 56 % 256 ∷ n / 2 ^ 48 % 256 ∷ x ∷ 0 ∷ word_bytes n)) third
    ∙ ap (λ x. front (n / 2 ^ 56 % 256 ∷ n / 2 ^ 48 % 256 ∷ n / 2 ^ 40 % 256 ∷ x ∷ word_bytes n))
        fourth

pub list_sha256-standard_sha256 :
    (bytes : List ℕ) → length bytes < 2 ^ 29 → list_sha256 bytes ≡ standard_sha256 bytes
list_sha256-standard_sha256 bytes h =
    let len : ℕ = length bytes in
    let blocks : ℕ = (len + 9 + fill len) / 64 in
    digest_bytes-concatenated
      (hash_from blocks 0 (message_block bytes (fill len) (word_bytes (len * 8))) initial_hash)
    ∙ ap concatenated (
        hash_from-standard_hash blocks 0 (message_block bytes (fill len) (word_bytes (len * 8)))
          initial_hash
        ∙ ap (λ m. standard_hash blocks 0 m first_hash) (message_block-padded_message bytes h))
