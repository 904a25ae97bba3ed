-- ===== src/Sha256/Lists.antt =====
-- The hash of web/src/lib/sha256.ts without its one array: each block has a message schedule of its own, a
-- list that grows by one word at a time.
use lab_keeper.Common.{
  List, [], get_word, length, suc, word_bytes, zero, ℕ, ◌*◌, ◌++◌, ◌+◌, ◌/◌, ◌∷◌,
}
use lab_keeper.Sha256.{
  Registers, k_table, schedule_word, compress_round, add_registers, initial_hash, digest_bytes,
}
use lab_keeper.Sha256.Padding.{message_block}
use lab_keeper.Sha256.Standard.{fill}

-- The words of a block, from its word `j` on.
abbrev pub block_words : ℕ → ℕ → List ℕ → ℕ → List ℕ
block_words zero j buf i = []
block_words (suc n) j buf i = get_word buf (i + j * 4) ∷ block_words n (suc j) buf i

-- `n` more words of the schedule, each from those before it
abbrev pub grow : ℕ → List ℕ → List ℕ
grow zero ws = ws
grow (suc n) ws = grow n (ws ++ schedule_word ws (length ws) ∷ [])

abbrev pub schedule : List ℕ → ℕ → List ℕ
schedule buf i = grow 48 (block_words 16 0 buf i)

abbrev pub rounds : List ℕ → List ℕ → Registers → Registers
rounds [] ws r = r
rounds (k ∷ ks) [] r = r
rounds (k ∷ ks) (w ∷ ws) r = rounds ks ws (compress_round k w r)

-- The hash after `n` blocks from index `i` on
abbrev pub hash_from : ℕ → ℕ → List ℕ → Registers → Registers
hash_from zero i buf s = s
hash_from (suc n) i buf s =
    hash_from n (i + 64) buf (add_registers s (rounds k_table (schedule buf i) s))

abbrev pub list_sha256 : List ℕ → List ℕ
list_sha256 bytes =
    let len = length bytes in
    let message = message_block bytes (fill len) (word_bytes (len * 8)) in
    digest_bytes (hash_from ((len + 9 + fill len) / 64) 0 message initial_hash)
