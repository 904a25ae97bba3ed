-- ===== src/Sha256/Refine.antt =====
-- The loops of web/src/lib/sha256.ts, with their one array, compute the hash of the standard.
use lab_keeper.Common.{
  List, [], ap, append-nil, append_assoc, arith, get_or, get_word, length, length-append, ltb, refl,
  set, subst, suc, sym, true, word_bytes, zero, zeros, ℕ, ◌*◌, ◌++◌, ◌+◌, ◌-◌, ◌/◌, ◌<◌, ◌^◌, ◌∙◌,
  ◌∷◌, ◌≡◌, ◌≤◌,
}
use lab_keeper.Sha256.{
  Registers, k_table, pad_len, padded, schedule_word, compress_round, compress, load_block, extend,
  add_registers, initial_hash, hash_blocks, digest_bytes, sha256_pure,
}
use lab_keeper.Sha256.Padding.{
  message_block, padded-message_block, pad_len-rounded, set_at, length-snoc,
}
use lab_keeper.Sha256.Blocks.{no_block}
use lab_keeper.Sha256.Lists.{block_words, grow, schedule, rounds, hash_from, list_sha256}
use lab_keeper.Sha256.Standard.{fill, standard_sha256}
use lab_keeper.Sha256.Agrees.{list_sha256-standard_sha256}

get_or-front : (p r : List ℕ) (k : ℕ) → k < length p → get_or (p ++ r) k 0 ≡ get_or p k 0
get_or-front [] r k h = absurd (omega (arith, h))
get_or-front (x ∷ p) r zero h = refl
get_or-front (x ∷ p) r (suc k) h = get_or-front p r k (omega arith)

get_or-middle : (p r : List ℕ) (x : ℕ) → get_or (p ++ x ∷ r) (length p) 0 ≡ x
get_or-middle [] r x = refl
get_or-middle (y ∷ p) r x = get_or-middle p r x

set-middle : (p r : List ℕ) (x v : ℕ) → set (p ++ x ∷ r) (length p) v ≡ (p ++ v ∷ []) ++ r
set-middle p r x v = set_at p v x r ∙ sym (append_assoc p (v ∷ []) r)

-- The first loop writes the words of the block, whatever stood there.
load_block-words :
    (a b p buf : List ℕ) (i : ℕ)
    → load_block (length a) (length p) buf i (p ++ (a ++ b))
      ≡ (p ++ block_words (length a) (length p) buf i) ++ b
unfolding load_block
load_block-words [] b p buf i = ap (λ q. q ++ b) (sym (append-nil p))
load_block-words (x ∷ a) b p buf i =
    let v : ℕ = get_word buf (i + length p * 4) in
    ap (load_block (length a) (suc (length p)) buf i) (set-middle p (a ++ b) x v)
    ∙ subst
        (λ j.
          load_block (length a) j buf i ((p ++ v ∷ []) ++ (a ++ b))
          ≡ ((p ++ v ∷ []) ++ block_words (length a) j buf i) ++ b)
        (length-snoc p v) (load_block-words a b (p ++ v ∷ []) buf i)
    ∙ ap (λ q. q ++ b) (append_assoc p (v ∷ []) (block_words (length a) (suc (length p)) buf i))

schedule_word-front :
    (p r : List ℕ) → 16 ≤ length p → schedule_word (p ++ r) (length p) ≡ schedule_word p (length p)
unfolding schedule_word
schedule_word-front p r h =
    rw
      (
        get_or-front p r (length p - 2) (omega arith),
        get_or-front p r (length p - 7) (omega arith),
        get_or-front p r (length p - 15) (omega arith),
        get_or-front p r (length p - 16) (omega arith),
      )
      refl

-- The second loop makes the rest of the schedule from those words alone.
extend-grow :
    (a p : List ℕ) → 16 ≤ length p → extend (length a) (length p) (p ++ a) ≡ grow (length a) p
unfolding extend
extend-grow [] p h = append-nil p
extend-grow (x ∷ a) p h =
    let v : ℕ = schedule_word p (length p) in
    ap (λ u. extend (length a) (suc (length p)) (set (p ++ x ∷ a) (length p) u))
      (schedule_word-front p (x ∷ a) h)
    ∙ ap (extend (length a) (suc (length p))) (set-middle p a x v)
    ∙ subst (λ j. extend (length a) j ((p ++ v ∷ []) ++ a) ≡ grow (length a) (p ++ v ∷ []))
        (length-snoc p v) (extend-grow a (p ++ v ∷ []) (rw (length-snoc p v) (omega arith)))

-- The third loop runs over constants and schedule.
compress-rounds :
    (ks ws kp p : List ℕ) (r : Registers)
    → k_table ≡ kp ++ ks
    → length kp ≡ length p
    → length ks ≡ length ws
    → compress (length ws) (length p) (p ++ ws) r ≡ rounds ks ws r
unfolding compress
compress-rounds [] [] kp p r table same long = refl
compress-rounds [] (w ∷ ws) kp p r table same long = absurd (omega (arith, long))
compress-rounds (k ∷ ks) [] kp p r table same long = absurd (omega (arith, long))
compress-rounds (k ∷ ks) (w ∷ ws) kp p r table same long =
    let constant : get_or k_table (length p) 0 ≡ k =
      ap (λ t. get_or t (length p) 0) table
      ∙ ap (λ j. get_or (kp ++ k ∷ ks) j 0) (sym same)
      ∙ get_or-middle kp ks k in
    let s : Registers = compress_round k w r in
    ap (compress (length ws) (suc (length p)) (p ++ w ∷ ws)) (
      ap (λ c. compress_round c (get_or (p ++ w ∷ ws) (length p) 0) r) constant
      ∙ ap (λ x. compress_round k x r) (get_or-middle p ws w))
    ∙ ap (λ q. compress (length ws) (suc (length p)) q s) (sym (append_assoc p (w ∷ []) ws))
    ∙ subst (λ j. compress (length ws) j ((p ++ w ∷ []) ++ ws) s ≡ rounds ks ws s) (length-snoc p w)
        (compress-rounds ks ws (kp ++ k ∷ []) (p ++ w ∷ []) s
          (table ∙ sym (append_assoc kp (k ∷ []) ks))
          (length-snoc kp k ∙ ap suc same ∙ sym (length-snoc p w)) (omega arith))

length-grow : (n : ℕ) (p : List ℕ) → length (grow n p) ≡ n + length p
length-grow zero p = omega arith
length-grow (suc n) p =
    length-grow n _ ∙ ap (λ k. n + k) (length-snoc p (schedule_word p (length p))) ∙ omega arith

length-block_words : (n j : ℕ) (buf : List ℕ) (i : ℕ) → length (block_words n j buf i) ≡ n
length-block_words zero j buf i = refl
length-block_words (suc n) j buf i = ap suc (length-block_words n (suc j) buf i)

-- A list of at least `n` elements, in two parts
split_at :
    (n : ℕ) (w : List ℕ)
    → n ≤ length w
    → (a : List ℕ) × (b : List ℕ) × (w ≡ a ++ b) × (length a ≡ n)
split_at zero w h = ([], w, refl, refl)
split_at (suc n) [] h = absurd (omega (arith, h))
split_at (suc n) (x ∷ w) h =
    let (a, b, e, k) = split_at n w (omega arith) in (x ∷ a, b, ap (λ q. x ∷ q) e, ap suc k)

parts-schedule :
    (a b buf : List ℕ) (i : ℕ)
    → length a ≡ 16
    → length b ≡ 48
    → extend 48 16 (load_block 16 0 buf i (a ++ b)) ≡ schedule buf i
parts-schedule a b buf i first rest =
    ap (extend 48 16) (
      subst (λ n. load_block n 0 buf i (a ++ b) ≡ block_words n 0 buf i ++ b) first
        (load_block-words a b [] buf i))
    ∙ subst (λ n. extend n 16 (block_words 16 0 buf i ++ b) ≡ grow n (block_words 16 0 buf i)) rest
        (subst
          (λ j.
            extend (length b) j (block_words 16 0 buf i ++ b)
            ≡ grow (length b) (block_words 16 0 buf i))
          (length-block_words 16 0 buf i)
          (extend-grow b (block_words 16 0 buf i)
            (rw (length-block_words 16 0 buf i) (omega arith))))

-- After the first two loops the array holds the schedule of the block, whatever the block before has left.
array-schedule :
    (w buf : List ℕ) (i : ℕ)
    → length w ≡ 64
    → extend 48 16 (load_block 16 0 buf i w) ≡ schedule buf i
array-schedule w buf i h =
    let (a, b, e, first) = split_at 16 w (omega arith) in
    let rest : length b ≡ 48 = omega (arith, ap length e, length-append a b) in
    ap (λ q. extend 48 16 (load_block 16 0 buf i q)) e ∙ parts-schedule a b buf i first rest

length-schedule : (buf : List ℕ) (i : ℕ) → length (schedule buf i) ≡ 64
length-schedule buf i =
    length-grow 48 (block_words 16 0 buf i) ∙ ap (λ k. 48 + k) (length-block_words 16 0 buf i)

block-rounds :
    (w buf : List ℕ) (i : ℕ) (s : Registers)
    → length w ≡ 64
    → compress 64 0 w s ≡ rounds k_table w s
block-rounds w buf i s h =
    subst (λ n. compress n 0 w s ≡ rounds k_table w s) h
      (compress-rounds k_table w [] [] s refl refl (sym h))

hash_blocks-hash_from :
    (n fuel i size : ℕ) (buf w : List ℕ) (s : Registers)
    → size ≡ i + n * 64
    → n ≤ fuel
    → length w ≡ 64
    → hash_blocks fuel i size buf w s ≡ hash_from n i buf s
unfolding hash_blocks
hash_blocks-hash_from zero fuel i size buf w s end enough room =
    no_block fuel i size buf w s (omega arith)
hash_blocks-hash_from (suc n) zero i size buf w s end enough room = absurd (omega (arith, enough))
hash_blocks-hash_from (suc n) (suc fuel) i size buf w s end enough room =
    let more : ltb i size ≡ true = ground arith in
    let ready = array-schedule w buf i room in
    let full = length-schedule buf i in
    let go : List ℕ → Registers → Registers =
      λ q r. hash_blocks fuel (i + 64) size buf q (add_registers s r) in
    rw more (
      ap (λ q. go q (compress 64 0 q s)) ready
      ∙ ap (go (schedule buf i)) (block-rounds (schedule buf i) buf i s full)
      ∙ hash_blocks-hash_from n fuel (i + 64) size buf (schedule buf i) _ (omega arith)
          (omega arith) full)

sha256_pure-list_sha256 :
    (bytes : List ℕ) → length bytes < 2 ^ 29 → sha256_pure bytes ≡ list_sha256 bytes
unfolding sha256_pure
sha256_pure-list_sha256 bytes h =
    let (z, small, fits, e) = padded-message_block bytes h in
    let size = pad_len-rounded (length bytes) h in
    let least : z ≡ fill (length bytes) = omega arith in
    let count : pad_len (length bytes) ≡ (length bytes + 9 + fill (length bytes)) / 64 * 64 =
      omega arith in
    ap digest_bytes (
      hash_blocks-hash_from ((length bytes + 9 + fill (length bytes)) / 64) (pad_len (length bytes))
        0 (pad_len (length bytes)) (padded bytes) (zeros 64) initial_hash (omega arith)
        (omega arith) refl
      ∙ ap (λ m. hash_from ((length bytes + 9 + fill (length bytes)) / 64) 0 m initial_hash)
          (e ∙ ap (λ k. message_block bytes k (word_bytes (length bytes * 8))) least))

-- The digest of a message of less than 2 ^ 29 bytes is the one that FIPS 180-4 describes: with the standard's
-- constants and functions, padded as there, cut in blocks of 64 bytes, with a schedule of each block's own.
pub sha256_pure-standard_sha256 :
    (bytes : List ℕ) → length bytes < 2 ^ 29 → sha256_pure bytes ≡ standard_sha256 bytes
sha256_pure-standard_sha256 bytes h =
    sha256_pure-list_sha256 bytes h ∙ list_sha256-standard_sha256 bytes h
