-- ===== src/Api/Segments.antt =====
-- `encodeURIComponent` as web/src/lib/api.ts uses it: what stands in an address for an id.
use lab_keeper.Common.{
  All, All-append, Bool-cases, IsByte, IsUnit, List, Text, [], ap, arith, false, if◌then◌else◌, inl,
  inr, ltb, refl, text, true, utf8, utf8-IsByte, ℕ, ◌%◌, ◌*◌, ◌++◌, ◌+◌, ◌-◌, ◌/◌, ◌<◌, ◌==◌, ◌||◌,
  ◌∙◌, ◌∷◌, ◌≡◌,
}
use lab_keeper.Oidc.Types.{uri_error}
use lab_keeper.Oidc.World.{effects, World}
use lab_keeper.Oidc.Rules.{After}
use lab_keeper.Api.Uri.{
  terminal_websocket_url, websocket_base, api_base, is_unreserved, hex_digit, escape_byte,
  escape_bytes, is_well_formed, encode_uri_component,
}

-- A character that is no delimiter of an address: an unreserved one or a percent sign.
abbrev pub IsPlain : ℕ → Type 0
IsPlain c = (is_unreserved c || (c == b'%')) ≡ true

abbrev pub hex_value : ℕ → ℕ
hex_value c = if ltb c b'A' then c - b'0' else c - b'A' + 10

-- The bytes that a receiver reads.
unfoldable pub decode_percent : Text → List ℕ
decode_percent [] = []
decode_percent (c ∷ []) = c ∷ []
decode_percent (c ∷ a ∷ []) = c ∷ a ∷ []
decode_percent (c ∷ a ∷ b ∷ s) =
    let escaped = (hex_value a * 16 + hex_value b) ∷ decode_percent s in
    let plain = c ∷ decode_percent (a ∷ b ∷ s) in if c == b'%' then escaped else plain

decode_percent-plain :
    (c : ℕ) (s : Text) → (c == b'%') ≡ false → decode_percent (c ∷ s) ≡ c ∷ decode_percent s
unfolding decode_percent
decode_percent-plain c [] h = refl
decode_percent-plain c (a ∷ []) h = refl
decode_percent-plain c (a ∷ b ∷ s) h = rw h refl

hex_value-hex_digit : (n : ℕ) → n < 16 → hex_value (hex_digit n) ≡ n
hex_value-hex_digit n h = ground arith

hex_digit-IsPlain : (n : ℕ) → n < 16 → IsPlain (hex_digit n)
unfolding is_unreserved
hex_digit-IsPlain n h = ground arith

unreserved_byte : (b : ℕ) → is_unreserved b ≡ true → (b == b'%') ≡ false
unfolding is_unreserved
unreserved_byte b h = ground arith

decode_percent-escape_byte :
    (b : ℕ) (s : Text) → IsByte b → decode_percent (escape_byte b ++ s) ≡ b ∷ decode_percent s
unfolding escape_byte decode_percent
decode_percent-escape_byte b s h = elim (Bool-cases (is_unreserved b)) [
  | inl kept ↦ rw kept (decode_percent-plain b s (unreserved_byte b kept))
  | inr other ↦ rw other (
      ap (λ c. c ∷ decode_percent s)
        (ap (λ n. n * 16 + hex_value (hex_digit (b % 16)))
            (hex_value-hex_digit (b / 16) (omega arith))
          ∙ ap (λ n. b / 16 * 16 + n) (hex_value-hex_digit (b % 16) (omega arith))
          ∙ omega arith))
]

escape_byte-IsPlain : (b : ℕ) → IsByte b → All IsPlain (escape_byte b)
unfolding escape_byte All
escape_byte-IsPlain b h = elim (Bool-cases (is_unreserved b)) [
  | inl kept ↦ rw kept (ground arith, tt)
  | inr other ↦ rw other (
    refl,
    (hex_digit-IsPlain (b / 16) (omega arith), (hex_digit-IsPlain (b % 16) (omega arith), tt)),
  )
]

escape_bytes-decodes :
    (bs : List ℕ)
    → All IsByte bs
    → (decode_percent (escape_bytes bs) ≡ bs) × All IsPlain (escape_bytes bs)
unfolding escape_bytes decode_percent All
escape_bytes-decodes [] h = (refl, tt)
escape_bytes-decodes (b ∷ bs) (h, k) =
    let (same, plain) = escape_bytes-decodes bs k in
    (
      decode_percent-escape_byte b (escape_bytes bs) h ∙ ap (λ r. b ∷ r) same,
      All-append IsPlain (escape_byte b) (escape_bytes bs) (escape_byte-IsPlain b h) plain,
    )

-- The text stands for the bytes of `s`, and no character of it ends a segment of an address.
abbrev pub Encodes : Text → Text → Type 0
Encodes s t = (decode_percent t ≡ utf8 s) × All IsPlain t

-- The address has the ticket as one value of its query, escaped.
abbrev pub Carries : Text → World → Text → World → Type 0
Carries ticket w url w' =
    (t : Text) × (url ≡ websocket_base (api_base w) ++ text "/api/terminal/ws?ticket=" ++ t)
    × Encodes ticket t
    × (w' ≡ w)

-- The address of the terminal's socket ends in the ticket, escaped: in letters, digits, percent signs and
-- - _ . ! ~ * ' ( ) alone, so that no delimiter in the ticket takes effect, and so that it decodes to the
-- UTF-8 encoding of the ticket. A ticket with a lone surrogate throws, and no other does.
pub terminal_websocket_url-Carries :
    (ticket : Text) (w : World)
    → All IsUnit ticket
    → After
        (terminal_websocket_url ticket w)
        (λ url w'. Carries ticket w url w' × (is_well_formed ticket ≡ true))
        (λ e w'. (e ≡ uri_error) × (is_well_formed ticket ≡ false) × (w' ≡ w))
unfolding terminal_websocket_url encode_uri_component effects
terminal_websocket_url-Carries ticket w h = elim (Bool-cases (is_well_formed ticket)) [
  | inl fine ↦ rw fine (
    (
      escape_bytes (utf8 ticket),
      refl,
      escape_bytes-decodes (utf8 ticket) (utf8-IsByte ticket h),
      refl,
    ),
    refl,
  )
  | inr lone ↦ rw lone (refl, refl, refl)
]
