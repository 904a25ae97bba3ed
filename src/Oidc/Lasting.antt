-- ===== src/Oidc/Lasting.antt =====
-- How long a token of web/src/lib/oidc.ts lasts by the client's clock, where `isAccessTokenFresh` says that it
-- is fresh.
use lab_keeper.Common.{
  Bool, List, Option, Text, [], ap, arith, bind_option, false, inl, inr, ltb, none, or_else, refl,
  some, split, subst, suc, sym, text, true, truthy, zero, ℕ, ◌&&◌, ◌*◌, ◌+◌, ◌<◌, ◌∙◌, ◌∷◌, ◌≡◌,
  ◌⊎◌,
}
use lab_keeper.Oidc.Types.{TokenSet}
use lab_keeper.Oidc.World.{World}
use lab_keeper.Json.{Json, property, as_number}
use lab_keeper.Base64.{decode_segment}
use lab_keeper.Oidc.Session.{
  read_jwt_exp_ms, positive, second_part, payload_exp, before_expiry, tokens_fresh,
  access_token_expires_at,
}

-- The number `exp` in the token's second part, after RFC 7519.
abbrev pub HasExp : (Text → Option Json) → Text → ℕ → Type 0
HasExp parse_json t seconds =
    (header : Text) × (payload : Text) × (rest : List Text) × (bytes : Text) × (j : Json) × (split
        b'.' t
      ≡ header ∷ payload ∷ rest)
    × (decode_segment payload ≡ some bytes)
    × (parse_json bytes ≡ some j)
    × (as_number (property (text "exp") j) ≡ some seconds)

-- More than a minute is left until the stamped end. If none is stamped, that holds of the token's `exp`, if
-- it has one.
abbrev pub LastsMinute : TokenSet → Text → World → Type 0
LastsMinute tokens t w =
    ((at : ℕ) × (0 < at) × (tokens.expires_at ≡ some at) × (w.now + 60000 < at))
    ⊎ (((at : ℕ) → tokens.expires_at ≡ some at → at ≡ 0)
        × ((seconds : ℕ) → HasExp w.parse_json t seconds → w.now + 60000 < seconds * 1000))

exp_ms-HasExp :
    (parse_json : Text → Option Json) (t : Text) (seconds : ℕ)
    → HasExp parse_json t seconds
    → read_jwt_exp_ms parse_json t ≡ some (seconds * 1000)
unfolding read_jwt_exp_ms
exp_ms-HasExp parse_json t seconds (header, payload, rest, bytes, j, parts, decoded, parsed, has) =
    ap
      (λ ps.
        bind_option (second_part ps)
          (λ part. bind_option (decode_segment part) (λ p. payload_exp (parse_json p))))
      parts
    ∙ ap (λ o. bind_option o (λ p. payload_exp (parse_json p))) decoded
    ∙ ap payload_exp parsed
    ∙ ap (λ o. elim o [ none ↦ none | some n ↦ some (n * 1000) ]) has

before-LastsMinute :
    (tokens : TokenSet) (t : Text) (w : World) (o : Option ℕ)
    → tokens.expires_at ≡ o
    → before_expiry w.now 60000
        (elim (positive o) [ none ↦ read_jwt_exp_ms w.parse_json t | some at ↦ some at ])
      ≡ true
    → LastsMinute tokens t w
unfolding positive
before-LastsMinute tokens t w none e h = inr (
  (λ at same. cc),
  λ seconds has.
      let late : ltb (w.now + 60000) (seconds * 1000) ≡ true =
        ap (before_expiry w.now 60000) (sym (exp_ms-HasExp w.parse_json t seconds has)) ∙ h in
      ground arith,
)
before-LastsMinute tokens t w (some zero) e h = inr (
  (λ at same. cc),
  λ seconds has.
      let late : ltb (w.now + 60000) (seconds * 1000) ≡ true =
        ap (before_expiry w.now 60000) (sym (exp_ms-HasExp w.parse_json t seconds has)) ∙ h in
      ground arith,
)
before-LastsMinute tokens t w (some (suc n)) e h = inl (suc n, omega arith, e, ground arith)

and_second : (a b : Bool) → (a && b) ≡ true → b ≡ true
and_second true b h = h
and_second false b h = cc

pub fresh-LastsMinute :
    (tokens : TokenSet) (t : Text) (w : World)
    → tokens.access_token ≡ some t
    → tokens_fresh w 60000 (some tokens) ≡ true
    → LastsMinute tokens t w
unfolding access_token_expires_at
fresh-LastsMinute tokens t w access h = before-LastsMinute tokens t w tokens.expires_at refl (
    subst
      (λ o.
        before_expiry w.now 60000 (elim (positive tokens.expires_at) [
          | none ↦ read_jwt_exp_ms w.parse_json (or_else o [])
          | some at ↦ some at
        ])
        ≡ true)
      access (and_second (truthy tokens.access_token) _ h))
