-- ===== src/Oidc/Completion/Fresh.antt =====
-- Access tokens of web/src/lib/oidc.ts that are good for more than the minute of the skew.
use lab_keeper.Common.{
  Option, Text, [], ap, arith, ltb, non_empty, none, or_else, refl, set, some, subst, sym, true,
  truthy, ℕ, ◌+◌, ◌<◌, ◌∙◌, ◌≡◌,
}
use lab_keeper.Json.{Json}
use lab_keeper.Oidc.Types.{TokenSet, UserInfo}
use lab_keeper.Oidc.World.{World, holds, ok}
use lab_keeper.Oidc.Session.{
  load_session, read_session, is_access_token_fresh, tokens_fresh, access_token_expires_at,
  positive, read_jwt_exp_ms, signed_in, expiry_skew_ms, ensure_access_token, ensure_stored,
  ensure_session, ensure_with,
}
use lab_keeper.Oidc.Runs.{Runs, Runs-bind, Runs-gets, Runs-pure}

positive-some : (at : ℕ) → 0 < at → positive (some at) ≡ some at
unfolding positive
positive-some at h = let above : ltb 0 at ≡ true = ground arith in rw above refl

expires-stamped :
    (parse : Text → Option Json) (set : TokenSet) (at : ℕ)
    → positive set.expires_at ≡ some at
    → access_token_expires_at parse set ≡ some at
unfolding access_token_expires_at
expires-stamped parse set at h =
    ap
      (λ o. elim o [ none ↦ read_jwt_exp_ms parse (or_else set.access_token []) | some n ↦ some n ])
      h

-- Tokens that end more than a minute from now are fresh.
pub tokens_fresh-stamped :
    (w : World) (set : TokenSet) (t : Text) (at : ℕ)
    → set.access_token ≡ some t
    → non_empty t ≡ true
    → set.expires_at ≡ some at
    → w.now + 60000 < at
    → tokens_fresh w expiry_skew_ms (some set) ≡ true
tokens_fresh-stamped w set t at has given stamped early =
    let ends =
      expires-stamped w.parse_json set at (ap positive stamped ∙ positive-some at (omega arith)) in
    let kept : truthy set.access_token ≡ true = ap truthy has ∙ given in
    let before : ltb (w.now + 60000) at ≡ true = ground arith in rw (kept, ends, before) refl

-- They make a session.
pub signed_in-stamped :
    (w : World) (set : TokenSet) (t : Text) (at : ℕ)
    → set.access_token ≡ some t
    → non_empty t ≡ true
    → set.expires_at ≡ some at
    → w.now + 60000 < at
    → signed_in (tokens_fresh w expiry_skew_ms (some set)) (some set) ≡ true
signed_in-stamped w set t at has given stamped early =
    let kept : truthy set.access_token ≡ true = ap truthy has ∙ given in
    ap (λ b. signed_in b (some set)) (tokens_fresh-stamped w set t at has given stamped early)
    ∙ rw kept refl

ensure_stored-Runs :
    (set : TokenSet) (t : Text) (w : World)
    → is_access_token_fresh expiry_skew_ms w ≡ true
    → Runs (ensure_stored set t) w t w
unfolding ensure_stored
ensure_stored-Runs set t w fresh = Runs-bind _ (Runs-gets _ w) (rw fresh (Runs-pure t w))

-- `ensureAccessToken` hands out such a token as it is.
pub ensure_access_token-Runs :
    (w : World) (set : TokenSet) (info : Option UserInfo) (t : Text) (at : ℕ)
    → w.session ≡ holds (record { tokens = some set; userinfo = info })
    → set.access_token ≡ some t
    → non_empty t ≡ true
    → set.expires_at ≡ some at
    → w.now + 60000 < at
    → Runs ensure_access_token w t w
unfolding ensure_access_token load_session read_session is_access_token_fresh
ensure_access_token-Runs w set info t at stored has given stamped early =
    let fresh : is_access_token_fresh expiry_skew_ms w ≡ true =
      ap (λ slot. tokens_fresh w expiry_skew_ms (read_session slot).tokens) stored
      ∙ tokens_fresh-stamped w set t at has given stamped early in
    record {
      ends =
          subst (λ slot. ensure_session (read_session slot).tokens w ≡ (ok t, w)) (sym stored)
            (subst (λ o. ensure_with set o w ≡ (ok t, w)) (sym has)
              (rw given (ensure_stored-Runs set t w fresh).ends));
    }
