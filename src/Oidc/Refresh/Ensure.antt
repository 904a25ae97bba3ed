-- ===== src/Oidc/Refresh/Ensure.antt =====
-- `ensureAccessToken` of web/src/lib/oidc.ts: which token it hands out, and what its failures mean.
use lab_keeper.Common.{
  Bool, Bool-cases, Option, Text, [], ap, false, if◌then◌else◌, inl, inr, none, refl, some, spread,
  subst, sym, true, truthy, ◌∙◌, ◌∷◌, ◌≡◌, ◌⊎◌,
}
use lab_keeper.Oidc.Types.{
  SessionData, TokenSet, Failure, session_expired, error, syntax_error, network_error, type_error,
  uri_error, shown,
}
use lab_keeper.Oidc.World.{World, Slot, absent, garbled, holds, ◌>>=◌, pure, throw}
use lab_keeper.Oidc.Session.{
  tokens_fresh, read_session, load_session, refresh_access_token, renew, ensure_stored, ensure_with,
  ensure_session, ensure_access_token, is_access_token_fresh, is_authenticated, signed_in,
  expiry_skew_ms,
}
use lab_keeper.Oidc.Rules.{
  After, Triple, Triple-bind, Triple-pre, Triple-weaken, Triple-pure, Triple-gets,
}
use lab_keeper.Oidc.Refresh.{IsStamped, IsRenewed, Lost, cleared, do_refresh_access_token_kept}
use lab_keeper.Oidc.Lasting.{LastsMinute, fresh-LastsMinute}

-- The token is that of the stored session: it lasts for more than a minute, or its end was stamped just
-- now.
abbrev pub IsUsable : Text → World → Type 0
IsUsable t w =
    (tokens : TokenSet) × ((load_session w).tokens ≡ some tokens)
    × (tokens.access_token ≡ some t)
    × (LastsMinute tokens t w ⊎ IsStamped tokens w)

-- After an expired session nobody is signed in; any other failure leaves the session as it was.
abbrev pub IsOut : Slot SessionData → Failure → World → Type 0
IsOut before (session_expired m) w = is_authenticated w ≡ false
IsOut before _ w = w.session ≡ before

signed_out : (w : World) → (load_session w).tokens ≡ none → is_authenticated w ≡ false
unfolding is_authenticated
signed_out w h = ap (signed_in (is_access_token_fresh expiry_skew_ms w)) h

signed_out_absent : (w : World) → w.session ≡ absent → is_authenticated w ≡ false
unfolding load_session
signed_out_absent w h = signed_out w (ap (λ slot. (read_session slot).tokens) h)

signed_out_empty :
    (w : World) (tokens : TokenSet)
    → (load_session w).tokens ≡ some tokens
    → truthy tokens.access_token ≡ false
    → is_authenticated w ≡ false
unfolding is_authenticated
signed_out_empty w tokens h e =
    ap (signed_in (is_access_token_fresh expiry_skew_ms w)) h ∙ rw e refl

Lost-IsOut :
    (before : Slot SessionData) (e : Failure) (w : World) → Lost before e w → IsOut before e w
Lost-IsOut before (session_expired m) w h = signed_out_absent w h
Lost-IsOut before (error m) w h = h
Lost-IsOut before syntax_error w h = h
Lost-IsOut before network_error w h = h
Lost-IsOut before type_error w h = h
Lost-IsOut before uri_error w h = h

-- A session with tokens is one that the slot holds.
holds_of :
    (slot : Slot SessionData) (tokens : TokenSet)
    → (read_session slot).tokens ≡ some tokens
    → (session : SessionData) × (slot ≡ holds session) × (session.tokens ≡ some tokens)
unfolding read_session
holds_of absent tokens h = cc
holds_of (garbled raw) tokens h = cc
holds_of (holds session) tokens h = (session, refl, h)

spread-shown :
    (old received : Option Text) {t : Text}
    → old ≡ some t
    → spread old received ≡ some (shown (spread old received))
spread-shown none received h = cc
spread-shown (some s) none h = refl
spread-shown (some s) (some r) h = refl

module _ (session : SessionData) (tokens : TokenSet) (t : Text) (has : session.tokens ≡ some tokens)
    (access : tokens.access_token ≡ some t) where
  Here : World → Type 0
  Here w = w.session ≡ holds session

  refresh-IsUsable :
      truthy tokens.refresh_token ≡ true
      → Triple Here
          (refresh_access_token >>= λ next. pure (shown next.access_token))
          IsUsable
          (IsOut (holds session))
  unfolding load_session Here
  refresh-IsUsable kept =
      Triple-bind (λ next. IsRenewed session tokens next)
        (Triple-weaken
          (record { apply = λ w here. do_refresh_access_token_kept session tokens w here has kept })
          (λ a w h. h) (Lost-IsOut (holds session)))
        λ next. Triple-pure _ λ w h. (
          next,
          ap (λ slot. (read_session slot).tokens) h.stored,
          h.kept_access
              ∙ spread-shown tokens.access_token h.received access
              ∙ ap (λ o. some (shown o)) (sym h.kept_access),
          inr h.stamped,
        )

  renew-IsUsable : Triple Here (renew tokens.refresh_token) IsUsable (IsOut (holds session))
  unfolding renew
  renew-IsUsable = elim (Bool-cases (truthy tokens.refresh_token)) [
    | inl kept ↦ rw kept (refresh-IsUsable kept)
    | inr missing ↦ rw missing (
        Triple-weaken (cleared (holds session) IsUsable _) (λ a w h. h)
          (Lost-IsOut (holds session)))
  ]

  kept-IsUsable :
      Triple
        (λ w. Here w × (true ≡ is_access_token_fresh expiry_skew_ms w))
        (pure t)
        IsUsable
        (IsOut (holds session))
  unfolding load_session Here is_access_token_fresh
  kept-IsUsable = Triple-pure t λ w h.
      let stored : (load_session w).tokens ≡ some tokens =
        ap (λ slot. (read_session slot).tokens) h.0 ∙ has in
      (
        tokens,
        stored,
        access,
        inl (
            fresh-LastsMinute tokens t w access (ap (tokens_fresh w 60000) (sym stored) ∙ sym h.1)),
      )

  chosen :
      (fresh : Bool)
      → Triple
          (λ w. Here w × (fresh ≡ is_access_token_fresh expiry_skew_ms w))
          (if fresh then pure t else renew tokens.refresh_token)
          IsUsable
          (IsOut (holds session))
  chosen true = kept-IsUsable
  chosen false = Triple-pre (λ w h. h.0) renew-IsUsable

  ensure_stored-IsUsable : Triple Here (ensure_stored tokens t) IsUsable (IsOut (holds session))
  unfolding ensure_stored
  ensure_stored-IsUsable =
      Triple-bind (λ fresh w. Here w × (fresh ≡ is_access_token_fresh expiry_skew_ms w))
        (Triple-gets _ λ w h. (h, refl)) chosen

ensure_with-IsUsable :
    (tokens : TokenSet) (o : Option Text) (w : World)
    → (load_session w).tokens ≡ some tokens
    → tokens.access_token ≡ o
    → After (ensure_with tokens o w) IsUsable (IsOut w.session)
unfolding load_session throw Here
ensure_with-IsUsable tokens none w has e = signed_out_empty w tokens has (ap truthy e)
ensure_with-IsUsable tokens (some []) w has e = signed_out_empty w tokens has (ap truthy e)
ensure_with-IsUsable tokens (some (c ∷ t)) w has e =
    let (session, stored, same) = holds_of w.session tokens has in
    subst (λ slot. After (ensure_stored tokens (c ∷ t) w) IsUsable (IsOut slot)) (sym stored)
      ((ensure_stored-IsUsable session tokens (c ∷ t) same e).apply w stored)

ensure_session-IsUsable :
    (o : Option TokenSet) (w : World)
    → (load_session w).tokens ≡ o
    → After (ensure_session o w) IsUsable (IsOut w.session)
unfolding throw
ensure_session-IsUsable none w h = signed_out w h
ensure_session-IsUsable (some tokens) w h = ensure_with-IsUsable tokens tokens.access_token w h refl

-- A token that `ensureAccessToken` returns is the access token of the stored session. By the client's clock
-- more than a minute is then left until the stamped end of the tokens, or, if no end is stamped, until the
-- token's own `exp`, if it has one; or the end was stamped at the present time. If it throws that the session has expired, nobody is
-- signed in; if it throws anything else, the session is as it was before.
pub ensure_access_token-IsUsable :
    (w : World) → After (ensure_access_token w) IsUsable (IsOut w.session)
unfolding ensure_access_token
ensure_access_token-IsUsable w = ensure_session-IsUsable (load_session w).tokens w refl
