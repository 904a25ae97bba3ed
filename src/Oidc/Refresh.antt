-- ===== src/Oidc/Refresh.antt =====
-- The refresh of web/src/lib/oidc.ts: what a refresh leaves in the session, and which token
-- `ensureAccessToken` hands out.
pub mod Ensure
use lab_keeper.Common.{
  Bool-cases, Option, Text, [], ap, arith, inl, inr, none, refl, some, spread, subst, sym, true,
  truthy, ℕ, ◌*◌, ◌+◌, ◌<◌, ◌∙◌, ◌∷◌, ◌≡◌,
}
use lab_keeper.Json.{Json}
use lab_keeper.Json
use lab_keeper.Config
use lab_keeper.Oidc.Types.{
  OidcDiscovery, PendingAuth, SessionData, TokenSet, Failure, session_expired, error, syntax_error,
  network_error, type_error, uri_error, no_session, as_token_set, shown,
}
use lab_keeper.Oidc.World.{
  World, Slot, absent, garbled, holds, Request, Response, Reply, Location, Result, ok, throws,
  Action, ◌>>=◌, ◌>>◌, pure, throw, gets, need, modify, fetch, response_json, is_ok,
}
use lab_keeper.Oidc.Session.{
  discover, read_session, load_session, save_session, clear_session, lifetime, stamp_expiry,
  stamp_json, read_tokens, or_refresh, merge_tokens, form_post, refused_refresh,
  exchange_refresh_token, no_refresh_token, refresh_with, refresh_session, do_refresh_access_token,
  renew, ensure_stored, ensure_with, ensure_session, ensure_access_token, is_access_token_fresh,
  is_authenticated, signed_in, expiry_skew_ms, not_signed_in,
}
use lab_keeper.Oidc.Rules.{
  After, Triple, Keeps, Any, Anywhere, Triple-bind, Triple-pre, Triple-both, Triple-weaken,
  Triple-pure, Triple-throw, Triple-gets, Triple-need, Keeps-Triple, Triple-modify,
}
use lab_keeper.Oidc.Frames.{Frame, discover-frame, fetch-frame, response_json-frame}
use lab_keeper.Oidc.Redirect.{Plain, discover-Plain, fetch-Plain, response_json-Plain}

abbrev pub SameSession : World → World → Type 0
SameSession w w' = w'.session ≡ w.session

pub session_frame : Frame SameSession
session_frame = record {
  same = λ w. refl;
  trans = λ u v w p q. q ∙ p;
  sends = λ q w h. refl;
  receives = λ later t w. refl;
  caches = λ doc w. refl;
  draws = λ n w. refl;
  pends = λ p w. refl;
  goes = λ l w. refl;
}

-- The expiry of the tokens was stamped at the present time.
abbrev pub IsStamped : TokenSet → World → Type 0
IsStamped tokens w =
    (seconds : ℕ) × (0 < seconds)
    × (tokens.expires_in ≡ some seconds)
    × (tokens.expires_at ≡ some (w.now + seconds * 1000))

-- The session that `session` with the tokens `old` has become.
pub record IsRenewed (session : SessionData) (old tokens : TokenSet) (w : World) : Type 0 where
  pub stored : w.session ≡ holds (record session { tokens = some tokens })
  pub stamped : IsStamped tokens w
  pub refreshable : truthy tokens.refresh_token ≡ true
  pub received : Option Text
  pub kept_access : tokens.access_token ≡ spread old.access_token received

-- A session that is refused is removed; after any other failure it is as it was.
abbrev pub Lost : Slot SessionData → Failure → World → Type 0
Lost before (session_expired m) w = w.session ≡ absent
Lost before _ w = w.session ≡ before

module _ (before : Slot SessionData) where
  abbrev pub Unchanged : World → Type 0
  Unchanged w = w.session ≡ before

  Plain-Lost : (e : Failure) (w : World) → Unchanged w × Plain e w → Lost before e w
  Plain-Lost (session_expired m) w h = absurd h.1
  Plain-Lost (error m) w h = h.0
  Plain-Lost syntax_error w h = h.0
  Plain-Lost network_error w h = h.0
  Plain-Lost type_error w h = h.0
  Plain-Lost uri_error w h = h.0

  -- A step that keeps the session and throws nothing of an expired one.
  unchanged :
      {A : Type 0} {m : Action A}
      → Keeps SameSession m
      → Triple Anywhere m Any Plain
      → Triple Unchanged m (λ _. Unchanged) (Lost before)
  unchanged keeps plain =
      Triple-weaken
        (Triple-both (Keeps-Triple Unchanged Unchanged keeps λ v w same h. same ∙ h)
          (Triple-pre (λ w h. tt) plain))
        (λ a w h. h.0) Plain-Lost

  abbrev IsFresh : TokenSet → World → Type 0
  IsFresh next w = Unchanged w × IsStamped next w

  lifetime_pos : (n : Option ℕ) → 0 < lifetime n
  lifetime_pos none = omega arith
  lifetime_pos (some n) = ground arith

  stamp_expiry-IsStamped : (tokens : TokenSet) (w : World) → IsStamped (stamp_expiry w.now tokens) w
  unfolding stamp_expiry
  stamp_expiry-IsStamped tokens w =
      (lifetime tokens.expires_in, lifetime_pos tokens.expires_in, refl, refl)

  stamp_json-IsFresh :
      (now : ℕ) (j : Json)
      → Triple (λ w. Unchanged w × (now ≡ w.now)) (stamp_json now j) IsFresh (Lost before)
  stamp_json-IsFresh now Json.null = Triple-throw type_error λ w h. h.0
  stamp_json-IsFresh now j =
      Triple-pure _ λ w h. (h.0, rw h.1 (stamp_expiry-IsStamped (as_token_set j) w))

  read_tokens-IsFresh : (r : Response) → Triple Unchanged (read_tokens r) IsFresh (Lost before)
  unfolding read_tokens
  read_tokens-IsFresh r =
      Triple-bind (λ j. Unchanged)
        (unchanged (response_json-frame session_frame r) (response_json-Plain r))
        λ j.
          Triple-bind (λ now w. Unchanged w × (now ≡ w.now)) (Triple-gets _ λ w h. (h, refl))
            λ now. stamp_json-IsFresh now j

  pub cleared :
      {A : Type 0} {Pre : World → Type 0} (P : A → World → Type 0) (m : Text)
      → Triple Pre (clear_session >>= λ _. throw {A = A} (session_expired m)) P (Lost before)
  unfolding clear_session
  cleared P m =
      Triple-bind (λ _ w. w.session ≡ absent) (Triple-modify _ λ w h. refl)
        λ _. Triple-throw (session_expired m) λ w h. h

  refused_refresh-Lost :
      (r : Response) → Triple Unchanged (refused_refresh r) (λ _. Unchanged) (Lost before)
  refused_refresh-Lost r = elim (Bool-cases (is_ok r)) [
    | inl accepted ↦ rw accepted (Triple-pure tt λ w h. h)
    | inr refused ↦ rw refused (cleared (λ _. Unchanged) _)
  ]

truthy-or_refresh :
    (next old : Option Text) → truthy old ≡ true → truthy (or_refresh next old) ≡ true
truthy-or_refresh none old h = h
truthy-or_refresh (some []) old h = h
truthy-or_refresh (some (c ∷ t)) old h = refl

-- Whatever the session is when the requests are made, the one that was read before is stored.
pub exchange-IsRenewed :
    (before : Slot SessionData) (session : SessionData) (old : TokenSet) (t : Text)
    → truthy old.refresh_token ≡ true
    → Triple
        (Unchanged before)
        (exchange_refresh_token session old t)
        (IsRenewed session old)
        (Lost before)
unfolding exchange_refresh_token save_session merge_tokens
exchange-IsRenewed before session old t kept =
    Triple-bind (λ _. Unchanged before)
      (unchanged before (discover-frame session_frame) discover-Plain)
      λ found.
        Triple-bind (λ _. Unchanged before) (Triple-gets _ λ w h. h)
          λ client.
            Triple-bind (λ _. Unchanged before)
              (Triple-need found type_error (λ a w e h. h) λ w h. h)
              λ doc.
                Triple-bind (λ _. Unchanged before)
                  (unchanged before (fetch-frame session_frame _ refl) (fetch-Plain _))
                  λ res.
                    Triple-bind (λ _. Unchanged before) (refused_refresh-Lost before res)
                      λ _. Triple-bind (IsFresh before) (read_tokens-IsFresh before res) λ next.
                        Triple-bind
                          (λ _ w.
                            (w.session
                              ≡ holds (record session { tokens = some (merge_tokens old next) }))
                            × IsStamped next w)
                          (Triple-modify _ λ w h. (refl, h.1))
                          λ _. Triple-pure _ λ w h. record {
                            stored = h.0;
                            stamped = (
                              h.1.0,
                              h.1.1,
                              ap (spread old.expires_in) h.1.2,
                              ap (spread old.expires_at) h.1.3,
                            );
                            refreshable =
                                truthy-or_refresh next.refresh_token old.refresh_token kept;
                            received = next.access_token;
                            kept_access = refl;
                          }

pub refresh_with-IsRenewed :
    (before : Slot SessionData) (session : SessionData) (old : TokenSet) (t : Option Text)
    → truthy old.refresh_token ≡ true
    → truthy t ≡ true
    → Triple (Unchanged before) (refresh_with session old t) (IsRenewed session old) (Lost before)
refresh_with-IsRenewed before session old none kept h = cc
refresh_with-IsRenewed before session old (some []) kept h = cc
refresh_with-IsRenewed before session old (some (c ∷ t)) kept h =
    exchange-IsRenewed before session old (c ∷ t) kept

pub do_refresh_access_token_kept :
    (session : SessionData) (old : TokenSet) (w : World)
    → w.session ≡ holds session
    → session.tokens ≡ some old
    → truthy old.refresh_token ≡ true
    → After (do_refresh_access_token w) (IsRenewed session old) (Lost (holds session))
unfolding do_refresh_access_token load_session
do_refresh_access_token_kept session old w stored has kept =
    subst
      (λ slot.
        After (refresh_session (read_session slot) (read_session slot).tokens w)
          (IsRenewed session old) (Lost (holds session)))
      (sym stored)
      (subst
        (λ o. After (refresh_session session o w) (IsRenewed session old) (Lost (holds session)))
        (sym has)
        ((refresh_with-IsRenewed (holds session) session old old.refresh_token kept kept).apply w
          stored))
