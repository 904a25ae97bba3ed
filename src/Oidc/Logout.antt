-- ===== src/Oidc/Logout.antt =====
-- `logout` of web/src/lib/oidc.ts: the session is gone however it ends.
use lab_keeper.Common.{
  List, Option, Text, [], false, if◌then◌else◌, non_empty, none, or_else, refl, some, strip_slash,
  text, ◌++◌, ◌∙◌, ◌∷◌, ◌≡◌,
}
use lab_keeper.Config
use lab_keeper.Oidc.Types.{OidcDiscovery, TokenSet, SessionData, type_error}
use lab_keeper.Oidc.World.{World, absent}
use lab_keeper.Oidc.Session.{discover, load_session, read_session, clear_session, is_authenticated}
use lab_keeper.Oidc.Login.{logout, logout_base, id_token_hint}
use lab_keeper.Oidc.Rules.{
  After, Triple, Keeps-Triple, Triple-weaken, Triple-both, Triple-pre, Triple-bind, Triple-gets,
  Triple-need, Triple-modify,
}
use lab_keeper.Oidc.Frames.{discover-frame}
use lab_keeper.Oidc.Redirect.{at_location, discover-Cached}
use lab_keeper.Oidc.Refresh.{session_frame}

abbrev pub IsSignedOut : World → Type 0
IsSignedOut w = (w.session ≡ absent) × (is_authenticated w ≡ false)

-- The provider's logout address, or the usual one below the issuer.
abbrev pub end_session_address : World → Option Text → Text
end_session_address w (some endpoint) = endpoint
end_session_address w none = strip_slash (Config.issuer w.env) ++ text "/oauth2/logout"

abbrev pub id_token_of : Option TokenSet → Option Text
id_token_of none = none
id_token_of (some tokens) = tokens.id_token

-- The pair of the ID token, if there is one that is not empty.
abbrev pub hint_pair : Option Text → List (Text × Text)
hint_pair none = []
hint_pair (some []) = []
hint_pair (some (c ∷ id_token)) = (text "id_token_hint", c ∷ id_token) ∷ []

-- The browser is on its way to the logout address in the document that the portal has in its cache, with
-- the token that the session had.
abbrev pub IsLeaving : Option TokenSet → World → Type 0
IsLeaving tokens w =
    (doc : OidcDiscovery) × (w.discovery_cache ≡ some doc)
    × (w.location
        ≡ at_location (end_session_address w doc.end_session_endpoint) (
            (text "post_logout_redirect_uri", Config.post_logout_redirect_uri w.env)
            ∷ hint_pair (id_token_of tokens)))

logout_base-end_session_address :
    (w : World) (doc : OidcDiscovery)
    → logout_base w doc ≡ end_session_address w doc.end_session_endpoint
logout_base-end_session_address w doc = by_endpoint doc.end_session_endpoint
  where
    by_endpoint :
        (o : Option Text)
        → or_else o (strip_slash (Config.issuer w.env) ++ text "/oauth2/logout")
          ≡ end_session_address w o
    by_endpoint none = refl
    by_endpoint (some endpoint) = refl

id_token_hint-hint_pair :
    (tokens : Option TokenSet) → id_token_hint tokens ≡ hint_pair (id_token_of tokens)
id_token_hint-hint_pair none = refl
id_token_hint-hint_pair (some tokens) = by_token tokens.id_token
  where
    by_token :
        (o : Option Text)
        → (elim o [
          | none ↦ []
          | some id_token ↦ if non_empty id_token then (text "id_token_hint", id_token) ∷ [] else []
        ])
          ≡ hint_pair o
    by_token none = refl
    by_token (some []) = refl
    by_token (some (c ∷ t)) = refl

absent-IsSignedOut : (w : World) → w.session ≡ absent → IsSignedOut w
unfolding is_authenticated load_session read_session
absent-IsSignedOut w h = (h, rw h refl)

abbrev Cleared : World → Type 0
Cleared w = w.session ≡ absent

-- The session is gone; what was read of it is remembered.
abbrev Left : SessionData → SessionData → World → Type 0
Left session s w = Cleared w × (s ≡ session)

leaving :
    (w : World) (doc : OidcDiscovery) (session s : SessionData) (base after : Text)
    → s ≡ session
    → base ≡ logout_base w doc
    → after ≡ Config.post_logout_redirect_uri w.env
    → at_location base ((text "post_logout_redirect_uri", after) ∷ id_token_hint s.tokens)
      ≡ at_location (end_session_address w doc.end_session_endpoint) (
          (text "post_logout_redirect_uri", Config.post_logout_redirect_uri w.env)
          ∷ hint_pair (id_token_of session.tokens))
leaving w doc session s base after same at_base at_after = cc (
  same,
  at_base,
  at_after,
  logout_base-end_session_address w doc,
  id_token_hint-hint_pair s.tokens,
)

discover-Left :
    (session s : SessionData)
    → Triple
        (Left session s)
        discover
        (λ found w. Left session s w × (w.discovery_cache ≡ found))
        (λ _. IsSignedOut)
discover-Left session s =
    Triple-weaken
      (Triple-both
        (Keeps-Triple (Left session s) (Left session s) (discover-frame session_frame)
          λ v w same h. (same ∙ h.0, h.1))
        (Triple-pre (λ w h. tt) discover-Cached))
      (λ a w h. h) (λ e w h. absent-IsSignedOut w h.0.0)

logout-Triple :
    (session : SessionData)
    → Triple
        (λ w. load_session w ≡ session)
        logout
        (λ _ w. IsSignedOut w × IsLeaving session.tokens w)
        (λ _. IsSignedOut)
unfolding logout clear_session
logout-Triple session =
    Triple-bind (λ s w. s ≡ session) (Triple-gets _ λ w h. h)
      λ s.
        Triple-bind (λ _. Left session s) (Triple-modify _ λ w h. (refl, h))
          λ _.
            Triple-bind (λ found w. Left session s w × (w.discovery_cache ≡ found))
              (discover-Left session s)
              λ found.
                Triple-bind (λ doc w. Left session s w × (w.discovery_cache ≡ some doc))
                  (Triple-need found type_error (λ doc w e h. (h.0, h.1 ∙ e))
                    (λ w h. absent-IsSignedOut w h.0.0))
                  λ doc.
                    Triple-bind
                      (λ base w.
                        Left session s w
                        × (w.discovery_cache ≡ some doc)
                        × (base ≡ logout_base w doc))
                      (Triple-gets _ λ w h. (h.0, h.1, refl))
                      λ base.
                        Triple-bind
                          (λ after w.
                            Left session s w
                            × (w.discovery_cache ≡ some doc)
                            × (base ≡ logout_base w doc)
                            × (after ≡ Config.post_logout_redirect_uri w.env))
                          (Triple-gets _ λ w h. (h.0, h.1, h.2, refl))
                          λ after. Triple-modify _ λ w h. (
                            absent-IsSignedOut _ h.0.0,
                            (doc, h.1, leaving w doc session s base after h.0.1 h.2 h.3),
                          )

-- However the network answers, nobody is signed in after a logout. If it returns, the browser is on
-- its way to the provider's logout address, with the configured address to come back to and the ID
-- token of the session that has ended, if it had one that is not empty.
pub logout-IsSignedOut :
    (w : World)
    → After
        (logout w)
        (λ _ w'. IsSignedOut w' × IsLeaving (load_session w).tokens w')
        (λ _. IsSignedOut)
logout-IsSignedOut w = (logout-Triple (load_session w)).apply w refl
