-- ===== src/Oidc/Callback/Exchange.antt =====
-- What `exchangeCode` and `doHandleCallback` of web/src/lib/oidc.ts leave behind.
use lab_keeper.Common.{Option, Text, [], ap, inl, inr, none, refl, some, sym, text, ◌∙◌, ◌∷◌, ◌≡◌}
use lab_keeper.Oidc.Types.{OidcDiscovery, PendingAuth, SessionData, type_error}
use lab_keeper.Oidc.World.{World, post, form, absent, holds, Request}
use lab_keeper.Oidc.Session.{save_session}
use lab_keeper.Oidc.Login.{
  Search, exchange_request, fetch_userinfo, exchange_code, do_handle_callback,
}
use lab_keeper.Config
use lab_keeper.Config.{Env}
use lab_keeper.Oidc.Redirect.{discover-Cached}
use lab_keeper.Oidc.Frames.{Frame, discover-frame}
use lab_keeper.Oidc.Rules.{
  After, Triple, Triple-both, Triple-pre, Triple-bind, Triple-weaken, Triple-pure, Triple-gets,
  Triple-need, Triple-throw_if, Keeps-Triple, Triple-modify,
}
use lab_keeper.Oidc.Callback.{Matching, callback_rule}
use lab_keeper.Oidc.Steps.{Occurs, fetch_rule, read_tokens_still, read_userinfo_still}

-- The token request of RFC 6749 with the verifier of RFC 7636.
abbrev pub code_request : Env → OidcDiscovery → Text → PendingAuth → Request
code_request env doc code pending = record {
  url = doc.token_endpoint;
  method = post;
  authorization = none;
  content_type = some (text "application/x-www-form-urlencoded");
  body = form (
      (text "grant_type", text "authorization_code")
      ∷ (text "client_id", Config.client_id env)
      ∷ (text "code", code)
      ∷ (text "redirect_uri", Config.redirect_uri env)
      ∷ (text "code_verifier", pending.code_verifier)
      ∷ []);
}

exchange_request-code_request :
    (env : Env) (doc : OidcDiscovery) (code : Text) (pending : PendingAuth)
    → exchange_request env doc code pending ≡ code_request env doc code pending
unfolding exchange_request
exchange_request-code_request env doc code pending = refl

-- The world after the code was exchanged: the old session is still there, the login is used up.
record IsExchanged (u : World) (doc : OidcDiscovery) (request : Request) (w : World) : Type 0 where
  known : w.discovery_cache ≡ some doc
  session_same : w.session ≡ u.session
  asked : Occurs request w.sent
  used_up : w.pending ≡ absent

module _ (u : World) (doc : OidcDiscovery) (request : Request) where
  fetch_userinfo-IsExchanged :
      (t : Option Text)
      → Triple
          (IsExchanged u doc request)
          (fetch_userinfo doc t)
          (λ _. IsExchanged u doc request)
          (λ _. IsExchanged u doc request)
  unfolding fetch_userinfo
  fetch_userinfo-IsExchanged none = Triple-pure _ λ w h. h
  fetch_userinfo-IsExchanged (some []) = Triple-pure _ λ w h. h
  fetch_userinfo-IsExchanged (some (c ∷ t)) =
      Triple-bind (λ _. IsExchanged u doc request)
        (fetch_rule (IsExchanged u doc request) (IsExchanged u doc request) _ λ w later time h.
          record {
            known = h.known;
            session_same = h.session_same;
            asked = inr h.asked;
            used_up = h.used_up;
          })
        λ res. read_userinfo_still (IsExchanged u doc request) res

-- A login that went through: the answer named the stored login, the token request went to the endpoint of
-- the provider's document that the portal has in its cache and carried the verifier of that login, the stored login is used up, and the session is the returned one.
pub record IsLoggedIn (search : Search) (u : World) (session : SessionData) (w : World)
    : Type 0 where
  pub code : Text
  pub pending : PendingAuth
  pub doc : OidcDiscovery
  pub matching : Matching search u.pending code pending
  pub known : w.discovery_cache ≡ some doc
  pub asked : Occurs (code_request u.env doc code pending) w.sent
  pub used_up : w.pending ≡ absent
  pub stored : w.session ≡ holds session

abbrev KeepsSettings : World → World → Type 0
KeepsSettings w w' = (w'.session ≡ w.session) × (w'.env ≡ w.env)

settings_frame : Frame KeepsSettings
settings_frame = record {
  same = λ w. (refl, refl);
  trans = λ u v w p q. (q.0 ∙ p.0, q.1 ∙ p.1);
  sends = λ q w h. (refl, refl);
  receives = λ later t w. (refl, refl);
  caches = λ doc w. (refl, refl);
  draws = λ n w. (refl, refl);
  pends = λ p w. (refl, refl);
  goes = λ l w. (refl, refl);
}

exchange_code-IsLoggedIn :
    (search : Search) (u : World) (code : Text) (pending : PendingAuth)
    → Matching search u.pending code pending
    → Triple
        (λ w. w ≡ u)
        (exchange_code code pending)
        (IsLoggedIn search u)
        (λ _ w. w.session ≡ u.session)
unfolding exchange_code save_session
exchange_code-IsLoggedIn search u code pending m =
    Triple-bind (λ found w. KeepsSettings u w × (w.discovery_cache ≡ found))
      (Triple-weaken
        (Triple-both
          (Keeps-Triple (λ w. w ≡ u) (KeepsSettings u) (discover-frame settings_frame)
            λ v w kept same. (kept.0 ∙ ap (λ x. x.session) same, kept.1 ∙ ap (λ x. x.env) same))
          (Triple-pre (λ w h. tt) discover-Cached))
        (λ a w h. h) λ e w h. h.0.0)
      λ found.
        Triple-bind (λ doc w. KeepsSettings u w × (w.discovery_cache ≡ some doc))
          (Triple-need found type_error (λ a w e h. (h.0, h.1 ∙ e)) λ w h. h.0.0)
          λ doc.
            Triple-bind
              (λ request w.
                (w.session ≡ u.session)
                × (w.discovery_cache ≡ some doc)
                × (request ≡ code_request u.env doc code pending))
              (Triple-gets _ λ w h. (
                h.0.0,
                h.1,
                exchange_request-code_request w.env doc code pending
                    ∙ ap (λ env. code_request env doc code pending) h.0.1,
              ))
              λ request.
                let Asked : World → Type 0 = λ w.
                  (w.session ≡ u.session)
                  × (w.discovery_cache ≡ some doc)
                  × Occurs (code_request u.env doc code pending) w.sent in
                Triple-bind (λ _. Asked)
                  (Triple-weaken
                    (fetch_rule _ Asked request λ w later t h. (h.0, h.1, inl (sym h.2)))
                    (λ a w h. h) λ e w h. h.0)
                  λ res.
                    Triple-bind (λ _. Asked) (Triple-throw_if _ _ (λ w e h. h) λ w e h. h.0)
                      λ _.
                        Triple-bind (λ _. Asked)
                          (Triple-weaken (read_tokens_still Asked res) (λ a w h. h) λ e w h. h.0)
                          λ tokens.
                            Triple-bind
                              (λ _. IsExchanged u doc (code_request u.env doc code pending))
                              (Triple-modify _ λ w h. record {
                                session_same = h.0;
                                known = h.1;
                                asked = h.2;
                                used_up = refl;
                              })
                              λ _.
                                Triple-bind
                                  (λ _. IsExchanged u doc (code_request u.env doc code pending))
                                  (Triple-weaken
                                    (fetch_userinfo-IsExchanged u doc _ tokens.access_token)
                                    (λ a w h. h) λ e w h. h.session_same)
                                  λ userinfo.
                                    let session : SessionData = record {
                                      tokens = some tokens;
                                      userinfo = userinfo;
                                    } in
                                    Triple-bind (λ _. IsLoggedIn search u session)
                                      (Triple-modify _ λ w h. record {
                                        code = code;
                                        pending = pending;
                                        doc = doc;
                                        known = h.known;
                                        matching = m;
                                        asked = h.asked;
                                        used_up = h.used_up;
                                        stored = refl;
                                      })
                                      λ _. Triple-pure session λ w h. h

-- A callback either logs in, and then its code and state answer the stored login, a request that exchanges
-- the code, with that login's own PKCE verifier, went to the token endpoint of the provider's document in the
-- portal's cache, the login cannot be used again and the returned session is the stored one; or it throws
-- and leaves the session as it was.
pub do_handle_callback-IsLoggedIn :
    (search : Search) (w : World)
    → After (do_handle_callback search w) (IsLoggedIn search w) (λ _ w'. w'.session ≡ w.session)
do_handle_callback-IsLoggedIn search w =
    (callback_rule search w (λ e. refl)
        λ code p m. exchange_code-IsLoggedIn search w code p m).apply
      w refl
