-- ===== src/Oidc/Redirect.antt =====
-- `startLogin` of web/src/lib/oidc.ts: what the pending login and the redirect to the provider have
-- to do with one another.
use lab_keeper.Common.{
  List, Option, Text, [], ap, if◌then◌else◌, length, non_empty, none, refl, some, suc, text, true,
  utf8, zero, ℕ, ◌*◌, ◌+◌, ◌/◌, ◌∙◌, ◌∷◌, ◌≡◌,
}
use lab_keeper.Base64.{base64_url_encode}
use lab_keeper.Base64.Alphabet.{base64_url_encode-IsUrlSafe}
use lab_keeper.Oidc.Types.{
  OidcDiscovery, PendingAuth, Failure, session_expired, syntax_error, type_error,
}
use lab_keeper.Oidc.World.{
  World, holds, Request, Response, Reply, unreachable, answers, Location, fetch, receive,
  response_json, draw, random_bytes, pure,
}
use lab_keeper.Config
use lab_keeper.Sha256.{sha256, sha256_pure}
use lab_keeper.Oidc.Session.{parsed_discovery, discover, fetch_discovery, cached_or, plain_get}
use lab_keeper.Oidc.Login.{start_login, random_string, pkce_challenge, login_query}
use lab_keeper.Oidc.Rules.{
  After, Triple, Any, Anywhere, Triple-bind, Triple-pure, Triple-gets, Triple-need, Triple-modify,
  Triple-throw_if,
}

-- A failure other than an expired session.
abbrev pub Plain : Failure → World → Type 0
Plain (session_expired m) w = ⊥
Plain _ w = Unit

receive-Plain : (replies : List Reply) (w : World) → After (receive replies w) Any Plain
unfolding receive
receive-Plain [] w = tt
receive-Plain (unreachable ∷ later) w = tt
receive-Plain (answers r ∷ later) w = tt

pub fetch-Plain : (q : Request) → Triple Anywhere (fetch q) Any Plain
unfolding fetch
fetch-Plain q = record { apply = λ w _. receive-Plain w.replies (record w { sent = q ∷ w.sent }) }

pub response_json-Plain : (r : Response) → Triple Anywhere (response_json r) Any Plain
unfolding response_json
response_json-Plain r = record {
  apply = λ w h.
      (Triple-need {Pre = Anywhere} (w.parse_json r.body) syntax_error (λ a v e u. tt)
          (λ v u. tt)).apply
        w tt;
}

fetch_discovery-Plain : Triple Anywhere fetch_discovery Any Plain
unfolding fetch_discovery
fetch_discovery-Plain = Triple-bind Any (Triple-gets _ λ w h. tt) λ url.
    Triple-bind Any (fetch-Plain (plain_get url)) λ res.
      Triple-bind Any (Triple-throw_if _ _ (λ w e h. tt) (λ w e h. tt)) λ _.
        Triple-bind Any (response_json-Plain res)
          λ j. Triple-bind Any (Triple-modify _ λ w h. tt) λ _. Triple-pure _ λ w h. tt

pub discover-Plain : Triple Anywhere discover Any Plain
unfolding discover
discover-Plain = record { apply = λ w h. cached w.discovery_cache w }
  where
    cached :
        (c : Option OidcDiscovery) (w : World) → After (cached_or c fetch_discovery w) Any Plain
    cached none w = fetch_discovery-Plain.apply w tt
    cached (some doc) w =
        (Triple-pure {Pre = Anywhere} {P = Any} {Q = Plain} (some doc) (λ v h. tt)).apply w tt

-- What `discover` returns is what it leaves in the cache.
abbrev pub Cached : Option OidcDiscovery → World → Type 0
Cached found w = w.discovery_cache ≡ found

fetch_discovery-Cached : Triple Anywhere fetch_discovery Cached Plain
unfolding fetch_discovery
fetch_discovery-Cached = Triple-bind Any (Triple-gets _ λ w h. tt) λ url.
    Triple-bind Any (fetch-Plain (plain_get url)) λ res.
      Triple-bind Any (Triple-throw_if _ _ (λ w e h. tt) (λ w e h. tt)) λ _.
        Triple-bind Any (response_json-Plain res) λ j.
          Triple-bind (λ _. Cached (parsed_discovery j)) (Triple-modify _ λ w h. refl)
            λ _. Triple-pure _ λ w h. h

pub discover-Cached : Triple Anywhere discover Cached Plain
unfolding discover pure
discover-Cached = record { apply = λ w h. cached w.discovery_cache w refl }
  where
    cached :
        (c : Option OidcDiscovery) (w : World)
        → w.discovery_cache ≡ c
        → After (cached_or c fetch_discovery w) Cached Plain
    cached none w e = fetch_discovery-Cached.apply w tt
    cached (some doc) w e = e

abbrev IsVerifier : Text → World → Type 0
IsVerifier verifier w = (at : ℕ) × (verifier ≡ base64_url_encode (random_bytes 32 w.entropy at))

abbrev pub at_location : Text → List (Text × Text) → Option Location
at_location base query = some (record { base = base; query = query })

-- The code challenge of RFC 7636: the encoded SHA-256 of the verifier, by the browser's digest or by the portal's own.
abbrev pub s256_challenge : World → Text → Text
s256_challenge w verifier =
    base64_url_encode
      (if w.secure_context then w.subtle_digest (utf8 verifier) else sha256_pure (utf8 verifier))

-- The pairs of the authorization request.
abbrev pub authorization_query : World → PendingAuth → List (Text × Text)
authorization_query w pending =
    (text "client_id", Config.client_id w.env)
    ∷ (text "redirect_uri", Config.redirect_uri w.env)
    ∷ (text "response_type", text "code")
    ∷ (text "scope", text "openid profile email")
    ∷ (text "code_challenge", s256_challenge w pending.code_verifier)
    ∷ (text "code_challenge_method", text "S256")
    ∷ (text "state", pending.state)
    ∷ (text "nonce", pending.nonce)
    ∷ []

-- The stored login and the address that the browser goes to belong together: the verifier is 32
-- random bytes, and the query has the challenge of this verifier and the stored state and nonce. The address is
-- that of the provider's document, as the portal has it in its cache.
pub record IsRedirect (w : World) : Type 0 where
  pub pending : PendingAuth
  pub doc : OidcDiscovery
  pub known : w.discovery_cache ≡ some doc
  pub stored : w.pending ≡ holds pending
  pub state_given : non_empty pending.state ≡ true
  pub verifier : IsVerifier pending.code_verifier w
  pub left_for : w.location ≡ at_location doc.authorization_endpoint (authorization_query w pending)

abbrev Challenged : Option OidcDiscovery → Text → Text → World → Type 0
Challenged found verifier challenge w =
    Cached found w × IsVerifier verifier w × (challenge ≡ s256_challenge w verifier)

abbrev Stored : Option OidcDiscovery → Text → PendingAuth → World → Type 0
Stored found challenge p w =
    Challenged found p.code_verifier challenge w
    × (w.pending ≡ holds p)
    × (non_empty p.state ≡ true)

abbrev Asked : Option OidcDiscovery → PendingAuth → List (Text × Text) → World → Type 0
Asked found p query w =
    Cached found w
    × IsVerifier p.code_verifier w
    × (w.pending ≡ holds p)
    × (non_empty p.state ≡ true)
    × (query ≡ authorization_query w p)

draw_string :
    (n : ℕ) (Pre : World → Type 0) (P : Text → World → Type 0)
    → ((w : World)
        → Pre w
        → P
            (base64_url_encode (random_bytes n w.entropy w.drawn))
            (record w { drawn = w.drawn + n }))
    → Triple Pre (random_string n) P Plain
unfolding random_string draw
draw_string n Pre P h =
    Triple-bind (λ bytes w. P (base64_url_encode bytes) w) (record { apply = λ w pre. h w pre })
      λ bytes. Triple-pure _ λ w p. p

length-random_bytes : (n : ℕ) (source : ℕ → ℕ) (at : ℕ) → length (random_bytes n source at) ≡ n
unfolding random_bytes
length-random_bytes zero source at = refl
length-random_bytes (suc n) source at = ap suc (length-random_bytes n source (suc at))

length-non_empty : (t : Text) (n : ℕ) → length t ≡ suc n → non_empty t ≡ true
length-non_empty [] n h = cc
length-non_empty (c ∷ t) n h = refl

encoded-non_empty :
    (bytes : List ℕ) → length bytes ≡ 16 → non_empty (base64_url_encode bytes) ≡ true
encoded-non_empty bytes h =
    length-non_empty _ 21 ((base64_url_encode-IsUrlSafe bytes).1 ∙ ap (λ n. (n * 4 + 2) / 3) h)

asked_query :
    (w : World) (challenge : Text) (p : PendingAuth)
    → challenge ≡ s256_challenge w p.code_verifier
    → login_query w challenge p ≡ authorization_query w p
unfolding login_query
asked_query w challenge p h = rw h refl

pub start_login-Triple : Triple Anywhere start_login (λ _. IsRedirect) Plain
unfolding start_login pkce_challenge sha256
start_login-Triple = Triple-bind Cached discover-Cached λ found.
    Triple-bind (λ verifier w. Cached found w × IsVerifier verifier w)
      (draw_string 32 _ _ λ w h. (h, (w.drawn, refl)))
      λ verifier.
        Triple-bind (Challenged found verifier) (Triple-gets _ λ w h. (h.0, h.1, refl)) λ challenge.
          Triple-bind (λ state w. Challenged found verifier challenge w × (non_empty state ≡ true))
            (draw_string 16 _ _
              λ w h. (h, encoded-non_empty _ (length-random_bytes 16 w.entropy w.drawn)))
            λ state.
              Triple-bind
                (λ nonce w. Challenged found verifier challenge w × (non_empty state ≡ true))
                (draw_string 16 _ _ λ w h. h)
                λ nonce.
                  let pending : PendingAuth = record {
                    code_verifier = verifier;
                    state = state;
                    nonce = nonce;
                  } in
                  Triple-bind (λ _. Stored found challenge pending)
                    (Triple-modify _ λ w h. (h.0, refl, h.1))
                    λ _.
                      Triple-bind (Asked found pending)
                        (Triple-gets _
                          λ w h. (h.0.0, h.0.1, h.1, h.2, asked_query w challenge pending h.0.2))
                        λ query.
                          Triple-bind (λ doc w. Asked found pending query w × (found ≡ some doc))
                            (Triple-need found type_error (λ a w e h. (h, e)) (λ w h. tt))
                            λ doc. Triple-modify _ λ w h. record {
                              pending = pending;
                              doc = doc;
                              known = h.0.0 ∙ h.1;
                              stored = h.0.2;
                              state_given = h.0.3;
                              verifier = h.0.1;
                              left_for = ap (at_location doc.authorization_endpoint) h.0.4;
                            }

-- If `startLogin` returns, the redirect belongs to the stored login: the stored verifier is made of
-- 32 random bytes, and the address has the challenge of that verifier and the stored state and
-- nonce, at the authorization endpoint of the document in the portal's cache. If it throws, the failure is none of an
-- expired session.
pub start_login-IsRedirect : (w : World) → After (start_login w) (λ _. IsRedirect) Plain
start_login-IsRedirect w = start_login-Triple.apply w tt
