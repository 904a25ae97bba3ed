-- ===== src/Oidc/Login.antt =====
-- The login and the logout of web/src/lib/oidc.ts: the redirect to the provider with a PKCE
-- challenge, the callback with the exchange of the code, and the end of the session.
use lab_keeper.Common.{
  List, Option, Text, [], decimal, if◌then◌else◌, non_empty, none, not, or_else, some, strip_slash,
  text, text_eq, utf8, ℕ, ◌++◌, ◌∷◌,
}
use lab_keeper.Json.{Json}
use lab_keeper.Config
use lab_keeper.Config.{Env}
use lab_keeper.Base64.{base64_url_encode}
use lab_keeper.Sha256.{sha256}
use lab_keeper.Oidc.Types.{
  OidcDiscovery, TokenSet, UserInfo, SessionData, PendingAuth, Failure, error, type_error,
  syntax_error, as_userinfo,
}
use lab_keeper.Oidc.World.{
  World, Slot, absent, garbled, holds, Request, get, empty, Response, Result, Action, ◌>>=◌, ◌>>◌,
  pure, throw, gets, need, modify, throw_if, fetch, is_ok, response_json, draw,
}
use lab_keeper.Oidc.Session.{
  discover, load_session, save_session, clear_session, read_tokens, form_post,
}

unfoldable pub random_string : ℕ → Action Text
random_string bytes = do buf ← draw bytes; pure (base64_url_encode buf)

unfoldable pub pkce_challenge : Text → World → Text
pkce_challenge verifier w =
    base64_url_encode (sha256 w.secure_context w.subtle_digest (utf8 verifier))

-- The query of the address to which the login redirects.
unfoldable pub login_query : World → Text → PendingAuth → List (Text × Text)
login_query w challenge pending =
    (text "client_id", Config.client_id w.env)
    ∷ (text "redirect_uri", Config.redirect_uri w.env)
    ∷ (text "response_type", text "code")
    ∷ (text "scope", text "openid profile email")
    ∷ (text "code_challenge", challenge)
    ∷ (text "code_challenge_method", text "S256")
    ∷ (text "state", pending.state)
    ∷ (text "nonce", pending.nonce)
    ∷ []

abbrev pub go_to : Text → List (Text × Text) → Action (Unit {0})
go_to base query =
    modify (λ w. record w { location = some (record { base = base; query = query }) })

unfoldable pub start_login : Action (Unit {0})
start_login = do
  found ← discover
  code_verifier ← random_string 32
  code_challenge ← gets (pkce_challenge code_verifier)
  state ← random_string 16
  nonce ← random_string 16
  let pending : PendingAuth = record { code_verifier = code_verifier; state = state; nonce = nonce }
  modify (λ w. record w { pending = holds pending })
  query ← gets (λ w. login_query w code_challenge pending)
  doc ← need found type_error
  go_to doc.authorization_endpoint query

-- The query of the callback's address: as it stands, and parsed by `URLSearchParams`.
pub record Search : Type 0 where
  pub raw : Text
  pub params : List (Text × Text)

-- `params.get(key)`: the first value of that name
unfoldable pub param : Text → List (Text × Text) → Option Text
param key [] = none
param key ((name, value) ∷ rest) = if text_eq name key then some value else param key rest

-- `if (error) throw new Error(params.get("error_description") ?? error)`
abbrev pub throw_if_denied : Option Text → Option Text → Action (Unit {0})
throw_if_denied none description = pure tt
throw_if_denied (some reason) description =
    throw_if (non_empty reason) (error (or_else description reason))

abbrev pub need_text : Option Text → Failure → Action Text
need_text none e = throw e
need_text (some t) e = if non_empty t then pure t else throw e

abbrev pub missing_pkce : Failure
missing_pkce = error (text "Missing PKCE session — start login again")

-- The pending login, parsed.
abbrev pub read_pending : Slot PendingAuth → Action PendingAuth
read_pending absent = throw missing_pkce
read_pending (garbled raw) = throw (if non_empty raw then syntax_error else missing_pkce)
read_pending (holds pending) = pure pending

-- The request that changes the code into tokens.
unfoldable pub exchange_request : Env → OidcDiscovery → Text → PendingAuth → Request
exchange_request env doc code pending = form_post doc.token_endpoint (
    (text "grant_type", text "authorization_code")
    ∷ (text "client_id", Config.client_id env)
    ∷ (text "code", code)
    ∷ (text "redirect_uri", Config.redirect_uri env)
    ∷ (text "code_verifier", pending.code_verifier)
    ∷ [])

abbrev pub bearer_get : Text → Text → Request
bearer_get url access_token = record {
  url = url;
  method = get;
  authorization = some (text "Bearer " ++ access_token);
  content_type = none;
  body = empty;
}

abbrev pub userinfo_of : Json → Option UserInfo
userinfo_of Json.null = none
userinfo_of j = some (as_userinfo j)

abbrev pub read_userinfo : Response → Action (Option UserInfo)
read_userinfo res =
    if is_ok res then (do j ← response_json res; pure (userinfo_of j)) else pure none

-- Asked only with an access token; an answer that is no success leaves the user unknown.
unfoldable pub fetch_userinfo : OidcDiscovery → Option Text → Action (Option UserInfo)
fetch_userinfo doc none = pure none
fetch_userinfo doc (some access_token) =
    if non_empty access_token
    then (do res ← fetch (bearer_get doc.userinfo_endpoint access_token); read_userinfo res)
    else pure none

abbrev pub exchange_failed : Response → Failure
exchange_failed res =
    error (text "Token exchange failed: " ++ decimal res.status ++ text " " ++ res.body)

-- `doHandleCallback` from the call of `discover` on.
unfoldable pub exchange_code : Text → PendingAuth → Action SessionData
exchange_code code pending = do
  found ← discover
  doc ← need found type_error
  request ← gets (λ w. exchange_request w.env doc code pending)
  res ← fetch request
  throw_if (not (is_ok res)) (exchange_failed res)
  tokens ← read_tokens res
  modify (λ w. record w { pending = absent })
  userinfo ← fetch_userinfo doc tokens.access_token
  let session : SessionData = record { tokens = some tokens; userinfo = userinfo }
  save_session session
  pure session

abbrev pub missing_code : Failure
missing_code = error (text "Missing code or state")

unfoldable pub do_handle_callback : Search → Action SessionData
do_handle_callback search = do
  throw_if_denied (param (text "error") search.params)
      (param (text "error_description") search.params)
  code ← need_text (param (text "code") search.params) missing_code
  state ← need_text (param (text "state") search.params) missing_code
  stored ← gets (λ w. w.pending)
  pending ← read_pending stored
  throw_if (not (text_eq pending.state state)) (error (text "State mismatch"))
  exchange_code code pending

unfoldable pub find_exchange : Text → List (Text × Result SessionData) → Option (Result SessionData)
find_exchange code [] = none
find_exchange code ((key, r) ∷ rest) = if text_eq key code then some r else find_exchange code rest

abbrev pub remember : Text → Result SessionData × World → Result SessionData × World
remember code (r, w) = (r, record w { exchanges = (code, r) ∷ w.exchanges })

abbrev pub join_or_run : Option (Result SessionData) → Text → Search → Action SessionData
join_or_run none code search w = remember code (do_handle_callback search w)
join_or_run (some r) code search w = (r, w)

abbrev pub exchange_key : Search → Text
exchange_key search = or_else (param (text "code") search.params) search.raw

-- One exchange for each code: a later call has the result of the first.
unfoldable pub handle_callback : Search → Action SessionData
handle_callback search w =
    join_or_run (find_exchange (exchange_key search) w.exchanges) (exchange_key search) search w

unfoldable pub handle_session_expired : Action (Unit {0})
handle_session_expired = do clear_session; start_login

abbrev pub id_token_hint : Option TokenSet → List (Text × Text)
id_token_hint none = []
id_token_hint (some tokens) = elim tokens.id_token [
  | none ↦ []
  | some id_token ↦ if non_empty id_token then (text "id_token_hint", id_token) ∷ [] else []
]

abbrev pub logout_base : World → OidcDiscovery → Text
logout_base w doc =
    or_else doc.end_session_endpoint (strip_slash (Config.issuer w.env) ++ text "/oauth2/logout")

-- The pairs are set on whatever query the address has. That `new URL` throws on an endpoint that is no address
-- is left out.
unfoldable pub logout : Action (Unit {0})
logout = do
  session ← gets load_session
  clear_session
  found ← discover
  doc ← need found type_error
  base ← gets (λ w. logout_base w doc)
  after ← gets (λ w. Config.post_logout_redirect_uri w.env)
  go_to base ((text "post_logout_redirect_uri", after) ∷ id_token_hint session.tokens)
