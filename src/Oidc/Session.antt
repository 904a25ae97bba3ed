-- ===== src/Oidc/Session.antt =====
-- The session of web/src/lib/oidc.ts: discovery of the provider, the stored tokens, their expiry,
-- and the refresh.
use lab_keeper.Common.{
  Bool, List, Option, Text, [], bind_option, decimal, false, if◌then◌else◌, ltb, non_empty, none,
  not, or_else, some, split, spread, strip_slash, text, true, truthy, ℕ, ◌&&◌, ◌*◌, ◌++◌, ◌+◌, ◌∷◌,
}
use lab_keeper.Json.{Json, property, as_number}
use lab_keeper.Config
use lab_keeper.Base64.{decode_segment}
use lab_keeper.Oidc.Types.{
  OidcDiscovery, TokenSet, SessionData, no_session, Failure, session_expired, error, type_error,
  shown, as_discovery, as_token_set,
}
use lab_keeper.Oidc.World.{
  World, Slot, absent, garbled, holds, Request, get, post, empty, form, Response, Action, ◌>>=◌,
  ◌>>◌, pure, throw, gets, need, modify, throw_if, fetch, is_ok, response_json,
}

abbrev pub expiry_skew_ms : ℕ
expiry_skew_ms = 60000

abbrev pub discovery_url : World → Text
discovery_url w = strip_slash (Config.issuer w.env) ++ text "/.well-known/openid-configuration"

abbrev pub plain_get : Text → Request
plain_get url = record {
  url = url;
  method = get;
  authorization = none;
  content_type = none;
  body = empty;
}

-- What `await res.json()` leaves in the cache: null is as good as nothing there.
abbrev pub parsed_discovery : Json → Option OidcDiscovery
parsed_discovery Json.null = none
parsed_discovery j = some (as_discovery j)

-- The part of `discover` behind the early return. A result of null makes the caller's next access
-- of a property throw.
unfoldable pub fetch_discovery : Action (Option OidcDiscovery)
fetch_discovery = do
  url ← gets discovery_url
  res ← fetch (plain_get url)
  throw_if (not (is_ok res)) (error (text "Discovery failed: " ++ decimal res.status))
  j ← response_json res
  modify (λ w. record w { discovery_cache = parsed_discovery j })
  pure (parsed_discovery j)

abbrev pub cached_or :
    Option OidcDiscovery → Action (Option OidcDiscovery) → Action (Option OidcDiscovery)
cached_or none m = m
cached_or (some doc) m = pure (some doc)

unfoldable pub discover : Action (Option OidcDiscovery)
discover w = cached_or w.discovery_cache fetch_discovery w

unfoldable pub read_session : Slot SessionData → SessionData
read_session absent = no_session
read_session (garbled raw) = no_session
read_session (holds session) = session

unfoldable pub load_session : World → SessionData
unfolding read_session
load_session w = read_session w.session

unfoldable pub save_session : SessionData → Action (Unit {0})
save_session session = modify (λ w. record w { session = holds session })

unfoldable pub clear_session : Action (Unit {0})
clear_session = modify (λ w. record w { session = absent; pending = absent })

-- `payload.exp * 1000`, if the text is JSON with a number there
abbrev pub payload_exp : Option Json → Option ℕ
payload_exp none = none
payload_exp (some payload) = elim (as_number (property (text "exp") payload)) [
  | none ↦ none
  | some seconds ↦ some (seconds * 1000)
]

abbrev pub second_part : List Text → Option Text
second_part [] = none
second_part (header ∷ []) = none
second_part (header ∷ payload ∷ rest) = some payload

-- The `try` block catches what `atob` and `JSON.parse` throw.
unfoldable pub read_jwt_exp_ms : (Text → Option Json) → Text → Option ℕ
read_jwt_exp_ms parse_json access_token =
    bind_option (second_part (split b'.' access_token))
      (λ part. bind_option (decode_segment part) (λ payload. payload_exp (parse_json payload)))

unfoldable pub positive : Option ℕ → Option ℕ
positive none = none
positive (some n) = if ltb 0 n then some n else none

-- The client's own stamp first, then the token's `exp`.
unfoldable pub access_token_expires_at : (Text → Option Json) → TokenSet → Option ℕ
unfolding positive read_jwt_exp_ms
access_token_expires_at parse_json tokens = elim (positive tokens.expires_at) [
  | none ↦ read_jwt_exp_ms parse_json (or_else tokens.access_token [])
  | some at ↦ some at
]

-- `Date.now() < expiresAt - skewMs`, with the skew on the other side
abbrev pub before_expiry : ℕ → ℕ → Option ℕ → Bool
before_expiry now skew none = true
before_expiry now skew (some at) = ltb (now + skew) at

abbrev pub tokens_fresh : World → ℕ → Option TokenSet → Bool
tokens_fresh w skew none = false
tokens_fresh w skew (some tokens) =
    truthy tokens.access_token
    && before_expiry w.now skew (access_token_expires_at w.parse_json tokens)

unfoldable pub is_access_token_fresh : ℕ → World → Bool
is_access_token_fresh skew w = tokens_fresh w skew (load_session w).tokens

abbrev pub signed_in : Bool → Option TokenSet → Bool
signed_in fresh none = false
signed_in fresh (some tokens) =
    truthy tokens.access_token && (if fresh then true else truthy tokens.refresh_token)

unfoldable pub is_authenticated : World → Bool
is_authenticated w = signed_in (is_access_token_fresh expiry_skew_ms w) (load_session w).tokens

-- `tokens.expires_in > 0 ? tokens.expires_in : 3600`
abbrev pub lifetime : Option ℕ → ℕ
lifetime none = 3600
lifetime (some n) = if ltb 0 n then n else 3600

unfoldable pub stamp_expiry : ℕ → TokenSet → TokenSet
stamp_expiry now tokens = record tokens {
  expires_in = some (lifetime tokens.expires_in);
  expires_at = some (now + lifetime tokens.expires_in * 1000);
}

-- Of null the property throws.
abbrev pub stamp_json : ℕ → Json → Action TokenSet
stamp_json now Json.null = throw type_error
stamp_json now j = pure (stamp_expiry now (as_token_set j))

-- `stampExpiry((await res.json()) as TokenSet)`
unfoldable pub read_tokens : Response → Action TokenSet
read_tokens res = do j ← response_json res; now ← gets (λ w. w.now); stamp_json now j

-- `next.refresh_token || session.tokens?.refresh_token`
abbrev pub or_refresh : Option Text → Option Text → Option Text
or_refresh next old = if truthy next then next else old

-- `{ ...session.tokens, ...next, refresh_token: … }`, where a field of the answer that is null or of another
-- type was read as missing
unfoldable pub merge_tokens : TokenSet → TokenSet → TokenSet
merge_tokens old next = record {
  access_token = spread old.access_token next.access_token;
  id_token = spread old.id_token next.id_token;
  refresh_token = or_refresh next.refresh_token old.refresh_token;
  token_type = spread old.token_type next.token_type;
  expires_in = spread old.expires_in next.expires_in;
  expires_at = spread old.expires_at next.expires_at;
}

abbrev pub form_post : Text → List (Text × Text) → Request
form_post url pairs = record {
  url = url;
  method = post;
  authorization = none;
  content_type = some (text "application/x-www-form-urlencoded");
  body = form pairs;
}

-- `if (!res.ok) { clearSession(); throw … }`
abbrev pub refused_refresh : Response → Action (Unit {0})
refused_refresh res =
    if is_ok res
    then pure tt
    else clear_session >> throw (session_expired (text "Refresh failed: " ++ decimal res.status))

-- `doRefreshAccessToken`, once the stored tokens have a refresh token.
unfoldable pub exchange_refresh_token : SessionData → TokenSet → Text → Action TokenSet
exchange_refresh_token session old refresh_token = do
  found ← discover
  client ← gets (λ w. Config.client_id w.env)
  doc ← need found type_error
  res ← fetch (
      form_post doc.token_endpoint (
        (text "grant_type", text "refresh_token")
        ∷ (text "client_id", client)
        ∷ (text "refresh_token", refresh_token)
        ∷ []))
  refused_refresh res
  next ← read_tokens res
  let tokens = merge_tokens old next
  save_session (record session { tokens = some tokens })
  pure tokens

abbrev pub no_refresh_token : Failure
no_refresh_token = session_expired (text "No refresh token")

abbrev pub refresh_with : SessionData → TokenSet → Option Text → Action TokenSet
refresh_with session old none = throw no_refresh_token
refresh_with session old (some refresh_token) =
    if non_empty refresh_token
    then exchange_refresh_token session old refresh_token
    else throw no_refresh_token

abbrev pub refresh_session : SessionData → Option TokenSet → Action TokenSet
refresh_session session none = throw no_refresh_token
refresh_session session (some tokens) = refresh_with session tokens tokens.refresh_token

unfoldable pub do_refresh_access_token : Action TokenSet
do_refresh_access_token w = refresh_session (load_session w) (load_session w).tokens w

-- A refresh that no other call waits for is one run of the exchange.
abbrev pub refresh_access_token : Action TokenSet
refresh_access_token = do_refresh_access_token

-- What `ensureAccessToken` does with a token that is not fresh.
unfoldable pub renew : Option Text → Action Text
renew refresh_token =
    if truthy refresh_token
    then (do next ← refresh_access_token; pure (shown next.access_token))
    else (do clear_session; throw (session_expired (text "Access token expired")))

-- `ensureAccessToken`, once an access token is stored.
unfoldable pub ensure_stored : TokenSet → Text → Action Text
ensure_stored tokens access_token = do
  fresh ← gets (is_access_token_fresh expiry_skew_ms)
  if fresh then pure access_token else renew tokens.refresh_token

abbrev pub not_signed_in : Failure
not_signed_in = session_expired (text "Not signed in")

abbrev pub ensure_with : TokenSet → Option Text → Action Text
ensure_with tokens none = throw not_signed_in
ensure_with tokens (some access_token) =
    if non_empty access_token then ensure_stored tokens access_token else throw not_signed_in

abbrev pub ensure_session : Option TokenSet → Action Text
ensure_session none = throw not_signed_in
ensure_session (some tokens) = ensure_with tokens tokens.access_token

unfoldable pub ensure_access_token : Action Text
ensure_access_token w = ensure_session (load_session w).tokens w
