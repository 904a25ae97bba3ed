-- ===== src/Api/Fetch/Renewal.antt =====
-- `apiFetch` of web/src/lib/api.ts when a token that looks fresh is refused, and the refresh goes well.
use lab_keeper.Common.{
  List, Option, Text, [], false, non_empty, none, set, some, strip_slash, text, true, ℕ, ◌*◌, ◌++◌,
  ◌+◌, ◌<◌, ◌==◌, ◌∷◌, ◌≡◌,
}
use lab_keeper.Json.{Json, Fields, obj}
use lab_keeper.Oidc.Types.{OidcDiscovery, TokenSet, SessionData, as_token_set}
use lab_keeper.Oidc.World.{World, holds, Response, Reply, answers, Request, post, form, is_ok}
use lab_keeper.Oidc.Session.{stamp_expiry, merge_tokens, lifetime}
use lab_keeper.Oidc.Runs.{Runs, responded}
use lab_keeper.Config
use lab_keeper.Api.Fetch.{Init, api_request}

-- A session whose access token ends more than a minute from now, with a refresh token.
pub record IsSignedIn (w : World) (session : SessionData) (set : TokenSet) : Type 0 where
  pub stored : w.session ≡ holds session
  pub has_tokens : session.tokens ≡ some set
  pub access_token : Text
  pub has_access : set.access_token ≡ some access_token
  pub access_given : non_empty access_token ≡ true
  pub refresh_token : Text
  pub has_refresh : set.refresh_token ≡ some refresh_token
  pub refresh_given : non_empty refresh_token ≡ true
  pub ends : ℕ
  pub stamped : set.expires_at ≡ some ends
  pub early : w.now + 60000 < ends
  pub doc : OidcDiscovery
  pub known : w.discovery_cache ≡ some doc

-- The server refuses the token, the provider grants another one, and the server takes that.
pub record Renews (parse_json : Text → Option Json) : Type 0 where
  pub refusal : Response
  pub refused : refusal.status ≡ 401
  pub granted : Response
  pub granted_ok : is_ok granted ≡ true
  pub fields : Fields
  pub parsed : parse_json granted.body ≡ some (obj fields)
  pub next_token : Text
  pub has_next : (as_token_set (obj fields)).access_token ≡ some next_token
  pub next_given : non_empty next_token ≡ true
  pub lasts : 60000 < lifetime (as_token_set (obj fields)).expires_in * 1000
  pub answer : Response
  pub accepted : (answer.status == 401) ≡ false

abbrev pub renewed_by : {parse_json : Text → Option Json} → Renews parse_json → List Reply
renewed_by r = answers r.refusal ∷ answers r.granted ∷ answers r.answer ∷ []

-- The request of the refresh, of RFC 6749.
abbrev pub refresh_request : World → OidcDiscovery → Text → Request
refresh_request w doc token = record {
  url = doc.token_endpoint;
  method = post;
  authorization = none;
  content_type = some (text "application/x-www-form-urlencoded");
  body = form (
      (text "grant_type", text "refresh_token")
      ∷ (text "client_id", Config.client_id w.env)
      ∷ (text "refresh_token", token)
      ∷ []);
}

-- The caller's request to the server with a bearer token, of RFC 6750.
abbrev pub bearer_request : World → Text → Init → Text → Request
bearer_request w path init token = record {
  url = strip_slash (Config.api_url w.env) ++ path;
  method = init.method;
  authorization = some (text "Bearer " ++ token);
  content_type = init.content_type;
  body = init.body;
}

module _ (w : World) (session : SessionData) (set : TokenSet) (here : IsSignedIn w session set)
    (net : Renews w.parse_json) (path : Text) (init : Init) where
  abbrev pub refused_world : World
  refused_world =
      responded (api_request w path init here.access_token) net.refusal
        (answers net.granted ∷ answers net.answer ∷ []) w

  abbrev pub granted_world : World
  granted_world =
      responded (refresh_request w here.doc here.refresh_token) net.granted
        (answers net.answer ∷ []) refused_world

  abbrev pub next_tokens : TokenSet
  next_tokens = merge_tokens set (stamp_expiry granted_world.now (as_token_set (obj net.fields)))

  abbrev pub next_session : SessionData
  next_session = record session { tokens = some next_tokens }

  abbrev pub renewed_world : World
  renewed_world = record granted_world { session = holds next_session }

  abbrev pub answered_world : World
  answered_world = responded (api_request w path init net.next_token) net.answer [] renewed_world
