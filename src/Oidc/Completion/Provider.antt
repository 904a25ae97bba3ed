-- ===== src/Oidc/Completion/Provider.antt =====
-- What the provider and the browser do between `startLogin` and `handleCallback` of web/src/lib/oidc.ts.
use lab_keeper.Common.{
  List, Option, Text, [], non_empty, none, some, text, true, ◌*◌, ◌+◌, ◌<◌, ◌∷◌, ◌≡◌,
}
use lab_keeper.Json.{Json, obj, Fields}
use lab_keeper.Oidc.Types.{as_token_set}
use lab_keeper.Oidc.World.{Location, World, Response, Reply, answers, is_ok}
use lab_keeper.Oidc.Session.{lifetime}
use lab_keeper.Oidc.Login.{Search, param}

-- The browser has left the page and comes back to it: sessionStorage is what has stayed. The network
-- will answer so.
abbrev pub reloaded : List Reply → World → World
reloaded replies w = record w {
  discovery_cache = none;
  exchanges = [];
  replies = replies;
  location = none;
}

-- What the provider answers on the way: its document, the tokens, and the user or a refusal to tell.
pub record Provides (parse_json : Text → Option Json) : Type 0 where
  pub document : Response
  pub document_ok : is_ok document ≡ true
  pub document_fields : Fields
  pub document_parsed : parse_json document.body ≡ some (obj document_fields)
  pub granted : Response
  pub granted_ok : is_ok granted ≡ true
  pub token_fields : Fields
  pub token_parsed : parse_json granted.body ≡ some (obj token_fields)
  pub access_token : Text
  pub has_access : (as_token_set (obj token_fields)).access_token ≡ some access_token
  pub access_given : non_empty access_token ≡ true
  pub user : Response
  pub user_json : Json
  pub user_parsed : parse_json user.body ≡ some user_json
  -- The access token is good for more than a minute after the last answer.
  pub lasts : 60000 + user.elapsed < lifetime (as_token_set (obj token_fields)).expires_in * 1000

abbrev pub provided : {parse_json : Text → Option Json} → Provides parse_json → List Reply
provided p = answers p.document ∷ answers p.granted ∷ answers p.user ∷ []

-- The address to which the provider sends the browser back: a code, and the state that was asked for.
pub record SendsBack (query : List (Text × Text)) (search : Search) : Type 0 where
  pub not_denied : param (text "error") search.params ≡ none
  pub code : Text
  pub has_code : param (text "code") search.params ≡ some code
  pub code_given : non_empty code ≡ true
  pub same_state : param (text "state") search.params ≡ param (text "state") query

abbrev pub query_of : Option Location → List (Text × Text)
query_of none = []
query_of (some l) = l.query
