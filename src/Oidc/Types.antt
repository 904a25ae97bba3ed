-- ===== src/Oidc/Types.antt =====
-- The data types of web/src/lib/oidc.ts, and the casts of parsed JSON to them. A cast checks
-- nothing; a field that is missing, or not of the stated type, is read as undefined.
use lab_keeper.Common.{
  Bool, List, Option, Text, false, none, or_else, some, text, true, ℕ, ◌≡◌, ◌≢◌,
}
use lab_keeper.Json.{Json, property, as_text, as_number, as_texts}

pub record OidcDiscovery : Type 0 where
  pub issuer : Text
  pub authorization_endpoint : Text
  pub token_endpoint : Text
  pub userinfo_endpoint : Text
  pub end_session_endpoint : Option Text

-- `none` is a key that is not there.
pub record TokenSet : Type 0 where
  pub access_token : Option Text
  pub id_token : Option Text
  pub refresh_token : Option Text
  pub token_type : Option Text
  pub expires_in : Option ℕ
  pub expires_at : Option ℕ

pub record UserInfo : Type 0 where
  pub sub : Text
  pub email : Option Text
  pub name : Option Text
  pub username : Option Text
  pub roles : Option (List Text)

pub record PendingAuth : Type 0 where
  pub code_verifier : Text
  pub state : Text
  pub nonce : Text

pub record SessionData : Type 0 where
  pub tokens : Option TokenSet
  pub userinfo : Option UserInfo

abbrev pub no_session : SessionData
no_session = record { tokens = none; userinfo = none }

-- What is thrown: `SessionExpiredError`, an `Error` of the portal, and the errors of `JSON.parse`,
-- `fetch`, a property of null and `encodeURIComponent`, whose messages the engine chooses.
pub data Failure : Type 0 where
  session_expired : Text → Failure
  error : Text → Failure
  syntax_error : Failure
  network_error : Failure
  type_error : Failure
  uri_error : Failure

-- A text that is put into a URL or a message though it may be undefined.
abbrev pub shown : Option Text → Text
shown t = or_else t (text "undefined")

unfoldable pub as_discovery : Json → OidcDiscovery
as_discovery j = record {
  issuer = shown (as_text (property (text "issuer") j));
  authorization_endpoint = shown (as_text (property (text "authorization_endpoint") j));
  token_endpoint = shown (as_text (property (text "token_endpoint") j));
  userinfo_endpoint = shown (as_text (property (text "userinfo_endpoint") j));
  end_session_endpoint = as_text (property (text "end_session_endpoint") j);
}

unfoldable pub as_token_set : Json → TokenSet
as_token_set j = record {
  access_token = as_text (property (text "access_token") j);
  id_token = as_text (property (text "id_token") j);
  refresh_token = as_text (property (text "refresh_token") j);
  token_type = as_text (property (text "token_type") j);
  expires_in = as_number (property (text "expires_in") j);
  expires_at = as_number (property (text "expires_at") j);
}

unfoldable pub as_userinfo : Json → UserInfo
as_userinfo j = record {
  sub = shown (as_text (property (text "sub") j));
  email = as_text (property (text "email") j);
  name = as_text (property (text "name") j);
  username = as_text (property (text "username") j);
  roles = as_texts (property (text "roles") j);
}

-- `err.message`: what the program throws carries its own, and the engine's messages are a parameter.
abbrev pub message : (Failure → Text) → Failure → Text
message engine (session_expired m) = m
message engine (Failure.error m) = m
message engine e = engine e

-- `err instanceof SessionExpiredError`
unfoldable pub is_expired : Failure → Bool
is_expired (session_expired m) = true
is_expired e = false

-- The `catch` of the pages: `if (err instanceof SessionExpiredError) return`, else `setError(err.message)`.
unfoldable pub report : (Failure → Text) → Failure → Option Text → Option Text
report engine (session_expired m) shown = shown
report engine e shown = some (message engine e)

pub report-ne-none :
    (engine : Failure → Text) (e : Failure) (shown : Option Text)
    → is_expired e ≡ false
    → report engine e shown ≢ none
unfolding is_expired report
report-ne-none engine (session_expired m) shown h = cc
report-ne-none engine (error m) shown h = cc
report-ne-none engine syntax_error shown h = cc
report-ne-none engine network_error shown h = cc
report-ne-none engine type_error shown h = cc
report-ne-none engine uri_error shown h = cc

-- A message stays a message.
pub report-keeps_some :
    (engine : Failure → Text) (e : Failure) (shown : Option Text)
    → shown ≢ none
    → report engine e shown ≢ none
unfolding report
report-keeps_some engine (session_expired m) shown h = h
report-keeps_some engine (error m) shown h = cc
report-keeps_some engine syntax_error shown h = cc
report-keeps_some engine network_error shown h = cc
report-keeps_some engine type_error shown h = cc
report-keeps_some engine uri_error shown h = cc
