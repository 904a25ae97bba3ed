-- ===== src/Oidc/Samples.antt =====
-- A small world for the tests: a provider with one user, and a network whose answers are listed.
use lab_keeper.Common.{List, Option, Text, [], false, if◌then◌else◌, none, some, text, text_eq, ℕ}
use lab_keeper.Json.{Json, obj, field, end, num, str}
use lab_keeper.Config.{Env}
use lab_keeper.Oidc.Types.{OidcDiscovery, PendingAuth, SessionData, TokenSet}
use lab_keeper.Oidc.World.{World, absent, holds, Reply, answers}

abbrev pub sample_env : Env
sample_env = record {
  oidc_issuer = none;
  oidc_client_id = none;
  oidc_redirect_uri = none;
  oidc_post_logout_redirect_uri = none;
  oidc_login_label = none;
  api_url = none;
}

abbrev pub sample_doc : OidcDiscovery
sample_doc = record {
  issuer = text "i";
  authorization_endpoint = text "i/auth";
  token_endpoint = text "i/token";
  userinfo_endpoint = text "i/user";
  end_session_endpoint = none;
}

-- Two texts are JSON here: "T" is an answer with tokens, and "E" one that reports an error.
abbrev pub sample_json : Text → Option Json
sample_json t =
    if text_eq t (text "T")
    then some (
        obj
          (field (text "access_token") (str (text "a2")) (field (text "expires_in") (num 300) end)))
    else if text_eq t (text "E")
    then some (obj (field (text "error") (str (text "no such site")) end))
    else none

abbrev pub sample_tokens : TokenSet
sample_tokens = record {
  access_token = some (text "a1");
  id_token = none;
  refresh_token = some (text "r1");
  token_type = none;
  expires_in = some 300;
  expires_at = some 300000;
}

abbrev pub sample_session : SessionData
sample_session = record { tokens = some sample_tokens; userinfo = none }

abbrev pub sample_pending : PendingAuth
sample_pending = record { code_verifier = text "v"; state = text "s"; nonce = text "n" }

abbrev pub reply : ℕ → Text → Reply
reply status body = answers (record { status = status; body = body; elapsed = 10 })

-- Signed in, with the discovery document at hand; the replies are the argument.
abbrev pub sample_world : List Reply → World
sample_world replies = record {
  env = sample_env;
  now = 1000;
  parse_json = sample_json;
  secure_context = false;
  subtle_digest = λ bytes. bytes;
  entropy = λ n. n;
  drawn = 0;
  session = holds sample_session;
  pending = absent;
  discovery_cache = some sample_doc;
  exchanges = [];
  replies = replies;
  sent = [];
  location = none;
}

-- The same before the login: no session, and a login under way.
abbrev pub sample_login : List Reply → World
sample_login replies = record (sample_world replies) {
  session = absent;
  pending = holds sample_pending;
}
