-- ===== src/Oidc/Completion/Tests.antt =====
-- The login of web/src/lib/oidc.ts from end to end, at a concrete world.
use lab_keeper.Common.{[], arith, or_else, refl, text, text_eq, true, ◌∷◌, ◌≡◌}
use lab_keeper.Json.{Json, obj, field, end, num, str}
use lab_keeper.Json
use lab_keeper.Oidc.Types.{SessionData, as_token_set}
use lab_keeper.Oidc.World.{World, ok, holds, effects, draw}
use lab_keeper.Oidc.Session.{discover, is_authenticated}
use lab_keeper.Oidc.Login.{Search, param, start_login, random_string, handle_callback, login_query}
use lab_keeper.Oidc.Samples.{sample_world}
use lab_keeper.Oidc.Completion.Provider.{reloaded, Provides, provided, SendsBack, query_of}
use lab_keeper.Oidc.Completion.Login.{start_login-handle_callback}

abbrev start : World
start = sample_world []

abbrev left : World
left = (start_login start).1

abbrev back : Search
back = record {
  raw = text "?code=c&state=…";
  params =
      (text "code", text "c")
      ∷ (text "state", or_else (param (text "state") (query_of left.location)) [])
      ∷ [];
}

begun : start_login start ≡ (ok tt, left)
unfolding start_login discover effects draw random_string
begun = refl

provider : Provides left.parse_json
unfolding start_login discover effects draw random_string as_token_set Json.property Json.lookup
    text text_eq
provider = record {
  document = record { status = 200; body = text "T"; elapsed = 10 };
  document_ok = refl;
  document_fields =
      field (text "access_token") (str (text "a2")) (field (text "expires_in") (num 300) end);
  document_parsed = refl;
  granted = record { status = 200; body = text "T"; elapsed = 10 };
  granted_ok = refl;
  token_fields =
      field (text "access_token") (str (text "a2")) (field (text "expires_in") (num 300) end);
  token_parsed = refl;
  access_token = text "a2";
  has_access = refl;
  access_given = refl;
  user = record { status = 403; body = text "E"; elapsed = 10 };
  user_json = obj (field (text "error") (str (text "no such site")) end);
  user_parsed = refl;
  lasts = omega arith;
}

comes_back : SendsBack (query_of left.location) back
unfolding start_login discover effects draw random_string param login_query text text_eq
comes_back = record {
  not_denied = refl;
  code = text "c";
  has_code = refl;
  code_given = refl;
  same_state = refl;
}

start_login-handle_callback_example :
    (session : SessionData) × (w3 : World) × (handle_callback back
        (reloaded (provided provider) left)
      ≡ (ok session, w3))
    × (w3.session ≡ holds session)
    × (is_authenticated w3 ≡ true)
start_login-handle_callback_example =
    start_login-handle_callback start left back provider begun comes_back
