-- ===== src/Api/Fetch.antt =====
-- `apiFetch` and `readError` of web/src/lib/api.ts.
pub mod Retries
pub mod Outcomes
pub mod Calls
pub mod Renewal
use lab_keeper.Common.{
  Option, Text, [], decimal, if◌then◌else◌, non_empty, none, not, or_else, some, text, truthy, ◌++◌,
  ◌==◌,
}
use lab_keeper.Json
use lab_keeper.Json.{Json, property, as_text}
use lab_keeper.Oidc.Types.{Failure, session_expired, error, syntax_error}
use lab_keeper.Oidc.World.{
  World, Slot, Method, get, Body, empty, Request, Response, Result, Action, ok, throws, ◌>>=◌, ◌>>◌,
  pure, throw, gets, need, throw_if, fetch, is_ok, response_json,
}
use lab_keeper.Oidc.Session.{refresh_access_token, ensure_access_token}
use lab_keeper.Oidc.Login.{handle_session_expired}
use lab_keeper.Api.Uri.{api_base}

-- `RequestInit`, as far as the module sets it.
pub record Init : Type 0 where
  pub method : Method
  pub content_type : Option Text
  pub body : Body

abbrev pub plain : Init
plain = record { method = get; content_type = none; body = empty }

-- `try { … } catch (err) { … }`
unfoldable pub catch_with : {A : Type 0} → Action A → (Failure → Action A) → Action A
catch_with m handler w = let (r, w') = m w in elim r [ ok a ↦ (ok a, w') | throws e ↦ handler e w' ]

-- The first `catch`: the login starts again if the session has expired; the error goes on.
unfoldable pub rethrow_expired : Failure → Action Text
rethrow_expired (session_expired m) = handle_session_expired >> throw (session_expired m)
rethrow_expired e = throw e

unfoldable pub usable_token : Action Text
usable_token = catch_with ensure_access_token rethrow_expired

abbrev pub api_request : World → Text → Init → Text → Request
api_request w path init access_token = record {
  url = api_base w ++ path;
  method = init.method;
  authorization = some (text "Bearer " ++ access_token);
  content_type = init.content_type;
  body = init.body;
}

-- One request with the token; a 401 is left to `unauthorized`.
unfoldable pub attempt : Action Response → Text → Init → Action Response
attempt unauthorized path init = do
  access_token ← usable_token
  request ← gets (λ w. api_request w path init access_token)
  response ← fetch request
  if response.status == 401 then unauthorized else pure response

unfoldable pub give_up : {A : Type 0} → Text → Action A
give_up message = handle_session_expired >> throw (session_expired message)

-- `apiFetch(path, init, true)`
unfoldable pub api_fetch_retried : Text → Init → Action Response
api_fetch_retried path init = attempt (give_up (text "Unauthorized after refresh")) path init

-- The `try` block round the refresh.
unfoldable pub refresh_or_give_up : Action (Unit {0})
refresh_or_give_up =
    catch_with (refresh_access_token >>= λ _. pure tt) (λ _. give_up (text "Unauthorized"))

unfoldable pub api_fetch : Text → Init → Action Response
api_fetch path init = attempt (refresh_or_give_up >> api_fetch_retried path init) path init

-- `parsed.error`, if the text is the JSON of an object with such a field that is not empty.
abbrev pub reported_error : Option Json → Option Text
reported_error none = none
reported_error (some parsed) = as_text (property (text "error") parsed)

unfoldable pub read_error : (Text → Option Json) → Response → Text → Text
read_error parse_json response fallback =
    if non_empty response.body
    then (if truthy (reported_error (parse_json response.body))
        then or_else (reported_error (parse_json response.body)) []
        else response.body)
    else fallback ++ text ": " ++ decimal response.status

-- `if (!response.ok) throw new Error(await readError(response, …))`
unfoldable pub check_ok : Response → Text → Action (Unit {0})
check_ok response fallback w =
    throw_if (not (is_ok response)) (error (read_error w.parse_json response fallback)) w

-- What every function of the module does: the request, the check, and the parsed result. The cast
-- of the result changes nothing.
unfoldable pub call : Text → Init → Text → Action Json
call path init fallback = do
  response ← api_fetch path init
  check_ok response fallback
  response_json response

-- A deletion reads no result.
unfoldable pub call_void : Text → Init → Text → Action (Unit {0})
call_void path init fallback = do response ← api_fetch path init; check_ok response fallback
