-- ===== src/Oidc/Tests.antt =====
-- Runs of the login and the refresh of web/src/lib/oidc.ts, and the theorems at concrete worlds.
use lab_keeper.Common.{[], arith, refl, some, text, text_eq, ◌∷◌, ◌≡◌, ◌≢◌}
use lab_keeper.Json.{property, lookup}
use lab_keeper.Oidc.Types.{as_token_set, syntax_error}
use lab_keeper.Oidc.World.{World, absent, ok, throws, effects, fetch, response_json}
use lab_keeper.Oidc.Rules.{After}
use lab_keeper.Oidc.Session.{
  discover, ensure_stored, is_access_token_fresh, access_token_expires_at, renew,
  exchange_refresh_token, read_tokens, stamp_expiry, merge_tokens, save_session, load_session,
  do_refresh_access_token, ensure_access_token,
}
use lab_keeper.Oidc.Login.{
  exchange_code, exchange_request, fetch_userinfo, Search, start_login, do_handle_callback, param,
  logout,
}
use lab_keeper.Oidc.Redirect.{IsRedirect, Plain, start_login-IsRedirect}
use lab_keeper.Oidc.Refresh.Ensure.{IsUsable, IsOut, ensure_access_token-IsUsable}
use lab_keeper.Oidc.Callback.{do_handle_callback_mismatch}
use lab_keeper.Oidc.Callback.Exchange.{IsLoggedIn, do_handle_callback-IsLoggedIn}
use lab_keeper.Oidc.Logout.{IsSignedOut, IsLeaving, logout-IsSignedOut}
use lab_keeper.Oidc.Samples.{sample_world, sample_login, sample_pending, reply}

abbrev stale_world : World
stale_world = record (sample_world (reply 200 (text "T") ∷ [])) { now = 400000 }

abbrev good_search : Search
good_search = record {
  raw = text "?code=c&state=s";
  params = (text "code", text "c") ∷ (text "state", text "s") ∷ [];
}

abbrev forged_search : Search
forged_search = record {
  raw = text "?code=c&state=x";
  params = (text "code", text "c") ∷ (text "state", text "x") ∷ [];
}

ensure_access_token-IsUsable_example :
    After (ensure_access_token stale_world) IsUsable (IsOut stale_world.session)
ensure_access_token-IsUsable_example = ensure_access_token-IsUsable stale_world

start_login-IsRedirect_example : After (start_login (sample_world [])) (λ _. IsRedirect) Plain
start_login-IsRedirect_example = start_login-IsRedirect (sample_world [])

abbrev login_world : World
login_world = sample_login (reply 200 (text "T") ∷ reply 200 (text "U") ∷ [])

do_handle_callback-IsLoggedIn_example :
    After
      (do_handle_callback good_search login_world)
      (IsLoggedIn good_search login_world)
      (λ _ w'. w'.session ≡ absent)
do_handle_callback-IsLoggedIn_example = do_handle_callback-IsLoggedIn good_search login_world

forged_state : param (text "state") forged_search.params ≢ some sample_pending.state
unfolding param text text_eq
forged_state h = ground arith

do_handle_callback_mismatch_example :
    After (do_handle_callback forged_search login_world) (λ _ _. ⊥) (λ _ w'. w' ≡ login_world)
do_handle_callback_mismatch_example =
    do_handle_callback_mismatch forged_search login_world sample_pending refl forged_state

-- A stale token is renewed by one request, and the new one is handed out.
renewed : (ensure_access_token stale_world).0 ≡ ok (text "a2")
unfolding ensure_access_token ensure_stored load_session is_access_token_fresh
    access_token_expires_at renew do_refresh_access_token exchange_refresh_token discover effects
    fetch response_json read_tokens stamp_expiry merge_tokens save_session as_token_set property
    lookup text text_eq
renewed = refl

-- The provider answers the login; the answer for the user is no JSON, so the call fails.
logged_in : (do_handle_callback good_search login_world).0 ≡ throws syntax_error
unfolding do_handle_callback param exchange_code exchange_request fetch_userinfo discover effects
    fetch response_json read_tokens stamp_expiry save_session as_token_set property lookup text
    text_eq
logged_in = refl

logout-IsSignedOut_example :
    let w = sample_world (reply 200 (text "T") ∷ []) in
    After
      (logout w)
      (λ _ w'. IsSignedOut w' × IsLeaving (load_session w).tokens w')
      (λ _. IsSignedOut)
logout-IsSignedOut_example = logout-IsSignedOut (sample_world (reply 200 (text "T") ∷ []))
