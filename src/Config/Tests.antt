-- ===== src/Config/Tests.antt =====
-- The settings of web/src/lib/config.ts at concrete environments.
use lab_keeper.Common.{ends_with, none, refl, slice_off, some, text, text_eq, ◌≡◌}
use lab_keeper.Config.{Env, post_logout_redirect_uri}

abbrev lan_env : Env
lan_env = record {
  oidc_issuer = none;
  oidc_client_id = none;
  oidc_redirect_uri = some (text "http://lan/callback");
  oidc_post_logout_redirect_uri = some (text "");
  oidc_login_label = none;
  api_url = none;
}

derived : post_logout_redirect_uri lan_env ≡ text "http://lan/login"
unfolding post_logout_redirect_uri text ends_with slice_off text_eq
derived = refl
