-- ===== src/Config.antt =====
-- web/src/lib/config.ts: the settings that the build takes from its environment.
pub mod Laws
mod Tests
use lab_keeper.Common.{
  Option, Text, ends_with, if◌then◌else◌, length, non_empty, none, or_else, slice_off, some, text,
  ◌++◌,
}

-- `import.meta.env`: a variable that is not set is `none`.
pub record Env : Type 0 where
  pub oidc_issuer : Option Text
  pub oidc_client_id : Option Text
  pub oidc_redirect_uri : Option Text
  pub oidc_post_logout_redirect_uri : Option Text
  pub oidc_login_label : Option Text
  pub api_url : Option Text

abbrev pub default_issuer : Text
default_issuer = text "http://min-idp:8081"

abbrev pub default_client_id : Text
default_client_id = text "default"

abbrev pub default_redirect_uri : Text
default_redirect_uri = text "http://labkeeper:5173/callback"

abbrev pub default_post_logout_redirect_uri : Text
default_post_logout_redirect_uri = text "http://labkeeper:5173/login"

abbrev pub default_login_label : Text
default_login_label = text "Login with SSO"

abbrev pub default_api_url : Text
default_api_url = text "http://labkeeper:8080"

unfoldable pub issuer : Env → Text
issuer env = or_else env.oidc_issuer default_issuer

unfoldable pub client_id : Env → Text
client_id env = or_else env.oidc_client_id default_client_id

unfoldable pub redirect_uri : Env → Text
redirect_uri env = or_else env.oidc_redirect_uri default_redirect_uri

abbrev callback_suffix : Text
callback_suffix = text "/callback"

-- The part of `postLogoutRedirectUri` behind the early return.
unfoldable pub derived_logout_uri : Text → Text
derived_logout_uri callback =
    if ends_with callback (text "/callback")
    then slice_off callback (length (text "/callback")) ++ text "/login"
    else default_post_logout_redirect_uri

unfoldable pub configured_logout_uri : Option Text → Text → Text
configured_logout_uri none derived = derived
configured_logout_uri (some configured) derived =
    if non_empty configured then configured else derived

unfoldable pub post_logout_redirect_uri : Env → Text
unfolding derived_logout_uri configured_logout_uri redirect_uri
post_logout_redirect_uri env =
    configured_logout_uri env.oidc_post_logout_redirect_uri (derived_logout_uri (redirect_uri env))

unfoldable pub login_label : Env → Text
login_label env = or_else env.oidc_login_label default_login_label

unfoldable pub api_url : Env → Text
api_url env = or_else env.api_url default_api_url
