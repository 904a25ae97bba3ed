-- ===== src/Entry.antt =====
-- Where the user comes in: web/src/pages/CallbackPage.tsx, web/src/components/LoginButton.tsx, the
-- guard of web/src/components/AppShell.tsx and of `RootRedirect` in web/src/app/routes.tsx, and the
-- redirect of old addresses there. What they show is in Pages.
pub mod Callback
pub mod Pages
mod Tests
use lab_keeper.Common.{
  Bool, Option, Text, [], if◌then◌else◌, none, or_else, or_text, some, text, truthy, ◌++◌,
}
use lab_keeper.Oidc.Types.{Failure, SessionData, UserInfo, message}
use lab_keeper.Oidc.World.{World, Result, ok, throws}
use lab_keeper.Oidc.Session.{is_authenticated}
use lab_keeper.Oidc.Login.{Search, handle_callback, start_login}

pub record CallbackView : Type 0 where
  pub error : Option Text
  -- the last call of `navigate`
  pub navigated : Option Text

abbrev pub initial_callback : CallbackView
initial_callback = record { error = none; navigated = none }

-- What a page does for a user who is not signed in, and for one who is.
pub data Shown : Type 0 where
  redirecting : Shown
  shows_app : Shown

-- The guard's effect: `if (!isAuthenticated()) void startLogin().catch(…)`
unfoldable pub guard_effect : World → World
guard_effect w = if is_authenticated w then w else (start_login w).1

unfoldable pub guard_shows : World → Shown
guard_shows w = if is_authenticated w then shows_app else redirecting

-- `userinfo?.name || userinfo?.preferred_username || …`; the stored user has no typed field for the
-- second, which is the first argument.
unfoldable pub display_name : Option Text → Option UserInfo → Text
display_name preferred none = text "Signed in"
display_name preferred (some user) = or_text (or_else user.name []) (
    or_text (or_else preferred [])
      (or_text (or_else user.username []) (or_text (or_else user.email []) (text "Signed in"))))

-- `LegacyHostRedirect`
unfoldable pub legacy_target : Option Text → Text
legacy_target host_id =
    if truthy host_id then text "/hosts/" ++ or_else host_id [] else text "/labkeeper"

module _ (engine_message : Failure → Text) where
  unfoldable pub callback_settled : Result SessionData → CallbackView → CallbackView
  callback_settled (ok session) v = record v { navigated = some (text "/labkeeper") }
  callback_settled (throws e) v = record v { error = some (message engine_message e) }

  -- A run of the page's effect; `cancelled` is the flag when the exchange has ended.
  unfoldable pub callback_effect : Search → Bool → CallbackView → World → CallbackView × World
  unfolding callback_settled
  callback_effect search cancelled v w =
      let (r, w') = handle_callback search w in (if cancelled then v else callback_settled r v, w')

  abbrev pub login_error : Result (Unit {0}) → Option Text
  login_error (ok done) = none
  login_error (throws e) = some (message engine_message e)

  -- `handleClick` of the button: the message that `onError` gets, if it is called
  unfoldable pub handle_click : World → Option Text × World
  handle_click w = let (r, w') = start_login w in (login_error r, w')
