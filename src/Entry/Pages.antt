-- ===== src/Entry/Pages.antt =====
-- What web/src/pages/LoginPage.tsx, web/src/pages/CallbackPage.tsx, web/src/components/LoginButton.tsx and
-- web/src/components/AppShell.tsx show.
use lab_keeper.Common.{
  Bool, List, Option, Text, [], false, or_else, or_text, refl, text, true, ◌++◌, ◌∷◌, ◌≡◌,
}
use lab_keeper.Config
use lab_keeper.Oidc.Types.{UserInfo, TokenSet}
use lab_keeper.Oidc.World.{World, Result, ok, throws}
use lab_keeper.Oidc.Rules.{After}
use lab_keeper.Oidc.Session.{load_session, is_authenticated}
use lab_keeper.Oidc.Login.{logout}
use lab_keeper.Oidc.Logout.{IsSignedOut, IsLeaving, logout-IsSignedOut}
use lab_keeper.Items.{Item, words, button, link, mounts, error_words}
use lab_keeper.Entry.{CallbackView, Shown, redirecting, shows_app, guard_shows, display_name}

-- `handleClick` of the login button, and `logout` of the shell
pub data Click : Type 0 where
  sign_in sign_out : Click

-- `page` is the `Outlet` of the shell.
pub data Child : Type 0 where
  theme_toggle sidebar_tree page : Child
  login_button : Text → Child

unfoldable pub button_items : Text → List (Item Click Child)
button_items label = button label false sign_in ∷ []

abbrev pub way_in : Bool → World → List (Item Click Child)
way_in true w =
    words (text "You are already signed in.")
    ∷ link (text "/labkeeper") (text "Go to LabKeeper")
    ∷ []
way_in false w = mounts (login_button (Config.login_label w.env)) ∷ []

-- `LoginPage`, with the message of its button
unfoldable pub login_items : Option Text → World → List (Item Click Child)
login_items error w =
    mounts theme_toggle
    ∷ words (text "LabKeeper Admin")
    ∷ words (text "Sign in to manage your Inventory.")
    ∷ words (text "Issuer")
    ∷ words (Config.issuer w.env)
    ∷ words (text "Client ID")
    ∷ words (Config.client_id w.env)
    ∷ words (text "Redirect URI")
    ∷ words (Config.redirect_uri w.env)
    ∷ (error_words error ++ way_in (is_authenticated w) w)

unfoldable pub callback_items : CallbackView → List (Item Click Child)
callback_items v =
    words (text "LabKeeper Portal")
    ∷ words (or_text (or_else v.error []) (text "Completing sign-in…"))
    ∷ []

abbrev pub shell_shown : Shown → Option Text → Option UserInfo → List (Item Click Child)
shell_shown redirecting preferred user = words (text "Redirecting to sign in…") ∷ []
shell_shown shows_app preferred user =
    link (text "/labkeeper") (text "LabKeeper Admin")
    ∷ words (display_name preferred user)
    ∷ mounts theme_toggle
    ∷ button (text "Sign out") false sign_out
    ∷ mounts sidebar_tree
    ∷ mounts page
    ∷ []

-- `AppShell`; the first argument is the stored user's `preferred_username`.
unfoldable pub shell_items : Option Text → World → List (Item Click Child)
shell_items preferred w = shell_shown (guard_shows w) preferred (load_session w).userinfo

out-shell_items :
    (preferred : Option Text) (w : World)
    → is_authenticated w ≡ false
    → shell_items preferred w ≡ words (text "Redirecting to sign in…") ∷ []
unfolding shell_items guard_shows
out-shell_items preferred w out = rw out refl

ended_out :
    (tokens : Option TokenSet) (r : Result (Unit {0}) × World)
    → After r (λ _ w'. IsSignedOut w' × IsLeaving tokens w') (λ _. IsSignedOut)
    → is_authenticated r.1 ≡ false
ended_out tokens (ok done, w') h = h.0.1
ended_out tokens (throws e, w') h = h.1

-- However the network answers a logout, the shell shows nothing of the portal after it: neither the tree, nor the
-- page, nor the user's name.
pub logout-shell_items :
    (preferred : Option Text) (w : World)
    → shell_items preferred (logout w).1 ≡ words (text "Redirecting to sign in…") ∷ []
logout-shell_items preferred w =
    out-shell_items preferred (logout w).1
      (ended_out (load_session w).tokens (logout w) (logout-IsSignedOut w))
