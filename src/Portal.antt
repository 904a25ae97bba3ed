-- ===== src/Portal.antt =====
-- web/src/app/routes.tsx: which component the portal shows at an address. How the router matches an
-- address with the patterns is a parameter.
pub mod Public
pub mod Redirects
mod Tests
use lab_keeper.Common.{
  Bool, List, Option, Text, [], false, if◌then◌else◌, none, some, suc, text, true, zero, ℕ, ◌∷◌,
}
use lab_keeper.Oidc.World.{World}
use lab_keeper.Entry.{Shown, redirecting, shows_app, guard_shows, guard_effect, legacy_target}

-- The elements of the table; `navigate_to` is `<Navigate to=… replace />`.
pub data Element : Type 0 where
  login_page callback_page root_redirect : Element
  labkeeper_detail site_detail host_detail legacy_host_redirect : Element
  navigate_to : Text → Element

-- `in_shell` is a route below `<Route element={<AppShell />}>`.
pub record Route : Type 0 where
  pub path : Text
  pub in_shell : Bool
  pub element : Element

abbrev open_route : Text → Element → Route
open_route path element = record { path = path; in_shell = false; element = element }

abbrev pub shell_route : Text → Element → Route
shell_route path element = record { path = path; in_shell = true; element = element }

abbrev pub app_routes : List Route
app_routes =
    open_route (text "/login") login_page
    ∷ open_route (text "/callback") callback_page
    ∷ open_route (text "/") root_redirect
    ∷ shell_route (text "/labkeeper") labkeeper_detail
    ∷ shell_route (text "/credentials") (navigate_to (text "/labkeeper"))
    ∷ shell_route (text "/sites/:siteId") site_detail
    ∷ shell_route (text "/hosts/:hostId") host_detail
    ∷ shell_route (text "/sites/:siteId/hosts/:hostId") legacy_host_redirect
    ∷ shell_route (text "/inventory") (navigate_to (text "/labkeeper"))
    ∷ []

-- The route that the router chooses for an address, with the `hostId` of the address.
abbrev pub Router : Type 0
Router = Text → Option (Route × Option Text)

pub data Screen : Type 0 where
  nothing : Screen
  redirecting_words : Screen
  login_screen callback_screen : Screen
  shell_screen : Element → Screen
  goes_to : Text → Screen

-- The early return of `AppShell` and of `RootRedirect`
abbrev pub guarded : Shown → Screen → Screen
guarded redirecting screen = redirecting_words
guarded shows_app screen = screen

abbrev pub element_screen : Shown → Element → Option Text → Screen
element_screen shown login_page host_id = login_screen
element_screen shown callback_page host_id = callback_screen
element_screen shown root_redirect host_id = guarded shown (goes_to (text "/labkeeper"))
element_screen shown legacy_host_redirect host_id = goes_to (legacy_target host_id)
element_screen shown (navigate_to to) host_id = goes_to to
element_screen shown element host_id = shell_screen element

abbrev pub route_screen : Shown → Option (Route × Option Text) → Screen
route_screen shown none = nothing
route_screen shown (some (route, host_id)) =
    if route.in_shell
    then guarded shown (element_screen shown route.element host_id)
    else element_screen shown route.element host_id

-- `AppRoutes` at an address
unfoldable pub app_routes_at : Router → World → Text → Screen
app_routes_at choose w address = route_screen (guard_shows w) (choose address)

abbrev pub next_address : Screen → Option Text
next_address (goes_to address) = some address
next_address screen = none

-- What is shown after at most so many navigations.
unfoldable pub follow : ℕ → Router → World → Text → Screen
unfolding app_routes_at
follow zero choose w address = app_routes_at choose w address
follow (suc n) choose w address =
    let here = app_routes_at choose w address in
    elim (next_address here) [ none ↦ here | some to ↦ follow n choose w to ]
