-- ===== src/Portal/Redirects.antt =====
-- The navigations that web/src/app/routes.tsx makes by itself come to an end.
use lab_keeper.Common.{Option, Text, none, some, text, ◌++◌, ◌≡◌, ◌⊎◌}
use lab_keeper.Oidc.World.{World}
use lab_keeper.Entry.{Shown}
use lab_keeper.Portal.{
  labkeeper_detail, host_detail, Route, shell_route, app_routes, Router, Screen, goes_to,
  route_screen, next_address,
}
use lab_keeper.Portal.Public.{ChoosesFrom}

-- What the router does with the addresses to which the portal navigates: it takes the route with that
-- path, and below "/hosts/" the one of the hosts or none.
pub record Matches (choose : Router) : Type 0 where
  pub from_table : ChoosesFrom app_routes choose
  pub labkeeper :
      choose (text "/labkeeper") ≡ some (shell_route (text "/labkeeper") labkeeper_detail, none)
  pub hosts :
      (id : Text)
      → (choose (text "/hosts/" ++ id) ≡ none)
        ⊎ ((host_id : Option Text) × (choose (text "/hosts/" ++ id)
              ≡ some (shell_route (text "/hosts/:hostId") host_detail, host_id)))

abbrev pub IsFinal : Screen → Type 0
IsFinal screen = next_address screen ≡ none

-- The addresses to which the portal navigates.
abbrev IsTarget : Text → Type 0
IsTarget address = (address ≡ text "/labkeeper") ⊎ ((id : Text) × (address ≡ text "/hosts/" ++ id))

abbrev HasTarget : Screen → Type 0
HasTarget (goes_to address) = IsTarget address
HasTarget screen = Unit

abbrev Navigates : Route → Type 0
Navigates route =
    (shown : Shown) (host_id : Option Text) → HasTarget (route_screen shown (some (route, host_id)))
