-- ===== src/Portal/Public.antt =====
-- What web/src/app/routes.tsx shows to somebody who is not signed in.
use lab_keeper.Common.{
  All, List, Option, Text, [], false, inl, inr, none, refl, some, subst, sym, ◌∷◌, ◌≡◌, ◌⊎◌,
}
use lab_keeper.Oidc.World.{World}
use lab_keeper.Oidc.Session.{is_authenticated}
use lab_keeper.Entry.{redirecting, guard_shows}
use lab_keeper.Portal.{
  Route, app_routes, Router, Screen, shell_screen, goes_to, route_screen, app_routes_at,
}

abbrev pub Listed : Route → List Route → Type 0
Listed route [] = ⊥
Listed route (r ∷ rs) = (route ≡ r) ⊎ Listed route rs

-- The router chooses among the routes of the table.
abbrev pub ChoosesFrom : List Route → Router → Type 0
ChoosesFrom routes choose =
    (address : Text) (route : Route) (host_id : Option Text)
    → choose address ≡ some (route, host_id)
    → Listed route routes

-- The login page, the callback page, and the words that a login begins.
abbrev pub IsPublic : Screen → Type 0
IsPublic (shell_screen element) = ⊥
IsPublic (goes_to address) = ⊥
IsPublic screen = Unit

abbrev IsGuarded : Route → Type 0
IsGuarded route =
    (host_id : Option Text) → IsPublic (route_screen redirecting (some (route, host_id)))

-- What holds of all routes holds of a listed one.
pub Listed-All :
    (P : Route → Type 0) (route : Route) (routes : List Route)
    → All P routes
    → Listed route routes
    → P route
unfolding All
Listed-All P route [] h listed = absurd listed
Listed-All P route (r ∷ rs) (h, hs) (inl same) = subst P (sym same) h
Listed-All P route (r ∷ rs) (h, hs) (inr later) = Listed-All P route rs hs later

app_routes-IsGuarded : All IsGuarded app_routes
unfolding All
app_routes-IsGuarded = (
  λ i. tt,
  (λ i. tt, (λ i. tt, (λ i. tt, (λ i. tt, (λ i. tt, (λ i. tt, (λ i. tt, (λ i. tt, tt)))))))),
)

chosen-IsPublic :
    (o : Option (Route × Option Text))
    → ((route : Route) (host_id : Option Text)
        → o ≡ some (route, host_id)
        → Listed route app_routes)
    → IsPublic (route_screen redirecting o)
chosen-IsPublic none h = tt
chosen-IsPublic (some (route, host_id)) h =
    Listed-All IsGuarded route app_routes app_routes-IsGuarded (h route host_id refl) host_id

-- Whoever is not signed in sees no page of the inventory at any address, and is sent to none: only the
-- login page, the callback page, the words that a login begins, or nothing, as long as the
-- router keeps to the table of routes.
pub app_routes_at-IsPublic :
    (choose : Router) (w : World) (address : Text)
    → ChoosesFrom app_routes choose
    → is_authenticated w ≡ false
    → IsPublic (app_routes_at choose w address)
unfolding app_routes_at guard_shows
app_routes_at-IsPublic choose w address keeps out =
    rw out (chosen-IsPublic (choose address) (keeps address))
