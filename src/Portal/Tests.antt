-- ===== src/Portal/Tests.antt =====
-- The routes of web/src/app/routes.tsx with a small router.
use lab_keeper.Common.{
  Bool, Option, Text, [], drop, false, inl, inr, none, refl, some, take, text, text_eq, true, ◌≡◌,
}
use lab_keeper.Oidc.World.{World, absent}
use lab_keeper.Oidc.Session.{is_authenticated, load_session, read_session, is_access_token_fresh}
use lab_keeper.Oidc.Samples.{sample_world}
use lab_keeper.Portal.{
  labkeeper_detail, host_detail, Route, shell_route, app_routes, Router, navigate_to, app_routes_at,
}
use lab_keeper.Portal.Public.{Listed, ChoosesFrom, IsPublic, app_routes_at-IsPublic}

abbrev home_route : Route
home_route = shell_route (text "/labkeeper") labkeeper_detail

abbrev host_route : Route
host_route = shell_route (text "/hosts/:hostId") host_detail

abbrev old_route : Route
old_route = shell_route (text "/inventory") (navigate_to (text "/labkeeper"))

-- It knows three of the routes.
abbrev small_choice : Bool → Bool → Bool → Option Text → Option (Route × Option Text)
small_choice true host old id = some (home_route, none)
small_choice false true old id = some (host_route, id)
small_choice false false true id = some (old_route, none)
small_choice false false false id = none

abbrev small_router : Router
small_router address =
    small_choice (text_eq address (text "/labkeeper")) (text_eq (take 7 address) (text "/hosts/"))
      (text_eq address (text "/inventory")) (some (drop 7 address))

small_chosen :
    (home host old : Bool) (id : Option Text) (route : Route) (host_id : Option Text)
    → small_choice home host old id ≡ some (route, host_id)
    → Listed route app_routes
small_chosen true host old id route host_id h = inr (inr (inr (inl (cc))))
small_chosen false true old id route host_id h = inr (inr (inr (inr (inr (inr (inl (cc)))))))
small_chosen false false true id route host_id h =
    inr (inr (inr (inr (inr (inr (inr (inr (inl (cc)))))))))
small_chosen false false false id route host_id h = cc

small_from_table : ChoosesFrom app_routes small_router
small_from_table address route host_id h =
    small_chosen (text_eq address (text "/labkeeper")) (text_eq (take 7 address) (text "/hosts/"))
      (text_eq address (text "/inventory")) (some (drop 7 address)) route host_id h

abbrev outside : World
outside = record (sample_world []) { session = absent }

nobody : is_authenticated outside ≡ false
unfolding is_authenticated load_session read_session is_access_token_fresh
nobody = refl

app_routes_at-IsPublic_example : IsPublic (app_routes_at small_router outside (text "/hosts/7"))
app_routes_at-IsPublic_example =
    app_routes_at-IsPublic small_router outside (text "/hosts/7") small_from_table nobody
