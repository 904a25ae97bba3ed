-- ===== src/Oidc/Flights/Revival.antt =====
-- How an exchange of `refreshAccessToken` in web/src/lib/oidc.ts ends when the page's session has changed
-- since it began.
use lab_keeper.Common.{none, ◌≡◌}
use lab_keeper.Oidc.Types.{SessionData, TokenSet}
use lab_keeper.Oidc.World.{World, Result}
use lab_keeper.Oidc.Rules.{After}
use lab_keeper.Oidc.Refresh.{IsRenewed, Lost}
use lab_keeper.Oidc.Flights.{Flights, settle_all}

-- The result that the calls have, and the world in which they have it.
abbrev pub EndsAs : SessionData → TokenSet → Flights → Flights → Type 0
EndsAs session old s s' =
    (r : Result TokenSet) × (s'.settled ≡ settle_all s.waiting r s.settled)
    × (s'.in_flight ≡ none)
    × After (r, s'.world) (IsRenewed session old) (Lost s.world.session)
