-- ===== src/Oidc/Flights/Tests.antt =====
-- Overlapping refreshes of web/src/lib/oidc.ts, at concrete sequences of events.
use lab_keeper.Common.{List, [], inl, inr, refl, some, text, text_eq, ◌++◌, ◌∷◌, ◌≡◌, ◌≤◌}
use lab_keeper.Json.{property, lookup}
use lab_keeper.Oidc.Types.{as_token_set}
use lab_keeper.Oidc.World.{World, absent, holds, effects, fetch, response_json}
use lab_keeper.Oidc.Session.{
  discover, exchange_refresh_token, read_tokens, stamp_expiry, merge_tokens, save_session,
}
use lab_keeper.Oidc.Flights.{Flights, grounded, end_flight, Event, calls, ends, meanwhile, play}
use lab_keeper.Oidc.Flights.Sharing.{Settled, play-Settled}
use lab_keeper.Oidc.Samples.{sample_world, sample_session, sample_tokens, reply}

-- Two calls, a logout while the exchange is under way, its end, and a third call.
abbrev logout : World → World
logout w = record w { session = absent }

abbrev overlap : List Event
overlap = calls 1 ∷ calls 2 ∷ meanwhile logout ∷ ends ∷ calls 3 ∷ []

abbrev overlap_world : World
overlap_world = sample_world (reply 200 (text "T") ∷ [])

play-Settled_example :
    Settled 3 (play (overlap ++ ends ∷ []) (grounded overlap_world)).settled
    × ((play (overlap ++ ends ∷ []) (grounded overlap_world)).waiting ≡ [])
    × ((play overlap (grounded overlap_world)).begun ≤ 2)
play-Settled_example = play-Settled overlap overlap_world 3 (inr (inr (inl refl)))

abbrev signed_out : Flights
signed_out = record {
  world = logout overlap_world;
  in_flight = some sample_session;
  waiting = 2 ∷ 1 ∷ [];
  settled = [];
  begun = 1;
}

-- The session is back after the logout.
revived :
    (end_flight signed_out).world.session
    ≡ holds (record sample_session {
      tokens =
          some (record sample_tokens { access_token = some (text "a2"); expires_at = some 301010 });
    })
unfolding end_flight exchange_refresh_token discover effects fetch response_json read_tokens
    stamp_expiry merge_tokens save_session as_token_set property lookup text text_eq
revived = refl
