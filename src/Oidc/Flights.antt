-- ===== src/Oidc/Flights.antt =====
-- `refreshAccessToken` of web/src/lib/oidc.ts while calls overlap: the promise `refreshInFlight`, which
-- all callers share until it settles. What else the page does in the meantime may change the world in any
-- way. The requests of an exchange are made when it ends, with the session that it read when it began.
pub mod Sharing
pub mod Revival
mod Tests
use lab_keeper.Common.{List, Option, [], none, some, suc, ℕ, ◌∷◌}
use lab_keeper.Oidc.Types.{SessionData, TokenSet, Failure}
use lab_keeper.Oidc.World.{World, Result, ok, throws}
use lab_keeper.Oidc.Session.{load_session, refresh_session}

pub record Flights : Type 0 where
  pub world : World
  -- `refreshInFlight`: the session that the exchange under way has read
  pub in_flight : Option SessionData
  -- the calls that wait for it, and those that have settled
  pub waiting : List ℕ
  pub settled : List (ℕ × Result TokenSet)
  -- how many exchanges have begun
  pub begun : ℕ

abbrev pub grounded : World → Flights
grounded w = record { world = w; in_flight = none; waiting = []; settled = []; begun = 0 }

abbrev pub join_flight : Option SessionData → ℕ → Flights → Flights
join_flight none caller s = record s {
  in_flight = some (load_session s.world);
  waiting = caller ∷ [];
  begun = suc s.begun;
}
join_flight (some session) caller s = record s { waiting = caller ∷ s.waiting }

-- `refreshAccessToken()`, up to the `await` of its caller
unfoldable pub call_refresh : ℕ → Flights → Flights
call_refresh caller s = join_flight s.in_flight caller s

abbrev pub settle_all :
    List ℕ → Result TokenSet → List (ℕ × Result TokenSet) → List (ℕ × Result TokenSet)
settle_all [] r settled = settled
settle_all (caller ∷ callers) r settled = (caller, r) ∷ settle_all callers r settled

abbrev pub land : Option SessionData → Flights → Flights
land none s = s
land (some session) s =
    let (r, w') = refresh_session session session.tokens s.world in
    record s {
      world = w';
      in_flight = none;
      waiting = [];
      settled = settle_all s.waiting r s.settled;
    }

-- The exchange ends: `finally` clears `refreshInFlight`, and all callers have the result.
unfoldable pub end_flight : Flights → Flights
end_flight s = land s.in_flight s

pub data Event : Type 0 where
  calls : ℕ → Event
  ends : Event
  meanwhile : (World → World) → Event

unfoldable pub step : Event → Flights → Flights
unfolding call_refresh end_flight
step (calls caller) s = call_refresh caller s
step ends s = end_flight s
step (meanwhile f) s = record s { world = f s.world }

unfoldable pub play : List Event → Flights → Flights
unfolding step
play [] s = s
play (e ∷ es) s = play es (step e s)
