-- ===== src/Oidc/Promises.antt =====
-- `handleCallback` of web/src/lib/oidc.ts while calls overlap: the map `pendingExchanges`, in which all
-- calls for one code find the same promise. A call checks the answer at once and may begin an
-- exchange; the requests of the exchange are made when it ends. What else the page does in the meantime may
-- change the world in any way.
pub mod Once
pub mod Admission
pub mod Sharing
mod Tests
use lab_keeper.Common.{List, Option, Text, [], if◌then◌else◌, none, not, some, text, text_eq, ◌∷◌}
use lab_keeper.Oidc.Types.{SessionData, PendingAuth, error}
use lab_keeper.Oidc.World.{World, Result, Action, ok, throws, ◌>>=◌, ◌>>◌, pure, gets, throw_if}
use lab_keeper.Oidc.Login.{
  Search, param, throw_if_denied, need_text, missing_code, read_pending, exchange_code,
  exchange_key,
}

-- A promise of the map: under way for a code and the login it answers, or settled.
pub data Promise : Type 0 where
  open_for : Text → PendingAuth → Promise
  settled : Result SessionData → Promise

pub record Callbacks : Type 0 where
  pub world : World
  -- `pendingExchanges`; the latest entry for a key counts
  pub promises : List (Text × Promise)
  -- the keys for which an exchange has begun
  pub begun : List Text

abbrev pub fresh : World → Callbacks
fresh w = record { world = w; promises = []; begun = [] }

unfoldable pub find_promise : Text → List (Text × Promise) → Option Promise
find_promise key [] = none
find_promise key ((k, p) ∷ rest) = if text_eq k key then some p else find_promise key rest

-- `doHandleCallback` up to its first `await`
unfoldable pub admit : Search → Action (Text × PendingAuth)
admit search = do
  throw_if_denied (param (text "error") search.params)
      (param (text "error_description") search.params)
  code ← need_text (param (text "code") search.params) missing_code
  state ← need_text (param (text "state") search.params) missing_code
  stored ← gets (λ w. w.pending)
  pending ← read_pending stored
  throw_if (not (text_eq pending.state state)) (error (text "State mismatch"))
  pure (code, pending)

abbrev pub set_promise : Text → Result (Text × PendingAuth) × World → Callbacks → Callbacks
set_promise key (throws e, w) s = record s {
  world = w;
  promises = (key, settled (throws e)) ∷ s.promises;
}
set_promise key (ok (code, pending), w) s = record s {
  world = w;
  promises = (key, open_for code pending) ∷ s.promises;
  begun = key ∷ s.begun;
}

abbrev pub join_promise : Option Promise → Text → Search → Callbacks → Callbacks
join_promise none key search s = set_promise key (admit search s.world) s
join_promise (some p) key search s = s

-- `handleCallback`; the caller waits for the promise of its key.
unfoldable pub call_callback : Search → Callbacks → Callbacks
call_callback search s =
    join_promise (find_promise (exchange_key search) s.promises) (exchange_key search) search s

abbrev pub settle : Option Promise → Text → Callbacks → Callbacks
settle none key s = s
settle (some (settled r)) key s = s
settle (some (open_for code pending)) key s =
    let (r, w') = exchange_code code pending s.world in
    record s { world = w'; promises = (key, settled r) ∷ s.promises }

-- The exchange for a key ends.
unfoldable pub end_exchange : Text → Callbacks → Callbacks
end_exchange key s = settle (find_promise key s.promises) key s

pub data Event : Type 0 where
  calls : Search → Event
  ends : Text → Event
  meanwhile : (World → World) → Event

unfoldable pub step : Event → Callbacks → Callbacks
unfolding call_callback end_exchange find_promise
step (calls search) s = call_callback search s
step (ends key) s = end_exchange key s
step (meanwhile f) s = record s { world = f s.world }

unfoldable pub play : List Event → Callbacks → Callbacks
unfolding step
play [] s = s
play (e ∷ es) s = play es (step e s)
