-- ===== src/Oidc/Promises/Tests.antt =====
-- Overlapping callbacks of web/src/lib/oidc.ts, at a concrete sequence of events.
use lab_keeper.Common.{[], text, ◌∷◌, ◌≤◌}
use lab_keeper.Oidc.Types.{SessionData}
use lab_keeper.Oidc.World.{World, Result}
use lab_keeper.Oidc.Login.{Search, exchange_key}
use lab_keeper.Oidc.Samples.{sample_login, reply}
use lab_keeper.Oidc.Promises.{calls, ends, fresh, step, play}
use lab_keeper.Oidc.Promises.Once.{count_key}
use lab_keeper.Oidc.Promises.Sharing.{HasSettled, play-Shared}

abbrev answer : Search
answer = record {
  raw = text "?code=c&state=s";
  params = (text "code", text "c") ∷ (text "state", text "s") ∷ [];
}

abbrev world : World
world = sample_login (reply 200 (text "T") ∷ reply 500 (text "") ∷ [])

-- The page is mounted twice while the exchange is under way, and a third time after it.
play-Shared_example :
    let key = exchange_key answer in
    let ended =
      step (ends key) (play (calls answer ∷ []) (step (calls answer) (play [] (fresh world)))) in
    (r : Result SessionData) × HasSettled key r ended
    × HasSettled key r (play (calls answer ∷ []) ended)
    × (count_key key (play (calls answer ∷ []) ended).begun ≤ 1)
play-Shared_example = play-Shared [] (calls answer ∷ []) (calls answer ∷ []) answer world
