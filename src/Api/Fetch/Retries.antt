-- ===== src/Api/Fetch/Retries.antt =====
-- How often `apiFetch` of web/src/lib/api.ts asks the server.
use lab_keeper.Common.{
  Bool, List, Text, [], arith, false, if◌then◌else◌, is_some, refl, suc, true, ℕ, ◌+◌, ◌==◌, ◌∙◌,
  ◌∷◌, ◌≡◌, ◌≤◌,
}
use lab_keeper.Oidc.Types.{Failure, session_expired}
use lab_keeper.Oidc.World.{
  World, Request, Response, Reply, unreachable, answers, Result, ok, throws, Action, ◌>>=◌, pure,
  fetch, receive,
}
use lab_keeper.Oidc.Login.{handle_session_expired}
use lab_keeper.Oidc.Rules.{Keeps}
use lab_keeper.Oidc.Frames.{
  Frame, bind, gets-frame, pure-frame, throw-frame, ensure_access_token-frame, refresh-frame,
  handle_session_expired-frame,
}
use lab_keeper.Api.Fetch.{
  Init, catch_with, rethrow_expired, usable_token, attempt, give_up, api_fetch_retried,
  refresh_or_give_up, api_fetch,
}

-- The requests that carry an access token.
unfoldable pub authorized : List Request → ℕ
authorized [] = 0
authorized (q ∷ qs) = if is_some q.authorization then suc (authorized qs) else authorized qs

-- No request with an access token goes out in between.
abbrev Quiet : World → World → Type 0
Quiet w w' = authorized w'.sent ≡ authorized w.sent

Quiet-frame : Frame Quiet
unfolding authorized
Quiet-frame = record {
  same = λ w. refl;
  trans = λ u v w p q. q ∙ p;
  sends = λ q w h. rw h;
  receives = λ later t w. refl;
  caches = λ doc w. refl;
  draws = λ n w. refl;
  pends = λ p w. refl;
  goes = λ l w. refl;
}

-- At most `n` requests with an access token.
record Asks (n : ℕ) {A : Type 0} (m : Action A) : Type 0 where
  apply : (w : World) → authorized (m w).1.sent ≤ authorized w.sent + n

Keeps-Asks : {A : Type 0} {m : Action A} → Keeps Quiet m → Asks 0 m
Keeps-Asks h = record { apply = λ w. omega (arith, h.apply w) }

Asks-result :
    {A B : Type 0} (a b : ℕ) (u : World) (m : Result A × World) (f : A → Action B)
    → authorized m.1.sent ≤ authorized u.sent + a
    → ((x : A) → Asks b (f x))
    → authorized (((λ _. m) >>= f) u).1.sent ≤ authorized u.sent + (a + b)
unfolding ◌>>=◌
Asks-result a b u (ok x, w) f h k = omega (arith, (k x).apply w)
Asks-result a b u (throws e, w) f h k = omega arith

Asks-bind :
    {A B : Type 0} (a b : ℕ) {m : Action A} {f : A → Action B}
    → Asks a m
    → ((x : A) → Asks b (f x))
    → Asks (a + b) (m >>= f)
unfolding ◌>>=◌
Asks-bind a b {m} {f} h k = record { apply = λ w. Asks-result a b w (m w) f (h.apply w) k }

catch_result :
    {A : Type 0} (u : World) (m : Result A × World) (handler : Failure → Action A)
    → Quiet u m.1
    → ((e : Failure) → Keeps Quiet (handler e))
    → Quiet u (catch_with (λ _. m) handler u).1
unfolding catch_with
catch_result u (ok a, w) handler h k = h
catch_result u (throws e, w) handler h k = (k e).apply w ∙ h

catch-Quiet :
    {A : Type 0} {m : Action A} {handler : Failure → Action A}
    → Keeps Quiet m
    → ((e : Failure) → Keeps Quiet (handler e))
    → Keeps Quiet (catch_with m handler)
unfolding catch_with
catch-Quiet {m} {handler} h k = record { apply = λ w. catch_result w (m w) handler (h.apply w) k }

expired-Quiet : Keeps Quiet handle_session_expired
expired-Quiet = handle_session_expired-frame Quiet-frame (λ s w. refl)

rethrow-Quiet : (e : Failure) → Keeps Quiet (rethrow_expired e)
unfolding rethrow_expired
rethrow-Quiet (session_expired m) = bind Quiet-frame expired-Quiet λ _. throw-frame Quiet-frame _
rethrow-Quiet _ = throw-frame Quiet-frame _

usable_token-Quiet : Keeps Quiet usable_token
unfolding usable_token
usable_token-Quiet = catch-Quiet (ensure_access_token-frame Quiet-frame (λ s w. refl)) rethrow-Quiet

give_up-Quiet : {A : Type 0} (message : Text) → Keeps Quiet (give_up {A = A} message)
unfolding give_up
give_up-Quiet message = bind Quiet-frame expired-Quiet λ _. throw-frame Quiet-frame _

refresh_or_give_up-Quiet : Keeps Quiet refresh_or_give_up
unfolding refresh_or_give_up
refresh_or_give_up-Quiet =
    catch-Quiet
      (bind Quiet-frame (refresh-frame Quiet-frame (λ s w. refl)) λ _. pure-frame Quiet-frame tt)
      (λ _. give_up-Quiet _)

receive-Quiet : (replies : List Reply) (w : World) → Quiet w (receive replies w).1
unfolding receive
receive-Quiet [] w = refl
receive-Quiet (unreachable ∷ later) w = refl
receive-Quiet (answers r ∷ later) w = refl

fetch-Asks : (q : Request) → Asks 1 (fetch q)
unfolding fetch authorized
fetch-Asks q = record {
  apply = λ w. ground (arith, receive-Quiet w.replies (record w { sent = q ∷ w.sent }));
}

Quiet-bind :
    {A B : Type 0} (n : ℕ) {m : Action A} {f : A → Action B}
    → Keeps Quiet m
    → ((x : A) → Asks n (f x))
    → Asks n (m >>= f)
Quiet-bind n {m} {f} h k =
    let both = Asks-bind 0 n {m = m} (Keeps-Asks h) k in
    record { apply = λ w. omega (arith, both.apply w) }

Asks-weaken : {A : Type 0} {m : Action A} (n k : ℕ) → n ≤ k → Asks n m → Asks k m
Asks-weaken n k le h = record { apply = λ w. omega (arith, h.apply w) }

answer-Asks :
    {n : ℕ} {m : Action Response} (response : Response) (refused : Bool)
    → Asks n m
    → Asks n (if refused then m else pure response)
answer-Asks {n} response true h = h
answer-Asks {n} response false h =
    Asks-weaken 0 n (omega arith) (Keeps-Asks (pure-frame Quiet-frame response))

attempt-Asks :
    {n : ℕ} {m : Action Response} (path : Text) (init : Init)
    → Asks n m
    → Asks (1 + n) (attempt m path init)
unfolding attempt
attempt-Asks {n} {m} path init h = Quiet-bind (1 + n) usable_token-Quiet λ token.
    Quiet-bind (1 + n) (gets-frame Quiet-frame _) λ request.
      Asks-bind 1 n (fetch-Asks request) λ response. answer-Asks response (response.status == 401) h

retried-Asks : (path : Text) (init : Init) → Asks 1 (api_fetch_retried path init)
unfolding api_fetch_retried
retried-Asks path init = attempt-Asks {n = 0} path init (Keeps-Asks (give_up-Quiet _))

api_fetch-Asks : (path : Text) (init : Init) → Asks 2 (api_fetch path init)
unfolding api_fetch
api_fetch-Asks path init =
    attempt-Asks {n = 1} path init
      (Quiet-bind 1 refresh_or_give_up-Quiet λ _. retried-Asks path init)

-- However the network answers, one `apiFetch` sends at most two requests with an access token: the
-- first, and one more after a refresh. The loop through 401 ends.
pub api_fetch-le-two :
    (path : Text) (init : Init) (w : World)
    → authorized (api_fetch path init w).1.sent ≤ authorized w.sent + 2
api_fetch-le-two path init w = (api_fetch-Asks path init).apply w
