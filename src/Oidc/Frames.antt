-- ===== src/Oidc/Frames.antt =====
-- What the functions of web/src/lib/oidc.ts leave alone. A relation between two worlds that the
-- single steps keep is kept by the discovery, the redirect to the login and the refresh.
use lab_keeper.Common.{
  Bool, Bool-cases, List, Option, Text, [], false, inl, inr, none, refl, some, true, truthy, ℕ, ◌+◌,
  ◌∷◌, ◌≡◌,
}
use lab_keeper.Json.{Json}
use lab_keeper.Oidc.Types.{OidcDiscovery, TokenSet, SessionData, PendingAuth, Failure, type_error}
use lab_keeper.Oidc.World.{
  World, Slot, absent, holds, Request, Response, Reply, Location, unreachable, answers, Action,
  ◌>>=◌, pure, throw, gets, need, modify, throw_if, fetch, receive, is_ok, response_json, draw,
}
use lab_keeper.Oidc.Session.{
  stamp_json, renew, discover, plain_get, fetch_discovery, cached_or, parsed_discovery,
  save_session, clear_session, read_tokens, refused_refresh, exchange_refresh_token, refresh_with,
  refresh_session, do_refresh_access_token, ensure_stored, ensure_with, ensure_session,
  ensure_access_token, load_session,
}
use lab_keeper.Oidc.Login.{start_login, random_string, handle_session_expired}
use lab_keeper.Oidc.Rules.{Keeps, Keeps-bind}

-- The steps that touch neither the session nor a request with an access token.
pub record Frame (R : World → World → Type 0) : Type 0 where
  pub same : (w : World) → R w w
  pub trans : (u v w : World) → R u v → R v w → R u w
  pub sends :
      (q : Request) (w : World) → q.authorization ≡ none → R w (record w { sent = q ∷ w.sent })
  pub receives :
      (later : List Reply) (t : ℕ) (w : World) → R w (record w { replies = later; now = t })
  pub caches : (doc : Option OidcDiscovery) (w : World) → R w (record w { discovery_cache = doc })
  pub draws : (n : ℕ) (w : World) → R w (record w { drawn = n })
  pub pends : (p : Slot PendingAuth) (w : World) → R w (record w { pending = p })
  pub goes : (l : Option Location) (w : World) → R w (record w { location = l })

module _ {R : World → World → Type 0} (frame : Frame R) where
  pub bind :
      {A B : Type 0} {m : Action A} {f : A → Action B}
      → Keeps R m
      → ((a : A) → Keeps R (f a))
      → Keeps R (m >>= f)
  bind {m} {f} h k = Keeps-bind R frame.trans m f h k

  pub pure-frame : {A : Type 0} (a : A) → Keeps R (pure a)
  unfolding pure
  pure-frame a = record { apply = frame.same }

  pub throw-frame : {A : Type 0} (e : Failure) → Keeps R (throw {A = A} e)
  unfolding throw
  throw-frame e = record { apply = frame.same }

  pub gets-frame : {A : Type 0} (f : World → A) → Keeps R (gets f)
  unfolding gets
  gets-frame f = record { apply = frame.same }

  pub need-frame : {A : Type 0} (o : Option A) (e : Failure) → Keeps R (need o e)
  unfolding need
  need-frame none e = throw-frame e
  need-frame (some a) e = pure-frame a

  pub throw_if-frame : (b : Bool) (e : Failure) → Keeps R (throw_if b e)
  unfolding throw_if
  throw_if-frame true e = throw-frame e
  throw_if-frame false e = pure-frame tt

  pub modify-frame : (f : World → World) → ((w : World) → R w (f w)) → Keeps R (modify f)
  unfolding modify
  modify-frame f h = record { apply = h }

  receive-frame : (replies : List Reply) (w : World) → R w (receive replies w).1
  unfolding receive
  receive-frame [] w = frame.same w
  receive-frame (unreachable ∷ later) w = frame.receives later w.now w
  receive-frame (answers r ∷ later) w = frame.receives later (w.now + r.elapsed) w

  pub fetch-frame : (q : Request) → q.authorization ≡ none → Keeps R (fetch q)
  unfolding fetch
  fetch-frame q h = record {
    apply = λ w.
        frame.trans w (record w { sent = q ∷ w.sent }) (fetch q w).1 (frame.sends q w h)
          (receive-frame w.replies (record w { sent = q ∷ w.sent }));
  }

  pub response_json-frame : (r : Response) → Keeps R (response_json r)
  unfolding response_json
  response_json-frame r = record { apply = λ w. (need-frame _ _).apply w }

  fetch_discovery-frame : Keeps R fetch_discovery
  unfolding fetch_discovery
  fetch_discovery-frame = bind (gets-frame _) λ url. bind (fetch-frame (plain_get url) refl) λ res.
      bind (throw_if-frame _ _) λ _.
        bind (response_json-frame res)
          λ j. bind (modify-frame _ (frame.caches (parsed_discovery j))) λ _. pure-frame _

  pub discover-frame : Keeps R discover
  unfolding discover
  discover-frame = record { apply = λ w. cached w.discovery_cache w }
    where
      cached : (c : Option OidcDiscovery) (w : World) → R w (cached_or c fetch_discovery w).1
      cached none w = fetch_discovery-frame.apply w
      cached (some doc) w = (pure-frame (some doc)).apply w

  random_string-frame : (n : ℕ) → Keeps R (random_string n)
  unfolding random_string draw
  random_string-frame n =
      bind (record { apply = λ w. frame.draws (w.drawn + n) w }) λ buf. pure-frame _

  pub start_login-frame : Keeps R start_login
  unfolding start_login
  start_login-frame = bind discover-frame λ found. bind (random_string-frame 32) λ verifier.
      bind (gets-frame _) λ challenge. bind (random_string-frame 16) λ state.
        bind (random_string-frame 16) λ nonce. bind (modify-frame _ (frame.pends _)) λ _.
          bind (gets-frame _)
            λ query. bind (need-frame found type_error) λ doc. modify-frame _ (frame.goes _)

-- Actions that write the session too.
module _ {R : World → World → Type 0} (frame : Frame R)
    (stores : (s : Slot SessionData) (w : World) → R w (record w { session = s })) where
  clear_session-frame : Keeps R clear_session
  unfolding clear_session
  clear_session-frame = modify-frame frame _ λ w.
      frame.trans w (record w { session = absent }) _ (stores absent w)
        (frame.pends absent (record w { session = absent }))

  save_session-frame : (session : SessionData) → Keeps R (save_session session)
  unfolding save_session
  save_session-frame session = modify-frame frame _ (stores (holds session))

  stamp_json-frame : (now : ℕ) (j : Json) → Keeps R (stamp_json now j)
  stamp_json-frame now Json.null = throw-frame frame type_error
  stamp_json-frame now _ = pure-frame frame _

  read_tokens-frame : (res : Response) → Keeps R (read_tokens res)
  unfolding read_tokens
  read_tokens-frame res =
      bind frame (response_json-frame frame res)
        λ j. bind frame (gets-frame frame _) λ now. stamp_json-frame now j

  refused_refresh-frame : (res : Response) → Keeps R (refused_refresh res)
  refused_refresh-frame res = elim (Bool-cases (is_ok res)) [
    | inl accepted ↦ rw accepted (pure-frame frame tt)
    | inr refused ↦ rw refused (bind frame clear_session-frame λ _. throw-frame frame _)
  ]

  exchange_refresh_token-frame :
      (session : SessionData) (old : TokenSet) (t : Text)
      → Keeps R (exchange_refresh_token session old t)
  unfolding exchange_refresh_token
  exchange_refresh_token-frame session old t = bind frame (discover-frame frame) λ found.
      bind frame (gets-frame frame _) λ client.
        bind frame (need-frame frame found type_error) λ doc.
          bind frame (fetch-frame frame _ refl) λ res. bind frame (refused_refresh-frame res) λ _.
            bind frame (read_tokens-frame res)
              λ next. bind frame (save_session-frame _) λ _. pure-frame frame _

  pub refresh-frame : Keeps R do_refresh_access_token
  unfolding do_refresh_access_token
  refresh-frame = record {
    apply = λ w. (from_tokens (load_session w) (load_session w).tokens).apply w;
  }
    where
      from_token :
          (s : SessionData) (old : TokenSet) (t : Option Text) → Keeps R (refresh_with s old t)
      from_token s old none = throw-frame frame _
      from_token s old (some []) = throw-frame frame _
      from_token s old (some (c ∷ t)) = exchange_refresh_token-frame s old (c ∷ t)

      from_tokens : (s : SessionData) (old : Option TokenSet) → Keeps R (refresh_session s old)
      from_tokens s none = throw-frame frame _
      from_tokens s (some old) = from_token s old old.refresh_token

  renew-frame : (t : Option Text) → Keeps R (renew t)
  unfolding renew
  renew-frame t = elim (Bool-cases (truthy t)) [
    | inl here ↦ rw here (bind frame refresh-frame λ next. pure-frame frame _)
    | inr missing ↦ rw missing (bind frame clear_session-frame λ _. throw-frame frame _)
  ]

  ensure_stored-frame : (tokens : TokenSet) (t : Text) → Keeps R (ensure_stored tokens t)
  unfolding ensure_stored
  ensure_stored-frame tokens t = bind frame (gets-frame frame _) λ fresh. elim (Bool-cases fresh) [
    | inl kept ↦ rw kept (pure-frame frame t)
    | inr stale ↦ rw stale (renew-frame tokens.refresh_token)
  ]

  pub ensure_access_token-frame : Keeps R ensure_access_token
  unfolding ensure_access_token
  ensure_access_token-frame = record { apply = λ w. (from_tokens (load_session w).tokens).apply w }
    where
      from_token : (tokens : TokenSet) (t : Option Text) → Keeps R (ensure_with tokens t)
      from_token tokens none = throw-frame frame _
      from_token tokens (some []) = throw-frame frame _
      from_token tokens (some (c ∷ t)) = ensure_stored-frame tokens (c ∷ t)

      from_tokens : (tokens : Option TokenSet) → Keeps R (ensure_session tokens)
      from_tokens none = throw-frame frame _
      from_tokens (some tokens) = from_token tokens tokens.access_token

  pub handle_session_expired-frame : Keeps R handle_session_expired
  unfolding handle_session_expired
  handle_session_expired-frame = bind frame clear_session-frame λ _. start_login-frame frame
