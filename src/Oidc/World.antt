-- ===== src/Oidc/World.antt =====
-- What web/src/lib/oidc.ts and api.ts run in: the browser's storage, clock, network, random bytes
-- and address bar, with the module's own variables. An asynchronous function is an action on this
-- world, and runs to its end before the next one begins; Oidc.Flights and Oidc.Promises let calls
-- of the two that share a promise overlap.
use lab_keeper.Common.{
  Bool, List, Option, Text, [], false, leb, ltb, none, some, suc, true, zero, ℕ, ◌%◌, ◌&&◌, ◌+◌,
  ◌∷◌,
}
use lab_keeper.Json.{Json}
use lab_keeper.Config.{Env}
use lab_keeper.Oidc.Types.{
  OidcDiscovery, SessionData, PendingAuth, Failure, network_error, syntax_error,
}

-- An item of sessionStorage: not there, a text that `JSON.parse` refuses, or the JSON of a value.
pub data Slot (A : Type 0) : Type 0 where
  absent : Slot A
  garbled : Text → Slot A
  holds : A → Slot A

pub data Method : Type 0 where
  get post put delete : Method

-- A request's body: the pairs of `URLSearchParams`, or the JSON of a value.
pub data Body : Type 0 where
  empty : Body
  form : List (Text × Text) → Body
  json : Json → Body

pub record Request : Type 0 where
  pub url : Text
  pub method : Method
  pub authorization : Option Text
  pub content_type : Option Text
  pub body : Body

pub record Response : Type 0 where
  pub status : ℕ
  pub body : Text
  pub elapsed : ℕ

-- What the network does with a request: it fails, or a response comes after some milliseconds.
pub data Reply : Type 0 where
  unreachable : Reply
  answers : Response → Reply

-- An address with the pairs of its query.
pub record Location : Type 0 where
  pub base : Text
  pub query : List (Text × Text)

pub data Result (A : Type 0) : Type 0 where
  ok : A → Result A
  throws : Failure → Result A

pub record World : Type 0 where
  pub env : Env
  pub now : ℕ
  -- `JSON.parse`; `none` where it throws
  pub parse_json : Text → Option Json
  pub secure_context : Bool
  pub subtle_digest : List ℕ → List ℕ
  -- the random source, and how many bytes have been drawn from it
  pub entropy : ℕ → ℕ
  pub drawn : ℕ
  pub session : Slot SessionData
  pub pending : Slot PendingAuth
  pub discovery_cache : Option OidcDiscovery
  -- `pendingExchanges`: how the exchange for each code that was handled has ended
  pub exchanges : List (Text × Result SessionData)
  -- what the network will answer to the next requests; after them it is unreachable
  pub replies : List Reply
  -- the requests so far, the latest first
  pub sent : List Request
  -- the last assignment to `window.location.href`
  pub location : Option Location

abbrev pub Action : Type 0 → Type 0
Action A = World → Result A × World

infixl 5 ◌>>=◌ ◌>>◌
unfoldable pub ◌>>=◌ : {A B : Type 0} → Action A → (A → Action B) → Action B
◌>>=◌ m f w = let (r, w') = m w in elim r [ ok a ↦ f a w' | throws e ↦ (throws e, w') ]

abbrev pub ◌>>◌ : {A B : Type 0} → Action A → Action B → Action B
m >> k = m >>= λ _. k

module _ {A : Type 0} where
  unfoldable pub pure : A → Action A
  pure a w = (ok a, w)

  unfoldable pub throw : Failure → Action A
  throw e w = (throws e, w)

  unfoldable pub gets : (World → A) → Action A
  gets f w = (ok (f w), w)

  unfoldable pub need : Option A → Failure → Action A
  need none e = throw e
  need (some a) e = pure a

unfoldable pub modify : (World → World) → Action (Unit {0})
modify f w = (ok tt, f w)

unfoldable pub throw_if : Bool → Failure → Action (Unit {0})
throw_if true e = throw e
throw_if false e = pure tt

-- For tests: what a `do` block is made of.
unfoldable pub effects : Unit {0}
unfolding ◌>>=◌ pure throw gets need modify throw_if
effects = tt

-- `fetch`: the request goes out, and the promise settles by the next reply.
unfoldable pub receive : List Reply → World → Result Response × World
receive [] w = (throws network_error, w)
receive (unreachable ∷ later) w = (throws network_error, record w { replies = later })
receive (answers r ∷ later) w = (ok r, record w { replies = later; now = w.now + r.elapsed })

unfoldable pub fetch : Request → Action Response
unfolding receive
fetch request w = receive w.replies (record w { sent = request ∷ w.sent })

-- `response.ok`
abbrev pub is_ok : Response → Bool
is_ok r = leb 200 r.status && ltb r.status 300

-- `response.json()`, and `JSON.parse` of the text
unfoldable pub response_json : Response → Action Json
response_json r w = need (w.parse_json r.body) syntax_error w

-- `crypto.getRandomValues(new Uint8Array(n))`: the next bytes of the source
unfoldable pub random_bytes : ℕ → (ℕ → ℕ) → ℕ → List ℕ
random_bytes zero source at = []
random_bytes (suc n) source at = source at % 256 ∷ random_bytes n source (suc at)

unfoldable pub draw : ℕ → Action (List ℕ)
unfolding random_bytes
draw n w = (ok (random_bytes n w.entropy w.drawn), record w { drawn = w.drawn + n })
