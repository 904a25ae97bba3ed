-- ===== src/Oidc/Runs.antt =====
-- Runs of an action that return: how each step of a `do` block is known to go on.
use lab_keeper.Common.{Bool, List, Option, false, refl, some, subst, sym, ◌+◌, ◌∷◌, ◌≡◌}
use lab_keeper.Oidc.Types.{Failure}
use lab_keeper.Oidc.World.{
  World, Response, Reply, answers, ok, Action, ◌>>=◌, pure, gets, need, modify, throw_if, fetch,
  receive, Request, response_json,
}
use lab_keeper.Json.{Json}

-- From the world `w` the action returns `a` and leaves the world `w'`.
pub record Runs {A : Type 0} (m : Action A) (w : World) (a : A) (w' : World) : Type 0 where
  pub ends : m w ≡ (ok a, w')

pub Runs-bind :
    {A B : Type 0} {m : Action A} (f : A → Action B) {w w' w'' : World} {a : A} {b : B}
    → Runs m w a w'
    → Runs (f a) w' b w''
    → Runs (m >>= f) w b w''
unfolding ◌>>=◌
Runs-bind f {w = w} {w'' = u} {b = b} first next = record {
  ends = subst (λ p. ((λ _. p) >>= f) w ≡ (ok b, u)) (sym first.ends) next.ends;
}

module _ {A : Type 0} where
  pub Runs-pure : (a : A) (w : World) → Runs (pure a) w a w
  unfolding pure
  Runs-pure a w = record { ends = refl }

  pub Runs-gets : (f : World → A) (w : World) → Runs (gets f) w (f w) w
  unfolding gets
  Runs-gets f w = record { ends = refl }

  pub Runs-need :
      {o : Option A} {a : A} (e : Failure) (w : World) → o ≡ some a → Runs (need o e) w a w
  unfolding need pure
  Runs-need e w here = record { ends = rw here refl }

pub Runs-modify : (f : World → World) (w : World) → Runs (modify f) w tt (f w)
unfolding modify
Runs-modify f w = record { ends = refl }

pub Runs-throw_if : {b : Bool} (e : Failure) (w : World) → b ≡ false → Runs (throw_if b e) w tt w
unfolding throw_if pure
Runs-throw_if e w fine = record { ends = rw fine refl }

-- The world after a request and the response to it.
abbrev pub responded : Request → Response → List Reply → World → World
responded q r later w = record w { sent = q ∷ w.sent; replies = later; now = w.now + r.elapsed }

pub Runs-fetch :
    (q : Request) (r : Response) (later : List Reply) (w : World)
    → w.replies ≡ answers r ∷ later
    → Runs (fetch q) w r (responded q r later w)
unfolding fetch receive
Runs-fetch q r later w next = record { ends = rw next refl }

pub Runs-response_json :
    (r : Response) (j : Json) (w : World)
    → w.parse_json r.body ≡ some j
    → Runs (response_json r) w j w
unfolding response_json need pure
Runs-response_json r j w parsed = record { ends = rw parsed refl }
