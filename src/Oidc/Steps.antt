-- ===== src/Oidc/Steps.antt =====
-- What single steps of web/src/lib/oidc.ts keep: a request that goes out, and the reading of its answer.
use lab_keeper.Common.{Bool-cases, List, Option, [], inl, inr, none, some, ℕ, ◌+◌, ◌∷◌, ◌≡◌, ◌⊎◌}
use lab_keeper.Json.{Json}
use lab_keeper.Oidc.Types.{Failure, syntax_error}
use lab_keeper.Oidc.World.{
  World, Request, Response, Reply, unreachable, answers, pure, throw, need, fetch, receive,
  response_json, is_ok,
}
use lab_keeper.Oidc.Session.{read_tokens, stamp_json}
use lab_keeper.Oidc.Login.{read_userinfo}
use lab_keeper.Oidc.Rules.{After, Triple, Triple-bind, Triple-pure, Triple-throw, Triple-gets}

-- The request went out.
abbrev pub Occurs : Request → List Request → Type 0
Occurs q [] = ⊥
Occurs q (r ∷ rs) = (q ≡ r) ⊎ Occurs q rs

receive_rule :
    (K : World → Type 0) (replies : List Reply) (w : World)
    → K w
    → ((later : List Reply) (t : ℕ) → K (record w { replies = later; now = t }))
    → After (receive replies w) (λ _. K) (λ _. K)
unfolding receive
receive_rule K [] w h k = h
receive_rule K (unreachable ∷ later) w h k = k later w.now
receive_rule K (answers r ∷ later) w h k = k later (w.now + r.elapsed)

-- What the reply does not change, and the request.
pub fetch_rule :
    (Pre K : World → Type 0) (q : Request)
    → ((w : World) (later : List Reply) (t : ℕ)
        → Pre w
        → K (record w { sent = q ∷ w.sent; replies = later; now = t }))
    → Triple Pre (fetch q) (λ _. K) (λ _. K)
unfolding fetch
fetch_rule Pre K q h = record {
  apply = λ w pre.
      receive_rule K w.replies (record w { sent = q ∷ w.sent }) (h w w.replies w.now pre)
        (λ later t. h w later t pre);
}

still_result :
    (Pre : World → Type 0) {A : Type 0} (o : Option A) (e : Failure) (w : World)
    → Pre w
    → After (need o e w) (λ _. Pre) (λ _. Pre)
unfolding need pure throw
still_result Pre none e w h = h
still_result Pre (some a) e w h = h

response_json_still :
    (Pre : World → Type 0) (r : Response) → Triple Pre (response_json r) (λ _. Pre) (λ _. Pre)
unfolding response_json
response_json_still Pre r = record {
  apply = λ w h. still_result Pre (w.parse_json r.body) syntax_error w h;
}

stamp_json_still :
    (Pre : World → Type 0) (now : ℕ) (j : Json)
    → Triple Pre (stamp_json now j) (λ _. Pre) (λ _. Pre)
stamp_json_still Pre now Json.null = Triple-throw _ λ w h. h
stamp_json_still Pre now j = Triple-pure _ λ w h. h

pub read_tokens_still :
    (Pre : World → Type 0) (r : Response) → Triple Pre (read_tokens r) (λ _. Pre) (λ _. Pre)
unfolding read_tokens
read_tokens_still Pre r =
    Triple-bind (λ _. Pre) (response_json_still Pre r)
      λ j. Triple-bind (λ _. Pre) (Triple-gets _ λ w h. h) λ now. stamp_json_still Pre now j

pub read_userinfo_still :
    (Pre : World → Type 0) (r : Response) → Triple Pre (read_userinfo r) (λ _. Pre) (λ _. Pre)
read_userinfo_still Pre r = elim (Bool-cases (is_ok r)) [
  | inl good ↦
      rw good (Triple-bind (λ _. Pre) (response_json_still Pre r) λ j. Triple-pure _ λ w h. h)
  | inr bad ↦ rw bad (Triple-pure _ λ w h. h)
]
