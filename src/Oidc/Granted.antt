-- ===== src/Oidc/Granted.antt =====
-- Which tokens `doRefreshAccessToken` of web/src/lib/oidc.ts stores: those of the provider's answer.
use lab_keeper.Common.{
  Bool-cases, List, Option, Text, [], ap, append_assoc, inl, inr, none, refl, some, spread, subst,
  sym, text, true, truthy, ℕ, ◌++◌, ◌∙◌, ◌∷◌, ◌≡◌,
}
use lab_keeper.Json.{Json, property, as_text}
use lab_keeper.Oidc.Types.{
  OidcDiscovery, SessionData, TokenSet, Failure, as_token_set, syntax_error, type_error,
}
use lab_keeper.Oidc.World.{
  World, Request, Response, Reply, unreachable, answers, fetch, receive, response_json, is_ok, pure,
}
use lab_keeper.Oidc.Session.{
  discover, cached_or, fetch_discovery, plain_get, stamp_expiry, stamp_json, read_tokens,
  merge_tokens, save_session, clear_session, refused_refresh, exchange_refresh_token, refresh_with,
  refresh_session, or_refresh,
}
use lab_keeper.Oidc.Rules.{
  After, Triple, Triple-bind, Triple-weaken, Triple-pure, Triple-throw, Triple-gets, Triple-need,
  Triple-modify, Triple-throw_if,
}

-- The received token, or the old one where none came.
abbrev pub newest : Option Text → Option Text → Option Text
newest old none = old
newest old (some t) = some t

-- The same where an empty token counts as none.
abbrev pub newest_given : Option Text → Option Text → Option Text
newest_given old none = old
newest_given old (some []) = old
newest_given old (some (c ∷ t)) = some (c ∷ t)

-- The last reply that was taken is an accepted answer whose JSON has the tokens.
pub record IsGranted (before : World) (old tokens : TokenSet) (w : World) : Type 0 where
  pub front : List Reply
  pub answer : Response
  pub granted : Json
  pub last : before.replies ≡ front ++ answers answer ∷ w.replies
  pub accepted : is_ok answer ≡ true
  pub parsed : before.parse_json answer.body ≡ some granted
  pub access_token :
      tokens.access_token
      ≡ newest old.access_token (as_text (property (text "access_token") granted))
  pub id_token :
      tokens.id_token ≡ newest old.id_token (as_text (property (text "id_token") granted))
  pub refresh_token :
      tokens.refresh_token
      ≡ newest_given old.refresh_token (as_text (property (text "refresh_token") granted))

abbrev pub Anyhow : Failure → World → Type 0
Anyhow e w = Unit

spread-newest : (old received : Option Text) → spread old received ≡ newest old received
spread-newest old none = refl
spread-newest old (some t) = refl

or_refresh-newest_given :
    (old received : Option Text) → or_refresh received old ≡ newest_given old received
or_refresh-newest_given old none = refl
or_refresh-newest_given old (some []) = refl
or_refresh-newest_given old (some (c ∷ t)) = refl

module _ (u : World) where
  -- Some replies were taken.
  abbrev Left : World → Type 0
  Left w = (front : List Reply) × (u.replies ≡ front ++ w.replies) × (w.parse_json ≡ u.parse_json)

  -- The last of them is this answer.
  abbrev Got : Response → World → Type 0
  Got r w =
      (front : List Reply) × (u.replies ≡ front ++ answers r ∷ w.replies)
      × (w.parse_json ≡ u.parse_json)

  Got-Left : (r : Response) (w : World) → Got r w → Left w
  Got-Left r w (front, taken, same) =
      (front ++ answers r ∷ [], taken ∙ sym (append_assoc front (answers r ∷ []) w.replies), same)

  receive-Got :
      (replies front : List Reply) (w : World)
      → u.replies ≡ front ++ replies
      → w.parse_json ≡ u.parse_json
      → After (receive replies w) Got Anyhow
  unfolding receive
  receive-Got [] front w h same = tt
  receive-Got (unreachable ∷ later) front w h same = tt
  receive-Got (answers r ∷ later) front w h same = (front, h, same)

  fetch-Got : (q : Request) → Triple Left (fetch q) Got Anyhow
  unfolding fetch
  fetch-Got q = record {
    apply = λ w h. receive-Got w.replies h.0 (record w { sent = q ∷ w.sent }) h.1 h.2;
  }

  response_json-Parsed :
      (r : Response)
      → Triple (Got r) (response_json r) (λ j w. Got r w × (u.parse_json r.body ≡ some j)) Anyhow
  unfolding response_json
  response_json-Parsed r = record {
    apply = λ w h.
        (Triple-need {Pre = λ v. Got r v} {P = λ j v. Got r v × (u.parse_json r.body ≡ some j)}
            {Q = Anyhow} (w.parse_json r.body) syntax_error
            (λ j v e k. (k, ap (λ parse. parse r.body) (sym h.2) ∙ e)) (λ v k. tt)).apply
          w h;
  }

  fetch_discovery-Left : Triple Left fetch_discovery (λ _. Left) Anyhow
  unfolding fetch_discovery
  fetch_discovery-Left =
      Triple-bind (λ _. Left) (Triple-gets _ λ w h. h)
        λ url. Triple-bind Got (fetch-Got (plain_get url)) λ res.
          Triple-bind (λ _. Got res) (Triple-throw_if _ _ (λ w e h. h) (λ w e h. tt))
            λ _.
              Triple-bind (λ _. Got res)
                (Triple-weaken (response_json-Parsed res) (λ j w h. h.0) λ e w h. h)
                λ j.
                  Triple-bind (λ _. Left) (Triple-modify _ λ w h. Got-Left res w h)
                    λ _. Triple-pure _ λ w h. h

  discover-Left : Triple Left discover (λ _. Left) Anyhow
  unfolding discover pure
  discover-Left = record { apply = λ w h. cached w.discovery_cache w h }
    where
      cached :
          (c : Option OidcDiscovery) (w : World)
          → Left w
          → After (cached_or c fetch_discovery w) (λ _. Left) Anyhow
      cached none w h = fetch_discovery-Left.apply w h
      cached (some doc) w h = h

  -- The answer is accepted, and these are its tokens.
  abbrev Read : Response → TokenSet → World → Type 0
  Read r next w =
      Got r w
      × (now : ℕ) × (j : Json) × (u.parse_json r.body ≡ some j)
      × (next ≡ stamp_expiry now (as_token_set j))

  stamp_json-Read :
      (r : Response) (now : ℕ) (j : Json)
      → Triple (λ w. Got r w × (u.parse_json r.body ≡ some j)) (stamp_json now j) (Read r) Anyhow
  stamp_json-Read r now Json.null = Triple-throw type_error λ w h. tt
  stamp_json-Read r now j = Triple-pure _ λ w h. (h.0, now, j, h.1, refl)

  read_tokens-Read : (r : Response) → Triple (Got r) (read_tokens r) (Read r) Anyhow
  unfolding read_tokens
  read_tokens-Read r =
      Triple-bind (λ j w. Got r w × (u.parse_json r.body ≡ some j)) (response_json-Parsed r)
        λ j.
          Triple-bind (λ now w. Got r w × (u.parse_json r.body ≡ some j)) (Triple-gets _ λ w h. h)
            λ now. stamp_json-Read r now j

  refused_refresh-Got :
      (r : Response) → Triple (Got r) (refused_refresh r) (λ _ w. Got r w × (is_ok r ≡ true)) Anyhow
  unfolding clear_session
  refused_refresh-Got r = elim (Bool-cases (is_ok r)) [
    | inl good ↦ rw good (Triple-pure tt λ w h. (h, refl))
    | inr bad ↦
        rw bad (Triple-bind (λ _ _. Unit) (Triple-modify _ λ w h. tt) λ _. Triple-throw _ λ w h. tt)
  ]

  reads_on :
      (r : Response)
      → Triple
          (λ w. Got r w × (is_ok r ≡ true))
          (read_tokens r)
          (λ next w. Read r next w × (is_ok r ≡ true))
          Anyhow
  reads_on r = record {
    apply =
        λ w h. (Triple-weaken (read_tokens-Read r) (λ next v k. (k, h.1)) λ e v k. k).apply w h.0;
  }

  Read-IsGranted :
      (r : Response) (old next : TokenSet) (w : World)
      → Read r next w
      → is_ok r ≡ true
      → IsGranted u old (merge_tokens old next) w
  unfolding merge_tokens stamp_expiry as_token_set
  Read-IsGranted r old next w (got, now, j, parsed, same) good = record {
    front = got.0;
    answer = r;
    granted = j;
    last = got.1;
    accepted = good;
    parsed = parsed;
    access_token =
        spread-newest old.access_token next.access_token
        ∙ ap (λ n. newest old.access_token n.access_token) same;
    id_token =
        spread-newest old.id_token next.id_token ∙ ap (λ n. newest old.id_token n.id_token) same;
    refresh_token =
        or_refresh-newest_given old.refresh_token next.refresh_token
        ∙ ap (λ n. newest_given old.refresh_token n.refresh_token) same;
  }

  exchange-IsGranted :
      (session : SessionData) (old : TokenSet) (t : Text)
      → Triple Left (exchange_refresh_token session old t) (IsGranted u old) Anyhow
  unfolding exchange_refresh_token save_session
  exchange-IsGranted session old t =
      Triple-bind (λ _. Left) discover-Left
        λ found.
          Triple-bind (λ _. Left) (Triple-gets _ λ w h. h)
            λ client.
              Triple-bind (λ _. Left) (Triple-need found type_error (λ a w e h. h) λ w h. tt)
                λ doc. Triple-bind Got (fetch-Got _) λ res.
                  Triple-bind (λ _ w. Got res w × (is_ok res ≡ true)) (refused_refresh-Got res)
                    λ _.
                      Triple-bind (λ next w. IsGranted u old (merge_tokens old next) w)
                        (Triple-weaken (reads_on res)
                          (λ next w h. Read-IsGranted res old next w h.0 h.1) λ e w h. tt)
                        λ next.
                          Triple-bind (λ _. IsGranted u old (merge_tokens old next))
                            (Triple-modify _ λ w h. record {
                              front = h.front;
                              answer = h.answer;
                              granted = h.granted;
                              last = h.last;
                              accepted = h.accepted;
                              parsed = h.parsed;
                              access_token = h.access_token;
                              id_token = h.id_token;
                              refresh_token = h.refresh_token;
                            })
                            λ _. Triple-pure _ λ w h. h

  refresh_with-IsGranted :
      (session : SessionData) (old : TokenSet) (t : Option Text)
      → truthy t ≡ true
      → Triple Left (refresh_with session old t) (IsGranted u old) Anyhow
  refresh_with-IsGranted session old none h = cc
  refresh_with-IsGranted session old (some []) h = cc
  refresh_with-IsGranted session old (some (c ∷ t)) h = exchange-IsGranted session old (c ∷ t)

-- The tokens of a refresh come from the answer that it took last.
pub refresh_session-IsGranted :
    (w : World) (session : SessionData) (old : TokenSet)
    → session.tokens ≡ some old
    → truthy old.refresh_token ≡ true
    → After (refresh_session session session.tokens w) (IsGranted w old) Anyhow
refresh_session-IsGranted w session old has kept =
    subst (λ o. After (refresh_session session o w) (IsGranted w old) Anyhow) (sym has)
      ((refresh_with-IsGranted w session old old.refresh_token kept).apply w ([], refl, refl))
