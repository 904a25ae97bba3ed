-- ===== src/Api/Fetch/Outcomes.antt =====
-- How `apiFetch` of web/src/lib/api.ts ends.
use lab_keeper.Common.{Bool-cases, Text, arith, if◌then◌else◌, inl, inr, refl, ◌==◌, ◌∙◌, ◌≡◌, ◌≢◌}
use lab_keeper.Oidc.Types.{
  Failure, session_expired, error, syntax_error, network_error, type_error, uri_error,
}
use lab_keeper.Oidc.World.{World, absent, Response, Result, ok, throws, Action, pure}
use lab_keeper.Oidc.Session.{ensure_access_token, clear_session}
use lab_keeper.Oidc.Login.{handle_session_expired}
use lab_keeper.Oidc.Rules.{
  After, Triple, Any, Anywhere, Triple-bind, Triple-pre, Triple-both, Triple-weaken, Triple-pure,
  Triple-throw, Triple-gets, Keeps-Triple, Triple-modify,
}
use lab_keeper.Oidc.Frames.{start_login-frame}
use lab_keeper.Oidc.Refresh.{session_frame}
use lab_keeper.Oidc.Redirect.{Plain, IsRedirect, start_login-Triple, fetch-Plain}
use lab_keeper.Api.Fetch.{
  Init, catch_with, rethrow_expired, usable_token, attempt, give_up, api_fetch_retried,
  refresh_or_give_up, api_fetch,
}

-- The response is none that asks for a login.
abbrev pub Accepted : Response → World → Type 0
Accepted r w = r.status ≢ 401

-- The stored session is gone and the browser is on its way to the provider.
abbrev pub LoggedOut : World → Type 0
LoggedOut w = (w.session ≡ absent) × IsRedirect w

-- A failure that says that the session has expired tells the truth.
abbrev pub Honest : Failure → World → Type 0
Honest (session_expired m) w = LoggedOut w
Honest _ w = Unit

Plain-Honest : (e : Failure) (w : World) → Plain e w → Honest e w
Plain-Honest (session_expired m) w h = absurd h
Plain-Honest _ w h = tt

expired-LoggedOut : Triple Anywhere handle_session_expired (λ _. LoggedOut) Plain
unfolding handle_session_expired clear_session
expired-LoggedOut =
    Triple-bind (λ _ w. w.session ≡ absent) (Triple-modify _ λ w h. refl)
      λ _.
        Triple-weaken
          (Triple-both
            (Keeps-Triple (λ w. w.session ≡ absent) (λ w. w.session ≡ absent)
              (start_login-frame session_frame) λ v w same h. same ∙ h)
            (Triple-pre (λ w h. tt) start_login-Triple))
          (λ a w h. h) (λ e w h. h.1)

give_up-Honest :
    {A : Type 0} (message : Text) → Triple Anywhere (give_up {A = A} message) Any Honest
unfolding give_up
give_up-Honest message =
    Triple-bind (λ _. LoggedOut) (Triple-weaken expired-LoggedOut (λ a w h. h) Plain-Honest)
      λ _. Triple-throw _ λ w h. h

give_up-Accepted : (message : Text) → Triple Anywhere (give_up message) Accepted Honest
unfolding give_up
give_up-Accepted message =
    Triple-bind (λ _. LoggedOut) (Triple-weaken expired-LoggedOut (λ a w h. h) Plain-Honest)
      λ _. Triple-throw _ λ w h. h

rethrow-Honest : (e : Failure) → Triple Anywhere (rethrow_expired e) Any Honest
unfolding rethrow_expired
rethrow-Honest (session_expired m) =
    Triple-bind (λ _. LoggedOut) (Triple-weaken expired-LoggedOut (λ a w h. h) Plain-Honest)
      λ _. Triple-throw _ λ w h. h
rethrow-Honest (error m) = Triple-throw _ λ w h. tt
rethrow-Honest syntax_error = Triple-throw _ λ w h. tt
rethrow-Honest network_error = Triple-throw _ λ w h. tt
rethrow-Honest type_error = Triple-throw _ λ w h. tt
rethrow-Honest uri_error = Triple-throw _ λ w h. tt

caught :
    {A : Type 0} (m : Result A × World) (handler : Failure → Action A)
    → ((e : Failure) → Triple Anywhere (handler e) Any Honest)
    → After (catch_with (λ _. m) handler m.1) Any Honest
unfolding catch_with
caught (ok a, w) handler h = tt
caught (throws e, w) handler h = (h e).apply w tt

catch-Honest :
    {A : Type 0} (m : Action A) (handler : Failure → Action A)
    → ((e : Failure) → Triple Anywhere (handler e) Any Honest)
    → Triple Anywhere (catch_with m handler) Any Honest
unfolding catch_with
catch-Honest m handler h = record { apply = λ w _. caught (m w) handler h }

usable_token-Honest : Triple Anywhere usable_token Any Honest
unfolding usable_token
usable_token-Honest = catch-Honest ensure_access_token rethrow_expired rethrow-Honest

answer-Accepted :
    (m : Action Response) (r : Response)
    → Triple Anywhere m Accepted Honest
    → Triple Anywhere (if r.status == 401 then m else pure r) Accepted Honest
answer-Accepted m r h = elim (Bool-cases (r.status == 401)) [
  | inl asks ↦ rw asks h
  | inr passes ↦ rw passes (Triple-pure r λ w _. ground arith)
]

attempt-Accepted :
    (m : Action Response) (path : Text) (init : Init)
    → Triple Anywhere m Accepted Honest
    → Triple Anywhere (attempt m path init) Accepted Honest
unfolding attempt
attempt-Accepted m path init h = Triple-bind Any usable_token-Honest λ token.
    Triple-bind Any (Triple-gets _ λ w _. tt) λ request.
      Triple-bind Any (Triple-weaken (fetch-Plain request) (λ a w h. h) Plain-Honest)
        λ response. answer-Accepted m response h

refresh_or_give_up-Honest : Triple Anywhere refresh_or_give_up Any Honest
unfolding refresh_or_give_up
refresh_or_give_up-Honest = catch-Honest _ _ (λ e. give_up-Honest _)

pub api_fetch-Triple :
    (path : Text) (init : Init) → Triple Anywhere (api_fetch path init) Accepted Honest
unfolding api_fetch api_fetch_retried
api_fetch-Triple path init = attempt-Accepted _ path init (
    Triple-bind Any refresh_or_give_up-Honest
      λ _. attempt-Accepted _ path init (give_up-Accepted _))

-- A response that `apiFetch` returns is never a 401. If it throws that the session has expired,
-- then the stored session is gone and the redirect to a new login is under way.
pub api_fetch-Accepted :
    (path : Text) (init : Init) (w : World) → After (api_fetch path init w) Accepted Honest
api_fetch-Accepted path init w = (api_fetch-Triple path init).apply w tt
