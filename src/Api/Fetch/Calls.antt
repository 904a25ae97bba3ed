-- ===== src/Api/Fetch/Calls.antt =====
-- What the calls of web/src/lib/api.ts return.
use lab_keeper.Common.{Text, ap, arith, not, refl, some, true, ◌∙◌, ◌≡◌}
use lab_keeper.Json.{Json}
use lab_keeper.Oidc.Types.{error, syntax_error}
use lab_keeper.Oidc.World.{World, Response, is_ok, response_json}
use lab_keeper.Oidc.Rules.{After, Triple, Anywhere, Triple-bind, Triple-need, Triple-throw_if}
use lab_keeper.Api.Fetch.{Init, check_ok, read_error, call}
use lab_keeper.Api.Fetch.Outcomes.{Accepted, Honest, api_fetch-Triple}

-- The value was parsed from the body of a response with a status of success.
abbrev pub IsParsed : Json → World → Type 0
IsParsed j w = (r : Response) × (is_ok r ≡ true) × (w.parse_json r.body ≡ some j)

check_ok-Honest :
    (r : Response) (fallback : Text)
    → Triple (Accepted r) (check_ok r fallback) (λ _ _. is_ok r ≡ true) Honest
unfolding check_ok
check_ok-Honest r fallback = record {
  apply = λ w h.
      (Triple-throw_if {Pre = Anywhere} (not (is_ok r)) (error (read_error w.parse_json r fallback))
          (λ v k u. ground arith) (λ v k u. tt)).apply
        w tt;
}

response_json-IsParsed :
    (r : Response) → Triple (λ w. is_ok r ≡ true) (response_json r) IsParsed Honest
unfolding response_json
response_json-IsParsed r = record {
  apply = λ w h.
      (Triple-need {Pre = λ v. v ≡ w} (w.parse_json r.body) syntax_error
          (λ a v e same. (r, h, ap (λ u. u.parse_json r.body) same ∙ e)) (λ v same. tt)).apply
        w refl;
}

-- A call returns only a value that was parsed from a response of success. If it throws that the
-- session has expired, the stored session is gone and the redirect to a new login is under way.
pub call-IsParsed :
    (path : Text) (init : Init) (fallback : Text) (w : World)
    → After (call path init fallback w) IsParsed Honest
unfolding call
call-IsParsed path init fallback w =
    (Triple-bind Accepted (api_fetch-Triple path init) λ r.
        Triple-bind (λ _ _. is_ok r ≡ true) (check_ok-Honest r fallback)
          λ _. response_json-IsParsed r).apply
      w tt
