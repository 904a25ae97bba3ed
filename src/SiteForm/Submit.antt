-- ===== src/SiteForm/Submit.antt =====
-- How `handleSubmit` of web/src/components/SiteForm.tsx ends.
use lab_keeper.Common.{
  Bool, Option, Text, [], false, none, refl, some, subst, text, trim, true, ◌∷◌, ◌≡◌,
}
use lab_keeper.Json.{Json}
use lab_keeper.Oidc.Types.{
  Failure, session_expired, error, syntax_error, network_error, type_error, uri_error, message,
}
use lab_keeper.Oidc.World.{World, Result, ok, throws}
use lab_keeper.Api.Types.{Site}
use lab_keeper.Oidc.World.{Action}
use lab_keeper.Api.Endpoints.{create_site, update_site}
use lab_keeper.SiteForm.{FormState, send, settle, submit_named, handle_submit}

-- What the user sees, by how the call of the API ended.
abbrev pub Answered : (Failure → Text) → Result Json → FormState × Option Json → Type 0
Answered engine (ok j) (s, saved) = (saved ≡ some j) × (s.error ≡ none)
Answered engine (throws (session_expired m)) (s, saved) = (saved ≡ none) × (s.error ≡ none)
Answered engine (throws e) (s, saved) = (saved ≡ none) × (s.error ≡ some (message engine e))

settle-Answered :
    (engine : Failure → Text) (r : Result Json) (s : FormState)
    → s.error ≡ none
    → ((settle engine r s).0.saving ≡ false) × Answered engine r (settle engine r s)
settle-Answered engine (ok j) s h = (refl, (refl, h))
settle-Answered engine (throws (session_expired m)) s h = (refl, (refl, h))
settle-Answered engine (throws (error m)) s h = (refl, (refl, refl))
settle-Answered engine (throws syntax_error) s h = (refl, (refl, refl))
settle-Answered engine (throws network_error) s h = (refl, (refl, refl))
settle-Answered engine (throws type_error) s h = (refl, (refl, refl))
settle-Answered engine (throws uri_error) s h = (refl, (refl, refl))

-- The call of the API that fits: an update of the site that is edited, or a creation, with the trimmed name.
abbrev pub call_for : Option Site → Text → Bool → Action Json
call_for none name enabled = create_site (record { name = name; discovery_enabled = some enabled })
call_for (some site) name enabled =
    update_site site.id (record { name = some name; discovery_enabled = some enabled })

-- A blank name is refused without a request; any other goes out trimmed, in one call.
abbrev pub Submitted :
    (Failure → Text)
    → Option Site
    → FormState
    → Text
    → World
    → (FormState × Option Json) × World
    → Type 0
Submitted engine site s [] w ((t, saved), w') =
    (w' ≡ w) × (saved ≡ none) × (t.error ≡ some (text "Name is required"))
Submitted engine site s (c ∷ name) w (done, w') =
    let sent = call_for site (c ∷ name) s.discovery_enabled w in
    (w' ≡ sent.1) × Answered engine sent.0 done

send-call_for :
    (site : Option Site) (name : Text) (enabled : Bool)
    → send site name enabled ≡ call_for site name enabled
unfolding send
send-call_for none name enabled = refl
send-call_for (some site) name enabled = refl

submit_named-Submitted :
    (engine : Failure → Text) (site : Option Site) (s : FormState) (name : Text) (w : World)
    → s.error ≡ none
    → ((submit_named engine site name s w).0.0.saving ≡ false)
      × Submitted engine site s name w (submit_named engine site name s w)
submit_named-Submitted engine site s [] w h = (refl, (refl, refl, refl))
submit_named-Submitted engine site s (c ∷ name) w h =
    let sent : Result Json × World = send site (c ∷ name) s.discovery_enabled w in
    let (idle, shown) = settle-Answered engine sent.0 s h in
    (
      idle,
      subst (λ m. (sent.1 ≡ (m w).1) × Answered engine (m w).0 (settle engine sent.0 s))
          (send-call_for site (c ∷ name) s.discovery_enabled) (refl, shown),
    )

-- After a submission the form is never busy. A name of blanks only is refused and nothing goes out. Any
-- other is sent trimmed, with the mark for discovery, by one call of the API, which updates the site that is edited or else
-- creates one: what it returns goes to the page, an expired session shows no
-- message, and any other failure shows its own.
pub handle_submit-Submitted :
    (engine : Failure → Text) (site : Option Site) (s : FormState) (w : World)
    → let done = handle_submit engine site s w in
      (done.0.0.saving ≡ false) × Submitted engine site s (trim s.name) w done
unfolding handle_submit
handle_submit-Submitted engine site s w =
    submit_named-Submitted engine site (record s { saving = true; error = none }) (trim s.name) w
      refl
