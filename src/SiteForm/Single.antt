-- ===== src/SiteForm/Single.antt =====
-- That web/src/components/SiteForm.tsx never has two submissions under way.
use lab_keeper.Common.{
  Bool, Option, Text, [], false, is_some, none, refl, some, text, trim, true, ◌∷◌, ◌≡◌, ◌≤◌,
}
use lab_keeper.Oidc.Types.{Failure, session_expired}
use lab_keeper.Oidc.World.{Result, ok, throws}
use lab_keeper.Json.{Json}
use lab_keeper.Api.Types.{Site}
use lab_keeper.Items.{error_words}
use lab_keeper.Items.Everywhere.{Everywhere, Everywhere-append, Everywhere-error_words}
use lab_keeper.Items.Allows.{Allows-Everywhere}
use lab_keeper.Submission.{Form, InUse, Reaches}
use lab_keeper.Submission.Single.{MarksSaving, Reaches-le-one}
use lab_keeper.SiteForm.{FormState, initial_state, settle}
use lab_keeper.SiteForm.Fields.{Click, set_name, set_discovery, submit, cancel, form_items, edit}

-- `handleSubmit` up to the call of the API, by the trimmed name, and whether it makes one
abbrev pub begun : Text → FormState → FormState × Bool
begun [] s = (record s { error = some (text "Name is required"); saving = false }, false)
begun (c ∷ name) s = (record s { saving = true; error = none }, true)

unfoldable pub submission_begins : FormState → FormState × Bool
submission_begins s = begun (trim s.name) s

-- The form has no effect that loads something.
abbrev pub site_form : (Failure → Text) → Bool → Form FormState Click (Result Json) ⊥
site_form engine editing = record {
  items = form_items editing;
  submit = submit;
  edits = edit;
  begins = submission_begins;
  ends = λ r s. (settle engine r s).0;
  arrives = λ a s. s;
  saving = λ s. s.saving;
}

abbrev Nothing : ⊥ → Type 0
Nothing c = ⊥

-- A submission is offered only while none is under way.
abbrev Fits : Bool → Click → Type 0
Fits saving submit = saving ≡ false
Fits saving click = Unit

form_items-Fits :
    (editing : Bool) (s : FormState) → Everywhere (Fits s.saving) Nothing (form_items editing s)
unfolding form_items
form_items-Fits editing s = (
  (λ e t. tt),
  (
    (λ e b. tt),
    Everywhere-append (Fits s.saving) Nothing (error_words s.error) _
        (Everywhere-error_words (Fits s.saving) Nothing s.error)
        ((λ idle. idle), ((λ idle. tt), tt)),
  ),
)

begun-saving : (name : Text) (s : FormState) → (begun name s).0.saving ≡ (begun name s).1
begun-saving [] s = refl
begun-saving (c ∷ name) s = refl

settle-saving :
    (engine : Failure → Text) (r : Result Json) (s : FormState)
    → (settle engine r s).0.saving ≡ false
settle-saving engine (ok j) s = refl
settle-saving engine (throws (session_expired m)) s = refl
settle-saving engine (throws e) s = refl

edit-saving : (m : Click) (s : FormState) → (edit m s).saving ≡ s.saving
unfolding edit
edit-saving (set_name t) s = refl
edit-saving (set_discovery b) s = refl
edit-saving submit s = refl
edit-saving cancel s = refl

site_form-MarksSaving :
    (engine : Failure → Text) (editing : Bool) → MarksSaving (site_form engine editing)
unfolding submission_begins
site_form-MarksSaving engine editing = record {
  offers_idle = λ s h.
      Allows-Everywhere (Fits s.saving) Nothing submit (form_items editing s)
        (form_items-Fits editing s) h;
  begins_marks = λ s. begun-saving (trim s.name) s;
  ends_clears = settle-saving engine;
  edits_keep = edit-saving;
  arrives_keeps = λ a s. refl;
}

initial_state-saving : (o : Option Site) → (initial_state o).saving ≡ false
unfolding initial_state
initial_state-saving none = refl
initial_state-saving (some site) = refl

-- Whoever uses the form of a site through what it shows, and however late the answers to its submissions come: never more
-- than one submission is under way.
pub Reaches-site_form :
    (engine : Failure → Text) (site : Option Site) (u : InUse FormState)
    → Reaches (site_form engine (is_some site)) (initial_state site) u
    → u.submissions ≤ 1
Reaches-site_form engine site u h =
    Reaches-le-one (site_form engine (is_some site)) (site_form-MarksSaving engine (is_some site))
      (initial_state site) u (initial_state-saving site) h
