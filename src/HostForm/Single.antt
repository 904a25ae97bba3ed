-- ===== src/HostForm/Single.antt =====
-- That web/src/components/HostForm.tsx never has two submissions under way.
use lab_keeper.Common.{
  Bool, List, Option, Text, arith, false, inl, inr, none, refl, some, true, ◌≡◌, ◌≤◌, ◌⊎◌,
}
use lab_keeper.Oidc.Types.{Failure, session_expired}
use lab_keeper.Oidc.World.{World, Result, ok, throws}
use lab_keeper.Json.{Json}
use lab_keeper.Api.Types.{Host, Credential}
use lab_keeper.Items.{error_words}
use lab_keeper.Items.Everywhere.{
  Everywhere, Everywhere-append, Everywhere-only, Everywhere-error_words,
}
use lab_keeper.Items.Allows.{Allows-Everywhere}
use lab_keeper.Submission.{Form, InUse, Reaches}
use lab_keeper.Submission.Single.{MarksSaving, Reaches-le-one}
use lab_keeper.HostForm.{
  FormState, fill, initial_state, host_changed, host_fetched, credentials_fetched, Checked, check,
  settle, submit_checked, send, handle_submit, is_tcp,
}
use lab_keeper.HostForm.Fields.{
  Click, set_name, set_hostname, set_address, set_os, set_port, set_credential, set_probe, submit,
  cancel, status_items, fields, shown_items, loaded_items, form_items, edit,
}

-- `handleSubmit` up to the call of the API, and whether it makes one
abbrev pub begun : FormState → Text ⊎ Checked → FormState × Bool
begun s (inl refusal) = (record s { error = some refusal; saving = false }, false)
begun s (inr c) = (record s { saving = true; error = none }, true)

unfoldable pub submission_begins : FormState → FormState × Bool
submission_begins s = begun s (check s)

-- What the effects of the form do.
pub data Arrival : Type 0 where
  host_given : Option Host → Option Text → Arrival
  host_came : Result Host → Arrival
  credentials_came : Result (List Credential) → Arrival

unfoldable pub arrive : (Failure → Text) → Arrival → FormState → FormState
arrive engine (host_given host host_id) s = host_changed host host_id s
arrive engine (host_came r) s = host_fetched engine r s
arrive engine (credentials_came r) s = credentials_fetched engine r s

abbrev pub host_form : (Failure → Text) → Bool → Form FormState Click (Result Json) Arrival
host_form engine editing = record {
  items = form_items editing;
  submit = submit;
  edits = edit;
  begins = submission_begins;
  ends = λ r s. (settle engine r s).0;
  arrives = arrive engine;
  saving = λ s. s.saving;
}

-- `handleSubmit` is its begin, and after the call of the API its end.
pub handle_submit-submission_begins :
    (engine : Failure → Text) (editing : Bool) (site_id : Text) (s : FormState) (w : World)
    → (((submission_begins s).1 ≡ false)
        × (handle_submit engine editing site_id s w ≡ (((submission_begins s).0, false), w)))
      ⊎ ((c : Checked) × let begun_form = (submission_begins s).0 in
            let sent = send editing s.loaded_host site_id begun_form c w in
            handle_submit engine editing site_id s w ≡ (settle engine sent.0 begun_form, sent.1))
unfolding submission_begins handle_submit check
handle_submit-submission_begins engine editing site_id s w = by_check (check s)
  where
    by_check :
        (checked : Text ⊎ Checked)
        → (((begun s checked).1 ≡ false)
            × (submit_checked engine editing site_id
                  (record s { saving = true; error = none })
                  checked
                  w
                ≡ (((begun s checked).0, false), w)))
          ⊎ ((c : Checked) × let begun_form = (begun s checked).0 in
                let sent = send editing s.loaded_host site_id begun_form c w in
                submit_checked engine editing site_id
                  (record s { saving = true; error = none })
                  checked
                  w
                ≡ (settle engine sent.0 begun_form, sent.1))
    by_check (inl refusal) = inl (refl, refl)
    by_check (inr c) = inr (c, refl)

abbrev Nothing : ⊥ → Type 0
Nothing c = ⊥

-- A submission is offered only while none is under way.
abbrev Fits : Bool → Click → Type 0
Fits saving submit = saving ≡ false
Fits saving click = Unit

fields-Fits :
    (editing saving : Bool) (s : FormState) → Everywhere (Fits saving) Nothing (fields editing s)
unfolding fields
fields-Fits editing saving s = (
  (λ e t. tt),
  (
    (λ e t. tt),
    (
      (λ e t. tt),
      (
        (λ e t. tt),
        (
          (λ e t. tt),
          Everywhere-only (Fits saving) Nothing (is_tcp s.probe_method) _ (λ h. ((λ e t. tt), tt)),
        ),
      ),
    ),
  ),
)

status_items-Fits :
    (editing saving : Bool) (o : Option Host)
    → Everywhere (Fits saving) Nothing (status_items editing o)
unfolding status_items
status_items-Fits editing saving none = tt
status_items-Fits editing saving (some host) =
    Everywhere-only (Fits saving) Nothing editing _ (λ h. tt)

shown-Fits :
    (editing : Bool) (s : FormState) → Everywhere (Fits s.saving) Nothing (shown_items editing s)
shown-Fits editing s =
    Everywhere-append (Fits s.saving) Nothing (fields editing s) _ (fields-Fits editing s.saving s)
      (
        (λ e t. tt),
        Everywhere-append (Fits s.saving) Nothing (status_items editing s.loaded_host) _
            (status_items-Fits editing s.saving s.loaded_host)
            (Everywhere-append (Fits s.saving) Nothing (error_words s.error) _
              (Everywhere-error_words (Fits s.saving) Nothing s.error)
              ((λ idle. idle), ((λ idle. tt), tt))),
      )

form_items-Fits :
    (editing : Bool) (s : FormState) → Everywhere (Fits s.saving) Nothing (form_items editing s)
unfolding form_items
form_items-Fits editing s = by_loading s.loading
  where
    by_loading :
        (loading : Bool) → Everywhere (Fits s.saving) Nothing (loaded_items loading editing s)
    by_loading true = tt
    by_loading false = shown-Fits editing s

begun-saving :
    (s : FormState) (checked : Text ⊎ Checked) → (begun s checked).0.saving ≡ (begun s checked).1
begun-saving s (inl refusal) = refl
begun-saving s (inr c) = refl

settle-saving :
    (engine : Failure → Text) (r : Result Json) (s : FormState)
    → (settle engine r s).0.saving ≡ false
settle-saving engine (ok j) s = refl
settle-saving engine (throws (session_expired m)) s = refl
settle-saving engine (throws e) s = refl

edit-saving : (m : Click) (s : FormState) → (edit m s).saving ≡ s.saving
unfolding edit
edit-saving (set_name t) s = refl
edit-saving (set_hostname t) s = refl
edit-saving (set_address t) s = refl
edit-saving (set_os t) s = refl
edit-saving (set_port t) s = refl
edit-saving (set_credential t) s = refl
edit-saving (set_probe m) s = refl
edit-saving submit s = refl
edit-saving cancel s = refl

host_changed-saving :
    (o : Option Host) (host_id : Option Text) (s : FormState)
    → (host_changed o host_id s).saving ≡ s.saving
unfolding host_changed fill
host_changed-saving (some host) host_id s = refl
host_changed-saving none host_id s = ground arith

arrive-saving :
    (engine : Failure → Text) (a : Arrival) (s : FormState) → (arrive engine a s).saving ≡ s.saving
unfolding arrive host_fetched credentials_fetched fill
arrive-saving engine (host_given o host_id) s = host_changed-saving o host_id s
arrive-saving engine (host_came (ok host)) s = refl
arrive-saving engine (host_came (throws (session_expired m))) s = refl
arrive-saving engine (host_came (throws e)) s = refl
arrive-saving engine (credentials_came (ok listed)) s = refl
arrive-saving engine (credentials_came (throws (session_expired m))) s = refl
arrive-saving engine (credentials_came (throws e)) s = refl

host_form-MarksSaving :
    (engine : Failure → Text) (editing : Bool) → MarksSaving (host_form engine editing)
unfolding submission_begins
host_form-MarksSaving engine editing = record {
  offers_idle = λ s h.
      Allows-Everywhere (Fits s.saving) Nothing submit (form_items editing s)
        (form_items-Fits editing s) h;
  begins_marks = λ s. begun-saving s (check s);
  ends_clears = settle-saving engine;
  edits_keep = edit-saving;
  arrives_keeps = arrive-saving engine;
}

initial_state-saving :
    (o : Option Host) (host_id : Option Text) → (initial_state o host_id).saving ≡ false
unfolding initial_state fill
initial_state-saving none host_id = refl
initial_state-saving (some host) host_id = refl

-- Whoever uses the form of a host through what it shows, and however late its host, its credentials and the answers
-- to its submissions come: never more than one submission is under way.
pub Reaches-host_form :
    (engine : Failure → Text) (editing : Bool) (host : Option Host) (host_id : Option Text)
    (u : InUse FormState)
    → Reaches (host_form engine editing) (initial_state host host_id) u
    → u.submissions ≤ 1
Reaches-host_form engine editing host host_id u h =
    Reaches-le-one (host_form engine editing) (host_form-MarksSaving engine editing)
      (initial_state host host_id) u (initial_state-saving host host_id) h
