-- ===== src/HostForm/Sending.antt =====
-- How `handleSubmit` of web/src/components/HostForm.tsx ends.
use lab_keeper.Common.{
  Bool, Option, Text, [], false, inl, inr, none, refl, some, subst, sym, trim, true, ℕ, ◌∷◌, ◌≡◌,
  ◌⊎◌,
}
use lab_keeper.Json.{Json}
use lab_keeper.Oidc.Types.{
  Failure, session_expired, error, syntax_error, network_error, type_error, uri_error, message,
}
use lab_keeper.Oidc.World.{World, Result, ok, throws}
use lab_keeper.Api.Inputs.{CreateHostInput, UpdateHostInput, IsGiven}
use lab_keeper.Api.Types.{Host}
use lab_keeper.Api.Endpoints.{create_host, update_host}
use lab_keeper.HostForm.{
  FormState, Checked, check, send, settle, submit_checked, handle_submit, create_input,
  update_input, or_undefined,
}
use lab_keeper.HostForm.Submit.{IsRefused, IsNamed, SendsPort, IsChecked, check-IsChecked}

-- What the user sees, by how the call of the API ended.
abbrev pub Answered : (Failure → Text) → Result Json → FormState × Bool → Type 0
Answered engine (ok j) (s, saved) = (saved ≡ true) × (s.error ≡ none)
Answered engine (throws (session_expired m)) (s, saved) = (saved ≡ false) × (s.error ≡ none)
Answered engine (throws e) (s, saved) = (saved ≡ false) × (s.error ≡ some (message engine e))

settle-Answered :
    (engine : Failure → Text) (r : Result Json) (s : FormState)
    → s.error ≡ none
    → ((settle engine r s).0.saving ≡ false) × Answered engine r (settle engine r s)
settle-Answered engine (ok j) s h = (refl, (refl, h))
settle-Answered engine (throws (session_expired m)) s h = (refl, (refl, h))
settle-Answered engine (throws (error m)) s h = (refl, (refl, refl))
settle-Answered engine (throws syntax_error) s h = (refl, (refl, refl))
settle-Answered engine (throws network_error) s h = (refl, (refl, refl))
settle-Answered engine (throws type_error) s h = (refl, (refl, refl))
settle-Answered engine (throws uri_error) s h = (refl, (refl, refl))

-- The input of a creation: what is empty is left out.
abbrev pub Creates : Text → FormState → ℕ → CreateHostInput → Type 0
Creates site_id s port i =
    (i.site_id ≡ site_id)
    × IsGiven (trim s.name) i.name
    × IsGiven (trim s.hostname) i.hostname
    × IsGiven (trim s.address) i.address
    × IsGiven (trim s.os) i.os
    × IsGiven s.credential_id i.credential_id
    × (i.probe_method ≡ some s.probe_method)
    × (i.probe_port ≡ some port)

-- An update sends each field as it stands, trimmed, also if that is empty.
abbrev pub updates : FormState → ℕ → UpdateHostInput
updates s port = record {
  site_id = none;
  name = some (trim s.name);
  hostname = some (trim s.hostname);
  address = some (trim s.address);
  os = some (trim s.os);
  credential_id = some s.credential_id;
  probe_method = some s.probe_method;
  probe_port = some port;
}

-- The call of the API that fits: an update of the host that is edited and loaded, or else a creation.
abbrev pub Calls : Bool → Option Host → Text → FormState → ℕ → World → Result Json × World → Type 0
Calls true (some host) site_id s port w sent = sent ≡ update_host host.id (updates s port) w
Calls editing loaded site_id s port w sent =
    (i : CreateHostInput) × Creates site_id s port i × (sent ≡ create_host i w)

-- A refusal shows its message and nothing goes out; what passes goes out in one call of the API.
abbrev pub Sent :
    (Failure → Text) → Bool → Text → FormState → World → (FormState × Bool) × World → Type 0
Sent engine editing site_id s w (done, w') =
    ((refusal : Text) × IsRefused s refusal
      × (w' ≡ w)
      × (done.1 ≡ false)
      × (done.0.error ≡ some refusal))
    ⊎ ((port : ℕ) × (sent : Result Json × World) × IsNamed s
        × SendsPort s.probe_method s.probe_port port
        × Calls editing s.loaded_host site_id s port w sent
        × (w' ≡ sent.1)
        × Answered engine sent.0 done)

or_undefined-IsGiven : (t : Text) → IsGiven t (or_undefined t)
or_undefined-IsGiven [] = refl
or_undefined-IsGiven (c ∷ t) = refl

create_input-Creates :
    (site_id : Text) (s : FormState) (port : ℕ)
    → Creates site_id s port (
        create_input site_id s (record {
          name = trim s.name;
          hostname = trim s.hostname;
          address = trim s.address;
          probe_port = port;
        }))
unfolding create_input
create_input-Creates site_id s port = (
  refl,
  or_undefined-IsGiven (trim s.name),
  or_undefined-IsGiven (trim s.hostname),
  or_undefined-IsGiven (trim s.address),
  or_undefined-IsGiven (trim s.os),
  or_undefined-IsGiven s.credential_id,
  refl,
  refl,
)

send-Calls :
    (editing : Bool) (loaded : Option Host) (site_id : Text) (s : FormState) (port : ℕ) (w : World)
    → Calls editing loaded site_id s port w (
        send editing loaded site_id s
          (record {
            name = trim s.name;
            hostname = trim s.hostname;
            address = trim s.address;
            probe_port = port;
          })
          w)
unfolding send update_input
send-Calls true (some host) site_id s port w = refl
send-Calls true none site_id s port w = (_, create_input-Creates site_id s port, refl)
send-Calls false (some host) site_id s port w = (_, create_input-Creates site_id s port, refl)
send-Calls false none site_id s port w = (_, create_input-Creates site_id s port, refl)

checked_same :
    (s : FormState) (c : Checked)
    → c.name ≡ trim s.name
    → c.hostname ≡ trim s.hostname
    → c.address ≡ trim s.address
    → c ≡ record {
      name = trim s.name;
      hostname = trim s.hostname;
      address = trim s.address;
      probe_port = c.probe_port;
    }
checked_same s c n h a = rw⁻¹ (n, h, a) refl

submit_checked-Sent :
    (engine : Failure → Text) (editing : Bool) (site_id : Text) (s : FormState)
    (checked : Text ⊎ Checked) (w : World)
    → s.error ≡ none
    → IsChecked s checked
    → ((submit_checked engine editing site_id s checked w).0.0.saving ≡ false)
      × Sent engine editing site_id s w (submit_checked engine editing site_id s checked w)
submit_checked-Sent engine editing site_id s (inl refusal) w h why =
    (refl, inl (refusal, why, refl, refl, refl))
submit_checked-Sent engine editing site_id s (inr c) w h (n, host, a, named, port) =
    let sent : Result Json × World = send editing s.loaded_host site_id s c w in
    let (idle, shown) = settle-Answered engine sent.0 s h in
    (
      idle,
      inr (
        c.probe_port,
        sent,
        named,
        port,
        subst
            (λ d.
              Calls editing s.loaded_host site_id s c.probe_port w
                (send editing s.loaded_host site_id s d w))
            (sym (checked_same s c n host a))
            (send-Calls editing s.loaded_host site_id s c.probe_port w),
        refl,
        shown,
      ),
    )

-- After a submission the form is never busy. A form without a name, or with a bad port for TCP, shows the message for it and
-- sends nothing. Any other goes out in one call of the API, an update of the host that is edited and loaded or else a
-- creation, with the trimmed fields, the credential, the probe and its port: the form counts as saved exactly
-- when the call returned, an expired session shows no message, and any other failure shows its own.
pub handle_submit-Sent :
    (engine : Failure → Text) (editing : Bool) (site_id : Text) (s : FormState) (w : World)
    → let done = handle_submit engine editing site_id s w in
      (done.0.0.saving ≡ false)
      × Sent engine editing site_id (record s { saving = true; error = none }) w done
unfolding handle_submit
handle_submit-Sent engine editing site_id s w =
    let busy : FormState = record s { saving = true; error = none } in
    submit_checked-Sent engine editing site_id busy (check busy) w refl (check-IsChecked busy)
