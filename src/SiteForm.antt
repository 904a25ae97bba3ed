-- ===== src/SiteForm.antt =====
-- web/src/components/SiteForm.tsx: the state of the form and its `handleSubmit`.
pub mod Submit
pub mod Fields
pub mod Single
mod Tests
use lab_keeper.Common.{Bool, Option, Text, [], false, none, some, text, trim, true, ◌∷◌}
use lab_keeper.Json.{Json}
use lab_keeper.Oidc.Types.{Failure, session_expired, message}
use lab_keeper.Oidc.World.{World, Result, ok, throws, Action}
use lab_keeper.Api.Inputs.{CreateSiteInput, UpdateSiteInput}
use lab_keeper.Api.Types.{Site}
use lab_keeper.Api.Endpoints.{create_site, update_site}

pub record FormState : Type 0 where
  pub name : Text
  pub discovery_enabled : Bool
  pub error : Option Text
  pub saving : Bool

-- The `useState` calls.
unfoldable pub initial_state : Option Site → FormState
initial_state none = record { name = []; discovery_enabled = false; error = none; saving = false }
initial_state (some site) = record {
  name = site.name;
  discovery_enabled = site.discovery_enabled;
  error = none;
  saving = false;
}

-- The call of the API for a name that was checked.
unfoldable pub send : Option Site → Text → Bool → Action Json
send none name enabled = create_site (record { name = name; discovery_enabled = some enabled })
send (some site) name enabled =
    update_site site.id (record { name = some name; discovery_enabled = some enabled })

module _ (engine_message : Failure → Text) where
  -- The form, and what `onSaved` was called with.
  abbrev pub settle : Result Json → FormState → FormState × Option Json
  settle (ok saved) s = (record s { saving = false }, some saved)
  settle (throws (session_expired m)) s = (record s { saving = false }, none)
  settle (throws e) s = (record s { error = some (message engine_message e); saving = false }, none)

  abbrev pub submit_named :
      Option Site → Text → FormState → World → (FormState × Option Json) × World
  submit_named site [] s w =
      ((record s { error = some (text "Name is required"); saving = false }, none), w)
  submit_named site (c ∷ name) s w =
      let (r, w') = send site (c ∷ name) s.discovery_enabled w in (settle r s, w')

  unfoldable pub handle_submit : Option Site → FormState → World → (FormState × Option Json) × World
  handle_submit site s w =
      submit_named site (trim s.name) (record s { saving = true; error = none }) w
