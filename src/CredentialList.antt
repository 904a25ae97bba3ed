-- ===== src/CredentialList.antt =====
-- web/src/components/CredentialList.tsx: the table of the stored credentials, its load and its
-- deletion, and what its cells and buttons show.
pub mod Removal
pub mod Table
pub mod Offered
mod Tests
use lab_keeper.Common.{
  Bool, List, Option, Text, [], false, if◌then◌else◌, none, or_else, or_text, take, text, text_eq,
  true, truthy, ℕ, ◌++◌, ◌∷◌,
}
use lab_keeper.Oidc.Types.{Failure, report}
use lab_keeper.Oidc.World.{World, Result, ok, throws}
use lab_keeper.Api.Inputs.{BecomeMethod, no_become, sudo, su}
use lab_keeper.Api.Types.{Credential}
use lab_keeper.Api.Endpoints.{delete_credential}
use lab_keeper.Effects.{Page}

pub record View : Type 0 where
  pub credentials : List Credential
  pub error : Option Text
  pub loading : Bool

abbrev pub initial_view : View
initial_view = record { credentials = []; error = none; loading = true }

-- `current.filter((item) => item.id !== credential.id)`
unfoldable pub without : Text → List Credential → List Credential
without id [] = []
without id (item ∷ items) =
    let rest = without id items in if text_eq item.id id then rest else item ∷ rest

-- The effect for a `refreshKey`, up to the request
unfoldable pub load_begins : ℕ → View → View × Bool
load_begins refresh_key v = (record v { loading = true }, true)

module _ (engine_message : Failure → Text) where
  unfoldable pub load_ended : ℕ → Result (List Credential) → View → View
  load_ended refresh_key (ok credentials) v = record v {
    credentials = credentials;
    error = none;
    loading = false;
  }
  load_ended refresh_key (throws e) v = record v {
    error = report engine_message e v.error;
    loading = false;
  }

  unfoldable pub delete_settled : Credential → Result (Unit {0}) → View → View
  unfolding without
  delete_settled credential (ok done) v = record v {
    credentials = without credential.id v.credentials;
  }
  delete_settled credential (throws e) v = record v { error = report engine_message e v.error }

  -- `handleDelete`; the dialog's answer is the first argument.
  unfoldable pub handle_delete : Bool → Credential → View → World → View × World
  unfolding delete_settled
  handle_delete confirmed credential v w =
      if confirmed
      then (let (r, w') = delete_credential credential.id w in (delete_settled credential r v, w'))
      else (v, w)

  abbrev pub page : Page ℕ (Result (List Credential)) (Credential × Result (Unit {0})) View
  page = record {
    begins = load_begins;
    answered = load_ended;
    handles = λ i v. delete_settled i.0 i.1 v;
  }

-- The cell of the escalation
unfoldable pub become_cell : Credential → Text
become_cell credential = elim credential.become_method [
  | no_become ↦ text "—"
  | sudo ↦ text "sudo → " ++ or_text (or_else credential.become_user []) (text "root")
  | su ↦ text "su → " ++ or_text (or_else credential.become_user []) (text "root")
]

-- The cell of the secrets: `[…].filter(Boolean).join(", ") || "—"`
unfoldable pub secrets_cell : Credential → Text
secrets_cell credential =
    if credential.has_passphrase
    then (if credential.has_become_secret
        then text "passphrase, become secret"
        else text "passphrase")
    else if credential.has_become_secret
    then text "become secret"
    else text "—"

unfoldable pub key_cell : Credential → Text
key_cell credential =
    if truthy credential.public_key
    then take 48 (or_else credential.public_key []) ++ text "…"
    else text "—"
