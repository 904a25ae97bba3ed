-- ===== src/CredentialList/Tests.antt =====
-- A deletion in web/src/components/CredentialList.tsx.
use lab_keeper.Common.{Text, [], false, none, refl, some, text, true, ◌∷◌, ◌≡◌}
use lab_keeper.Oidc.Types.{Failure}
use lab_keeper.Oidc.World.{World}
use lab_keeper.Oidc.Samples.{sample_world, reply}
use lab_keeper.Api.Inputs.{password_type, sudo}
use lab_keeper.Api.Types.{Credential}
use lab_keeper.Api.Endpoints.{delete_credential}
use lab_keeper.CredentialList.Offered.{Loses, handle_delete-Loses}
use lab_keeper.CredentialList.{View, handle_delete, initial_view, become_cell, secrets_cell}

abbrev stored : Credential
stored = record {
  id = text "c1";
  name = text "root";
  credential_type = password_type;
  username = text "root";
  public_key = none;
  has_passphrase = true;
  become_method = sudo;
  become_user = some [];
  has_become_secret = true;
  created_at = text "t";
  updated_at = text "t";
}

cells :
    (become_cell stored ≡ text "sudo → root")
    × (secrets_cell stored ≡ text "passphrase, become secret")
unfolding become_cell secrets_cell text
cells = (refl, refl)

abbrev table : View
table = record initial_view { credentials = stored ∷ []; loading = false }

abbrev engine : Failure → Text
engine e = text "m"

abbrev world : World
world = sample_world (reply 204 [] ∷ [])

handle_delete-Loses_example :
    let sent = delete_credential stored.id world in
    let done = handle_delete engine true stored table world in
    (done.1 ≡ sent.1) × Loses engine stored.id sent.0 table done.0
handle_delete-Loses_example = handle_delete-Loses engine stored table world
