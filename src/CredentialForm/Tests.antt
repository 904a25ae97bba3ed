-- ===== src/CredentialForm/Tests.antt =====
-- The theorems of web/src/components/CredentialForm.tsx at a concrete form.
use lab_keeper.Common.{
  List, Text, [], false, if◌then◌else◌, inl, inr, none, refl, some, text, trim, true, ◌+◌, ◌∷◌, ◌≡◌,
  ◌≢◌, ◌≤◌, ◌⊎◌,
}
use lab_keeper.Oidc.Types.{Failure}
use lab_keeper.Oidc.Samples.{sample_world, reply}
use lab_keeper.Json.{Json}
use lab_keeper.Oidc.World.{World, Result}
use lab_keeper.Api.Inputs.{ssh_key, sudo}
use lab_keeper.Api.Types.{Credential}
use lab_keeper.CredentialForm.{
  FormState, initial_state, Edit, change_passphrase, check_clear_passphrase, handle_submit,
  update_input, create_input, becomes,
}
use lab_keeper.CredentialForm.Payload.{
  IsConsistent, edits, SecretsOf, edits-initial_state-IsConsistent, input-SecretsOf,
  update_input-initial_state,
}
use lab_keeper.Items.Allows.{Allows}
use lab_keeper.CredentialForm.{change_name}
use lab_keeper.CredentialForm.Fields.{changes, generate, key_items, form_items}
use lab_keeper.CredentialForm.Use.{
  InUse, opened, generation_begins, asks_key, Reaches, starts, moves,
}
use lab_keeper.CredentialForm.Sound.{HasType}
use lab_keeper.CredentialForm.Single.{Reaches-single}
use lab_keeper.CredentialForm.Submit.{Calls, Settled, handle_submit-Settled}

abbrev stored_key : Credential
stored_key = record {
  id = text "c1";
  name = text " key ";
  credential_type = ssh_key;
  username = text "root";
  public_key = some (text "ssh-ed25519 A");
  has_passphrase = true;
  become_method = sudo;
  become_user = none;
  has_become_secret = true;
  created_at = text "t";
  updated_at = text "t";
}

abbrev second_thoughts : List Edit
second_thoughts = check_clear_passphrase true ∷ change_passphrase (text "p") ∷ []

abbrev edited : FormState
edited = edits second_thoughts (initial_state (some stored_key) false)

edits-initial_state-IsConsistent_example :
    IsConsistent (edits second_thoughts (initial_state (some stored_key) false))
edits-initial_state-IsConsistent_example =
    edits-initial_state-IsConsistent second_thoughts (some stored_key) false

input-SecretsOf_example :
    let u = update_input edited in
    let c = create_input edited in
    SecretsOf edited.form_type u.password u.private_key u.passphrase
    × SecretsOf edited.form_type c.password c.private_key c.passphrase
    × (u.password ≢ some [])
    × (u.private_key ≢ some [])
    × ((becomes edited.become_method ≡ true)
        ⊎ ((u.become_user ≡ some [])
            × (u.become_secret ≡ some [])
            × (c.become_user ≡ none)
            × (c.become_secret ≡ none)))
input-SecretsOf_example = input-SecretsOf edited

update_input-initial_state_example :
    let u = update_input (initial_state (some stored_key) false) in
    (u.name ≡ some (trim stored_key.name))
    × (u.username ≡ some (trim stored_key.username))
    × (u.password ≡ none)
    × (u.private_key ≡ none)
    × (u.passphrase ≡ none)
    × (u.become_method ≡ some stored_key.become_method)
    × (u.become_secret ≡ (if becomes stored_key.become_method then none else some []))
update_input-initial_state_example = update_input-initial_state stored_key false

abbrev no_message : Failure → Text
no_message e = []

abbrev refusing_world : World
refusing_world = sample_world (reply 409 (text "E") ∷ [])

handle_submit-Settled_example :
    let (done, w') = handle_submit no_message (some stored_key) edited refusing_world in
    (sent : Result Json × World) × Calls
      (some stored_key)
      (record edited { saving = true; error = none })
      refusing_world
      sent
    × (w' ≡ sent.1)
    × (done.0.saving ≡ false)
    × Settled no_message sent.0 done
handle_submit-Settled_example =
    handle_submit-Settled no_message (some stored_key) edited refusing_world

abbrev engine : Failure → Text
engine e = text "m"

abbrev fresh_use : InUse
fresh_use = opened (some stored_key) false

key_is_offered : Allows generate (form_items (some stored_key) false fresh_use.form)
unfolding form_items key_items initial_state
key_is_offered = inr (inr (inr (inl (refl, refl))))

name_can_change :
    Allows (changes (change_name (text "n"))) (form_items (some stored_key) false fresh_use.form)
unfolding form_items
name_can_change = inl (refl, (text "n", refl))

key_pending-Reaches : Reaches engine (some stored_key) false (generation_begins fresh_use)
key_pending-Reaches =
    moves fresh_use (generation_begins fresh_use) starts (asks_key fresh_use key_is_offered)

Reaches-single_example :
    HasType (some stored_key) (generation_begins fresh_use).form.form_type
    × ((generation_begins fresh_use).submissions + (generation_begins fresh_use).generations ≤ 1)
Reaches-single_example =
    Reaches-single engine (some stored_key) false (generation_begins fresh_use) key_pending-Reaches
