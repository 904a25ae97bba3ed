-- ===== src/CredentialForm/Use.antt =====
-- The form of web/src/components/CredentialForm.tsx in use: only what it shows can be changed or clicked, and
-- each of its requests is answered once.
use lab_keeper.Common.{Bool, Option, Text, if◌then◌else◌, none, some, suc, true, ℕ, ◌≡◌}
use lab_keeper.Oidc.Types.{Failure}
use lab_keeper.Oidc.World.{Result}
use lab_keeper.Json.{Json}
use lab_keeper.Api.Types.{Credential}
use lab_keeper.Items.Allows.{Allows}
use lab_keeper.CredentialForm.{
  FormState, initial_state, Edit, edit, GeneratedSshKey, settle, key_settled, mount_settled,
}
use lab_keeper.CredentialForm.Fields.{changes, generate, submit, form_items}

-- The form, and the numbers of its requests that are under way: submissions, and generations of a key.
pub record InUse : Type 0 where
  pub form : FormState
  pub submissions : ℕ
  pub generations : ℕ

-- `handleGenerateSSH`, and the effect of `generateSSHOnMount`, up to the request
abbrev pub generation_begins : InUse → InUse
generation_begins u = record u {
  form = record u.form { generating = true; error = none };
  generations = suc u.generations;
}

-- `handleSubmit` up to the request
abbrev pub submission_begins : InUse → InUse
submission_begins u = record u {
  form = record u.form { saving = true; error = none };
  submissions = suc u.submissions;
}

-- The form as it is opened; the effect of `generateSSHOnMount` begins at once, for a new credential. It
-- begins once, as in a build for production: its cancellation when the form goes away, and the second run of
-- `StrictMode` in development, are left out.
abbrev pub opened : Option Credential → Bool → InUse
opened (some credential) generates = record {
  form = initial_state (some credential) generates;
  submissions = 0;
  generations = 0;
}
opened none generates =
    let bare : InUse = record {
      form = initial_state none generates;
      submissions = 0;
      generations = 0;
    } in
    if generates then generation_begins bare else bare

module _ (engine : Failure → Text) (credential : Option Credential) (generates : Bool) where
  -- One thing that happens to the form.
  pub data Moves : InUse → InUse → Type 0 where
    edits :
        (u : InUse) (e : Edit)
        → Allows (changes e) (form_items credential generates u.form)
        → Moves u (record u { form = edit e u.form })
    asks_key :
        (u : InUse)
        → Allows generate (form_items credential generates u.form)
        → Moves u (generation_begins u)
    submits :
        (u : InUse)
        → Allows submit (form_items credential generates u.form)
        → Moves u (submission_begins u)
    key_ends :
        (u : InUse) (n : ℕ) (r : Result GeneratedSshKey)
        → u.generations ≡ suc n
        → Moves u (record u { form = key_settled engine r u.form; generations = n })
    -- the request of the effect, which keeps the passphrase
    first_key_ends :
        (u : InUse) (n : ℕ) (r : Result GeneratedSshKey)
        → credential ≡ none
        → u.generations ≡ suc n
        → Moves u (record u { form = mount_settled engine r u.form; generations = n })
    submission_ends :
        (u : InUse) (n : ℕ) (r : Result Json)
        → u.submissions ≡ suc n
        → Moves u (record u { form = (settle engine r u.form).0; submissions = n })

  pub data Reaches : InUse → Type 0 where
    starts : Reaches (opened credential generates)
    moves : (u v : InUse) → Reaches u → Moves u v → Reaches v
