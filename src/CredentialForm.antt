-- ===== src/CredentialForm.antt =====
-- web/src/components/CredentialForm.tsx: the state of the form, its fields' handlers, and what it
-- sends. The calls of `onCancel` are left out.
pub mod Payload
pub mod Submit
pub mod Fields
pub mod Use
pub mod Allowed
pub mod Sound
pub mod Single
mod Tests
use lab_keeper.Common.{
  Bool, Option, Text, [], false, if◌then◌else◌, non_empty, none, not, or_else, or_text, some, text,
  trim, true, ◌&&◌, ◌||◌,
}
use lab_keeper.Json.{Json}
use lab_keeper.Oidc.Types.{Failure, session_expired, message}
use lab_keeper.Oidc.World.{World, Result, ok, throws, Action}
use lab_keeper.Api.Inputs.{
  CredentialType, password_type, ssh_key, BecomeMethod, no_become, sudo, su, CreateCredentialInput,
  UpdateCredentialInput,
}
use lab_keeper.Api.Types.{Credential}
use lab_keeper.Api.Endpoints.{create_credential, update_credential, generate_ssh_key}

pub record FormState : Type 0 where
  pub name : Text
  pub form_type : CredentialType
  pub username : Text
  pub password : Text
  pub private_key : Text
  pub passphrase : Text
  pub clear_passphrase : Bool
  pub public_key_preview : Text
  pub become_method : BecomeMethod
  pub become_user : Text
  pub become_secret : Text
  pub clear_become_secret : Bool
  pub error : Option Text
  pub saving : Bool
  pub generating : Bool

abbrev pub initial_type : Option Credential → Bool → CredentialType
initial_type (some c) generate = c.credential_type
initial_type none generate = if generate then ssh_key else password_type

abbrev pub initial_method : Option Credential → BecomeMethod
initial_method none = no_become
initial_method (some c) = c.become_method

abbrev pub read_field : (Credential → Text) → Text → Option Credential → Text
read_field f d none = d
read_field f d (some c) = f c

-- The `useState` calls.
unfoldable pub initial_state : Option Credential → Bool → FormState
initial_state credential generate = record {
  name = read_field (λ c. c.name) [] credential;
  form_type = initial_type credential generate;
  username = read_field (λ c. c.username) [] credential;
  password = [];
  private_key = [];
  passphrase = [];
  clear_passphrase = false;
  public_key_preview = read_field (λ c. or_else c.public_key []) [] credential;
  become_method = initial_method credential;
  become_user = read_field (λ c. or_else c.become_user (text "root")) (text "root") credential;
  become_secret = [];
  clear_become_secret = false;
  error = none;
  saving = false;
  generating = false;
}

-- What the user does to a field.
pub data Edit : Type 0 where
  change_name change_username change_password change_private_key change_passphrase : Text → Edit
  change_type : CredentialType → Edit
  check_clear_passphrase check_clear_become_secret : Bool → Edit
  change_become_method : BecomeMethod → Edit
  change_become_user change_become_secret : Text → Edit

unfoldable pub set_type : CredentialType → FormState → FormState
set_type password_type s = record s {
  form_type = password_type;
  public_key_preview = [];
  passphrase = [];
  clear_passphrase = false;
}
set_type ssh_key s = record s { form_type = ssh_key }

-- The `onChange` handlers.
unfoldable pub edit : Edit → FormState → FormState
unfolding set_type
edit (change_name v) s = record s { name = v }
edit (change_username v) s = record s { username = v }
edit (change_password v) s = record s { password = v }
edit (change_private_key v) s = record s { private_key = v; public_key_preview = [] }
edit (change_passphrase v) s = record s {
  passphrase = v;
  clear_passphrase = if non_empty v then false else s.clear_passphrase;
}
edit (change_type t) s = set_type t s
edit (check_clear_passphrase b) s = record s {
  clear_passphrase = b;
  passphrase = if b then [] else s.passphrase;
}
edit (check_clear_become_secret b) s = record s {
  clear_become_secret = b;
  become_secret = if b then [] else s.become_secret;
}
edit (change_become_method v) s = record s { become_method = v }
edit (change_become_user v) s = record s { become_user = v }
edit (change_become_secret v) s = record s {
  become_secret = v;
  clear_become_secret = if non_empty v then false else s.clear_become_secret;
}

abbrev pub becomes : BecomeMethod → Bool
becomes no_become = false
becomes sudo = true
becomes su = true

abbrev pub is_ssh : CredentialType → Bool
is_ssh password_type = false
is_ssh ssh_key = true

abbrev pub only_if : Bool → Text → Option Text
only_if true t = some t
only_if false t = none

-- `clear ? "" : typed || undefined`
abbrev pub secret_change : Bool → Text → Option Text
secret_change clear typed = if clear then some [] else only_if (non_empty typed) typed

-- `becomeUser.trim() || "root"`
abbrev pub become_user_or_root : FormState → Text
become_user_or_root s = or_text (trim s.become_user) (text "root")

-- The input of an update.
unfoldable pub update_input : FormState → UpdateCredentialInput
update_input s = record {
  name = some (trim s.name);
  username = some (trim s.username);
  password = only_if (not (is_ssh s.form_type) && non_empty s.password) s.password;
  private_key = only_if (is_ssh s.form_type && non_empty (trim s.private_key)) s.private_key;
  passphrase = if is_ssh s.form_type then secret_change s.clear_passphrase s.passphrase else none;
  become_method = some s.become_method;
  become_user = some (if becomes s.become_method then become_user_or_root s else []);
  become_secret =
      secret_change (not (becomes s.become_method) || s.clear_become_secret) s.become_secret;
}

-- The input of a creation.
unfoldable pub create_input : FormState → CreateCredentialInput
create_input s = record {
  name = trim s.name;
  credential_type = s.form_type;
  username = trim s.username;
  password = only_if (not (is_ssh s.form_type)) s.password;
  private_key = only_if (is_ssh s.form_type) s.private_key;
  passphrase = only_if (is_ssh s.form_type && non_empty s.passphrase) s.passphrase;
  become_method = some s.become_method;
  become_user = only_if (becomes s.become_method) (become_user_or_root s);
  become_secret = only_if (becomes s.become_method && non_empty s.become_secret) s.become_secret;
}

-- The call of the API: an update of the credential that is edited, or a creation.
unfoldable pub send : Option Credential → FormState → Action Json
send none s = create_credential (create_input s)
send (some c) s = update_credential c.id (update_input s)

-- A public and a private key that the server made.
pub record GeneratedSshKey : Type 0 where
  pub private_key : Text
  pub public_key : Text

-- The messages of errors that the engine throws are a parameter.
module _ (engine_message : Failure → Text) where
  -- How the `try` block of `handleSubmit` ends: the form, and whether `onSaved` was called.
  abbrev pub settle : Result Json → FormState → FormState × Bool
  settle (ok j) s = (record s { saving = false }, true)
  settle (throws (session_expired m)) s = (record s { saving = false }, false)
  settle (throws e) s =
      (record s { error = some (message engine_message e); saving = false }, false)

  unfoldable pub handle_submit : Option Credential → FormState → World → (FormState × Bool) × World
  handle_submit credential s w =
      let busy = record s { saving = true; error = none } in
      let (r, w') = send credential busy w in (settle r busy, w')

  abbrev pub key_settled : Result GeneratedSshKey → FormState → FormState
  key_settled (ok key) s = record s {
    form_type = ssh_key;
    private_key = key.private_key;
    public_key_preview = key.public_key;
    passphrase = [];
    clear_passphrase = false;
    generating = false;
  }
  key_settled (throws (session_expired m)) s = record s { generating = false }
  key_settled (throws e) s = record s {
    error = some (message engine_message e);
    generating = false;
  }

  -- `handleGenerateSSH`, by how the call of the API ends.
  unfoldable pub handle_generate_ssh : Result GeneratedSshKey → FormState → FormState
  handle_generate_ssh r s = key_settled r (record s { generating = true; error = none })

  abbrev pub mount_settled : Result GeneratedSshKey → FormState → FormState
  mount_settled (ok key) s = record s {
    form_type = ssh_key;
    private_key = key.private_key;
    public_key_preview = key.public_key;
    generating = false;
  }
  mount_settled (throws (session_expired m)) s = record s { generating = false }
  mount_settled (throws e) s = record s {
    error = some (message engine_message e);
    generating = false;
  }

  -- The effect that generates a key for a new credential, if it is not cancelled.
  unfoldable pub generate_on_mount :
      Option Credential → Bool → Result GeneratedSshKey → FormState → FormState
  generate_on_mount (some c) wanted r s = s
  generate_on_mount none wanted r s =
      if wanted then mount_settled r (record s { generating = true; error = none }) else s
