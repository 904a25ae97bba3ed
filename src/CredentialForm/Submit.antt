-- ===== src/CredentialForm/Submit.antt =====
-- How the asynchronous handlers of web/src/components/CredentialForm.tsx end.
use lab_keeper.Common.{
  Bool, Option, Text, [], false, if◌then◌else◌, non_empty, none, not, or_text, refl, some, text,
  trim, true, ◌&&◌, ◌||◌, ◌∷◌, ◌≡◌,
}
use lab_keeper.Json.{Json}
use lab_keeper.Oidc.Types.{
  Failure, session_expired, error, syntax_error, network_error, type_error, uri_error, message,
}
use lab_keeper.Oidc.World.{World, Result, ok, throws}
use lab_keeper.Api.Types.{Credential}
use lab_keeper.Api.Inputs.{
  CredentialType, password_type, ssh_key, BecomeMethod, no_become, sudo, su, CreateCredentialInput,
  UpdateCredentialInput, IsGiven,
}
use lab_keeper.Api.Endpoints.{create_credential, update_credential}
use lab_keeper.CredentialForm.{
  FormState, send, settle, handle_submit, create_input, update_input, only_if, secret_change,
  is_ssh, becomes,
}

-- What the user sees after a submission, by how the call of the API ended: the form closes; or the
-- login takes over, and no message shows; or the message of the failure shows.
abbrev pub Settled : (Failure → Text) → Result Json → FormState × Bool → Type 0
Settled engine (ok j) (s, saved) = (saved ≡ true) × (s.error ≡ none)
Settled engine (throws (session_expired m)) (s, saved) = (saved ≡ false) × (s.error ≡ none)
Settled engine (throws e) (s, saved) = (saved ≡ false) × (s.error ≡ some (message engine e))

settle-Settled :
    (engine : Failure → Text) (r : Result Json) (s : FormState)
    → s.error ≡ none
    → ((settle engine r s).0.saving ≡ false) × Settled engine r (settle engine r s)
settle-Settled engine (ok j) s h = (refl, (refl, h))
settle-Settled engine (throws (session_expired m)) s h = (refl, (refl, h))
settle-Settled engine (throws (error m)) s h = (refl, (refl, refl))
settle-Settled engine (throws syntax_error) s h = (refl, (refl, refl))
settle-Settled engine (throws network_error) s h = (refl, (refl, refl))
settle-Settled engine (throws type_error) s h = (refl, (refl, refl))
settle-Settled engine (throws uri_error) s h = (refl, (refl, refl))

-- `becomeUser.trim() || "root"`, as it is sent
abbrev pub SendsUser : Text → Option Text → Type 0
SendsUser [] sent = sent ≡ some (text "root")
SendsUser (c ∷ user) sent = sent ≡ some (c ∷ user)

-- The secrets of a creation, by its type, and its escalation, by the become method.
abbrev pub CreatesSecrets : CredentialType → FormState → CreateCredentialInput → Type 0
CreatesSecrets password_type s i =
    (i.password ≡ some s.password) × (i.private_key ≡ none) × (i.passphrase ≡ none)
CreatesSecrets ssh_key s i =
    (i.password ≡ none) × (i.private_key ≡ some s.private_key) × IsGiven s.passphrase i.passphrase

abbrev pub CreatesBecome : BecomeMethod → FormState → CreateCredentialInput → Type 0
CreatesBecome no_become s i = (i.become_user ≡ none) × (i.become_secret ≡ none)
CreatesBecome method s i =
    SendsUser (trim s.become_user) i.become_user × IsGiven s.become_secret i.become_secret

abbrev pub Creates : FormState → CreateCredentialInput → Type 0
Creates s i =
    (i.name ≡ trim s.name)
    × (i.credential_type ≡ s.form_type)
    × (i.username ≡ trim s.username)
    × (i.become_method ≡ some s.become_method)
    × CreatesSecrets s.form_type s i
    × CreatesBecome s.become_method s i

-- A stored secret is removed by the empty text, changed by another, and kept if nothing is sent.
abbrev pub Changes : Bool → Text → Option Text → Type 0
Changes true typed sent = sent ≡ some []
Changes false typed sent = IsGiven typed sent

-- A key is sent as it stands, unless it is blank.
abbrev pub SendsKey : Text → Text → Option Text → Type 0
SendsKey [] key sent = sent ≡ none
SendsKey (c ∷ t) key sent = sent ≡ some key

abbrev pub UpdatesSecrets : CredentialType → FormState → UpdateCredentialInput → Type 0
UpdatesSecrets password_type s i =
    IsGiven s.password i.password × (i.private_key ≡ none) × (i.passphrase ≡ none)
UpdatesSecrets ssh_key s i =
    (i.password ≡ none)
    × SendsKey (trim s.private_key) s.private_key i.private_key
    × Changes s.clear_passphrase s.passphrase i.passphrase

abbrev pub UpdatesBecome : BecomeMethod → FormState → UpdateCredentialInput → Type 0
UpdatesBecome no_become s i = (i.become_user ≡ some []) × (i.become_secret ≡ some [])
UpdatesBecome method s i =
    SendsUser (trim s.become_user) i.become_user
    × Changes s.clear_become_secret s.become_secret i.become_secret

abbrev pub Updates : FormState → UpdateCredentialInput → Type 0
Updates s i =
    (i.name ≡ some (trim s.name))
    × (i.username ≡ some (trim s.username))
    × (i.become_method ≡ some s.become_method)
    × UpdatesSecrets s.form_type s i
    × UpdatesBecome s.become_method s i

-- The call of the API that fits: an update of the credential that is edited, or else a creation.
abbrev pub Calls : Option Credential → FormState → World → Result Json × World → Type 0
Calls none s w sent = (i : CreateCredentialInput) × Creates s i × (sent ≡ create_credential i w)
Calls (some c) s w sent =
    (i : UpdateCredentialInput) × Updates s i × (sent ≡ update_credential c.id i w)

only_if-IsGiven : (t : Text) → IsGiven t (only_if (non_empty t) t)
only_if-IsGiven [] = refl
only_if-IsGiven (c ∷ t) = refl

or_root-SendsUser : (user : Text) → SendsUser user (some (or_text user (text "root")))
or_root-SendsUser [] = refl
or_root-SendsUser (c ∷ user) = refl

secret_change-Changes :
    (clear : Bool) (typed : Text) → Changes clear typed (secret_change clear typed)
secret_change-Changes true typed = refl
secret_change-Changes false typed = only_if-IsGiven typed

only_if-SendsKey : (trimmed key : Text) → SendsKey trimmed key (only_if (non_empty trimmed) key)
only_if-SendsKey [] key = refl
only_if-SendsKey (c ∷ t) key = refl

create_input-Creates : (s : FormState) → Creates s (create_input s)
unfolding create_input
create_input-Creates s = (refl, refl, refl, refl, secrets s.form_type, escalation s.become_method)
  where
    with_parts : CredentialType → BecomeMethod → CreateCredentialInput
    with_parts t m = record (create_input s) {
      password = only_if (not (is_ssh t)) s.password;
      private_key = only_if (is_ssh t) s.private_key;
      passphrase = only_if (is_ssh t && non_empty s.passphrase) s.passphrase;
      become_user = only_if (becomes m) (or_text (trim s.become_user) (text "root"));
      become_secret = only_if (becomes m && non_empty s.become_secret) s.become_secret;
    }

    secrets : (t : CredentialType) → CreatesSecrets t s (with_parts t s.become_method)
    secrets password_type = (refl, refl, refl)
    secrets ssh_key = (refl, refl, only_if-IsGiven s.passphrase)

    escalation : (m : BecomeMethod) → CreatesBecome m s (with_parts s.form_type m)
    escalation no_become = (refl, refl)
    escalation sudo = (or_root-SendsUser (trim s.become_user), only_if-IsGiven s.become_secret)
    escalation su = (or_root-SendsUser (trim s.become_user), only_if-IsGiven s.become_secret)

update_input-Updates : (s : FormState) → Updates s (update_input s)
unfolding update_input
update_input-Updates s = (refl, refl, refl, secrets s.form_type, escalation s.become_method)
  where
    with_parts : CredentialType → BecomeMethod → UpdateCredentialInput
    with_parts t m = record (update_input s) {
      password = only_if (not (is_ssh t) && non_empty s.password) s.password;
      private_key = only_if (is_ssh t && non_empty (trim s.private_key)) s.private_key;
      passphrase = if is_ssh t then secret_change s.clear_passphrase s.passphrase else none;
      become_user = some (if becomes m then or_text (trim s.become_user) (text "root") else []);
      become_secret = secret_change (not (becomes m) || s.clear_become_secret) s.become_secret;
    }

    secrets : (t : CredentialType) → UpdatesSecrets t s (with_parts t s.become_method)
    secrets password_type = (only_if-IsGiven s.password, refl, refl)
    secrets ssh_key = (
      refl,
      only_if-SendsKey (trim s.private_key) s.private_key,
      secret_change-Changes s.clear_passphrase s.passphrase,
    )

    escalation : (m : BecomeMethod) → UpdatesBecome m s (with_parts s.form_type m)
    escalation no_become = (refl, refl)
    escalation sudo = (
      or_root-SendsUser (trim s.become_user),
      secret_change-Changes s.clear_become_secret s.become_secret,
    )
    escalation su = (
      or_root-SendsUser (trim s.become_user),
      secret_change-Changes s.clear_become_secret s.become_secret,
    )

send-Calls :
    (credential : Option Credential) (s : FormState) (w : World)
    → Calls credential s w (send credential s w)
unfolding send
send-Calls none s w = (create_input s, create_input-Creates s, refl)
send-Calls (some c) s w = (update_input s, update_input-Updates s, refl)

-- A submission makes one call of the API, an update of the credential that is edited or else a creation, with
-- the trimmed names, the secrets that fit the type and the escalation that fits the become method; and whatever
-- comes of it the form is no longer busy. It counts as saved exactly when the call returned, an
-- expired session shows no message, and any other failure shows its own.
pub handle_submit-Settled :
    (engine : Failure → Text) (credential : Option Credential) (s : FormState) (w : World)
    → let (done, w') = handle_submit engine credential s w in
      (sent : Result Json × World) × Calls credential
        (record s { saving = true; error = none })
        w
        sent
      × (w' ≡ sent.1)
      × (done.0.saving ≡ false)
      × Settled engine sent.0 done
unfolding handle_submit
handle_submit-Settled engine credential s w =
    let busy : FormState = record s { saving = true; error = none } in
    let (idle, shown) = settle-Settled engine (send credential busy w).0 busy refl in
    (send credential busy w, send-Calls credential busy w, refl, idle, shown)
