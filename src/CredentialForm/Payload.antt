-- ===== src/CredentialForm/Payload.antt =====
-- What web/src/components/CredentialForm.tsx sends of the secrets.
use lab_keeper.Common.{
  Bool, Bool-cases, List, Option, Text, [], arith, false, if◌then◌else◌, inl, inr, non_empty, none,
  not, refl, some, trim, true, ◌&&◌, ◌∷◌, ◌≡◌, ◌≢◌, ◌⊎◌,
}
use lab_keeper.Api.Inputs.{CredentialType, password_type, ssh_key}
use lab_keeper.Api.Types.{Credential}
use lab_keeper.CredentialForm.{
  only_if, FormState, initial_state, Edit, edit, change_name, change_type, becomes, is_ssh,
  update_input, create_input,
}

-- A secret is not both typed anew and marked for removal.
pub record IsConsistent (s : FormState) : Type 0 where
  pub passphrase_clear : (s.clear_passphrase && non_empty s.passphrase) ≡ false
  pub become_clear : (s.clear_become_secret && non_empty s.become_secret) ≡ false

-- The edits in the order in which the user makes them.
pub edits : List Edit → FormState → FormState
edits [] s = s
edits (e ∷ es) s = edits es (edit e s)

edit-IsConsistent : (e : Edit) (s : FormState) → IsConsistent s → IsConsistent (edit e s)
unfolding edit
edit-IsConsistent (change_name v) s h = ground arith
edit-IsConsistent (change_type password_type) s h = ground arith
edit-IsConsistent (change_type ssh_key) s h = ground arith
edit-IsConsistent _ s h = ground arith

edits-IsConsistent : (es : List Edit) (s : FormState) → IsConsistent s → IsConsistent (edits es s)
unfolding edits
edits-IsConsistent [] s h = h
edits-IsConsistent (e ∷ es) s h = edits-IsConsistent es (edit e s) (edit-IsConsistent e s h)

initial-IsConsistent :
    (credential : Option Credential) (generate : Bool)
    → IsConsistent (initial_state credential generate)
unfolding initial_state
initial-IsConsistent credential generate = record { passphrase_clear = refl; become_clear = refl }

-- Whatever the user does to the fields, the form never holds a new passphrase or become password
-- together with the mark to remove the stored one.
pub edits-initial_state-IsConsistent :
    (es : List Edit) (credential : Option Credential) (generate : Bool)
    → IsConsistent (edits es (initial_state credential generate))
edits-initial_state-IsConsistent es credential generate =
    edits-IsConsistent es (initial_state credential generate)
      (initial-IsConsistent credential generate)

-- The two kinds of credential and the secrets that may come with each.
abbrev pub SecretsOf : CredentialType → Option Text → Option Text → Option Text → Type 0
SecretsOf password_type password private_key passphrase = (private_key ≡ none) × (passphrase ≡ none)
SecretsOf ssh_key password private_key passphrase = password ≡ none

update-SecretsOf :
    (t : CredentialType) (typed keyed : Bool) (password private_key : Text)
    (passphrase : Option Text)
    → SecretsOf t
        (only_if (not (is_ssh t) && typed) password)
        (only_if (is_ssh t && keyed) private_key)
        (if is_ssh t then passphrase else none)
update-SecretsOf password_type typed keyed password private_key passphrase = (refl, refl)
update-SecretsOf ssh_key typed keyed password private_key passphrase = refl

create-SecretsOf :
    (t : CredentialType) (phrased : Bool) (password private_key passphrase : Text)
    → SecretsOf t
        (only_if (not (is_ssh t)) password)
        (only_if (is_ssh t) private_key)
        (only_if (is_ssh t && phrased) passphrase)
create-SecretsOf password_type phrased password private_key passphrase = (refl, refl)
create-SecretsOf ssh_key phrased password private_key passphrase = refl

password-ne-empty : (b : Bool) (t : Text) → only_if (b && non_empty t) t ≢ some []
password-ne-empty b t = ground arith

key-ne-empty : (b : Bool) (t : Text) → only_if (b && non_empty (trim t)) t ≢ some []
unfolding trim
key-ne-empty true [] = cc
key-ne-empty false [] = cc
key-ne-empty b (c ∷ t) = ground arith

become_fields :
    (s : FormState)
    → (becomes s.become_method ≡ true)
      ⊎ (((update_input s).become_user ≡ some [])
          × ((update_input s).become_secret ≡ some [])
          × ((create_input s).become_user ≡ none)
          × ((create_input s).become_secret ≡ none))
unfolding update_input create_input
become_fields s = elim (Bool-cases (becomes s.become_method)) [
  | inl yes_become ↦ inl yes_become
  | inr none_become ↦ inr (ground arith, ground arith, ground arith, ground arith)
]

-- Neither a creation nor an update sends a secret of the other kind of credential, and an update
-- sends no empty password and no empty key. Without a become method both clear the become fields:
-- an update sends them empty and a creation leaves them out.
pub input-SecretsOf :
    (s : FormState)
    → let u = update_input s in
      let c = create_input s in
      SecretsOf s.form_type u.password u.private_key u.passphrase
      × SecretsOf s.form_type c.password c.private_key c.passphrase
      × (u.password ≢ some [])
      × (u.private_key ≢ some [])
      × ((becomes s.become_method ≡ true)
          ⊎ ((u.become_user ≡ some [])
              × (u.become_secret ≡ some [])
              × (c.become_user ≡ none)
              × (c.become_secret ≡ none)))
unfolding update_input create_input
input-SecretsOf s = (
  update-SecretsOf s.form_type (non_empty s.password) (non_empty (trim s.private_key)) s.password
      s.private_key _,
  create-SecretsOf s.form_type (non_empty s.passphrase) s.password s.private_key s.passphrase,
  password-ne-empty (not (is_ssh s.form_type)) s.password,
  key-ne-empty (is_ssh s.form_type) s.private_key,
  become_fields s,
)

-- A credential that is opened and saved without an edit keeps its secrets: no password, key or
-- passphrase is sent, and no become password either, unless the credential has no become method,
-- when an empty one is sent. Name and user name are sent trimmed, and the become method as it is.
pub update_input-initial_state :
    (c : Credential) (generate : Bool)
    → let u = update_input (initial_state (some c) generate) in
      (u.name ≡ some (trim c.name))
      × (u.username ≡ some (trim c.username))
      × (u.password ≡ none)
      × (u.private_key ≡ none)
      × (u.passphrase ≡ none)
      × (u.become_method ≡ some c.become_method)
      × (u.become_secret ≡ (if becomes c.become_method then none else some []))
unfolding update_input initial_state trim
update_input-initial_state c generate =
    (refl, refl, ground arith, ground arith, ground arith, refl, ground arith)
