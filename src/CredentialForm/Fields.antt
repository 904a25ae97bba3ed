-- ===== src/CredentialForm/Fields.antt =====
-- What web/src/components/CredentialForm.tsx shows: its fields, by the credential that is edited and the
-- property `generateSSHOnMount`. A field that is read-only is given by its words.
use lab_keeper.Common.{
  Bool, List, Option, Text, [], false, if◌then◌else◌, is_some, non_empty, none, some, text, text_eq,
  ◌++◌, ◌||◌, ◌∷◌,
}
use lab_keeper.Api.Inputs.{
  CredentialType, password_type, ssh_key, BecomeMethod, no_become, sudo, su,
}
use lab_keeper.Api.Types.{Credential}
use lab_keeper.Items.{Item, words, button, field, tick, choice, only, error_words}
use lab_keeper.CredentialForm.{
  FormState, Edit, change_name, change_username, change_password, change_private_key,
  change_passphrase, change_type, check_clear_passphrase, check_clear_become_secret,
  change_become_method, change_become_user, change_become_secret, becomes,
}

pub data Click : Type 0 where
  changes : Edit → Click
  generate submit cancel : Click

abbrev pub type_value : CredentialType → Text
type_value password_type = text "password"
type_value ssh_key = text "ssh_key"

-- `event.target.value` as a type, and as a become method
abbrev pub type_of : Text → CredentialType
type_of t = if text_eq t (text "password") then password_type else ssh_key

abbrev pub method_value : BecomeMethod → Text
method_value no_become = text "none"
method_value sudo = text "sudo"
method_value su = text "su"

abbrev pub method_of : Text → BecomeMethod
method_of t =
    if text_eq t (text "sudo") then sudo else if text_eq t (text "su") then su else no_become

abbrev pub is_busy : FormState → Bool
is_busy s = s.saving || s.generating

abbrev pub keep_hint : Bool → Text
keep_hint editing = if editing then text "(leave blank to keep)" else text "(optional)"

abbrev pub keep_only : Bool → Text
keep_only editing = if editing then text "(leave blank to keep)" else []

abbrev pub stored_passphrase : Option Credential → Bool
stored_passphrase none = false
stored_passphrase (some credential) = credential.has_passphrase

abbrev pub stored_become : Option Credential → Bool
stored_become none = false
stored_become (some credential) = credential.has_become_secret

unfoldable pub password_items : Option Credential → FormState → List (Item Click ⊥)
password_items credential s =
    field (text "Password " ++ keep_only (is_some credential)) s.password false
      (λ t. changes (change_password t))
    ∷ []

unfoldable pub key_items : Option Credential → FormState → List (Item Click ⊥)
key_items credential s =
    button (if s.generating then text "Generating…" else text "Generate Ed25519 key") (is_busy s)
      generate
    ∷ words (
        text
          "Creates a key pair here so you can save the private key in the vault and copy the public key onto Hosts.")
    ∷ field (text "Private key (PEM) " ++ keep_only (is_some credential)) s.private_key false
        (λ t. changes (change_private_key t))
    ∷ field (text "Key passphrase " ++ keep_hint (is_some credential)) s.passphrase
        s.clear_passphrase (λ t. changes (change_passphrase t))
    ∷ (only (stored_passphrase credential) (
          tick (text "Clear stored passphrase") s.clear_passphrase false
            (λ b. changes (check_clear_passphrase b))
          ∷ [])
        ++ only (non_empty s.public_key_preview) (
            words (text "Public key (derived — copy to authorized_keys)")
            ∷ words s.public_key_preview
            ∷ []))

abbrev pub secret_items : CredentialType → Option Credential → FormState → List (Item Click ⊥)
secret_items password_type credential s = password_items credential s
secret_items ssh_key credential s = key_items credential s

unfoldable pub become_items : Option Credential → FormState → List (Item Click ⊥)
become_items credential s =
    field (text "Become user") s.become_user false (λ t. changes (change_become_user t))
    ∷ field (text "Become password " ++ keep_hint (is_some credential)) s.become_secret
        s.clear_become_secret (λ t. changes (change_become_secret t))
    ∷ only (stored_become credential) (
        tick (text "Clear stored become password") s.clear_become_secret false
          (λ b. changes (check_clear_become_secret b))
        ∷ [])

-- The second argument is `generateSSHOnMount`.
unfoldable pub form_items : Option Credential → Bool → FormState → List (Item Click ⊥)
form_items credential generates s =
    words (if is_some credential then text "Edit credential" else text "Add credential")
    ∷ field (text "Name") s.name false (λ t. changes (change_name t))
    ∷ choice (text "Type") (type_value s.form_type)
        ((text "password", text "Username + password")
          ∷ (text "ssh_key", text "SSH private key")
          ∷ [])
        (is_some credential || generates) (λ t. changes (change_type (type_of t)))
    ∷ field (text "Username") s.username false (λ t. changes (change_username t))
    ∷ (secret_items s.form_type credential s
        ++ (words (text "Privilege escalation (become)")
            ∷ words (
                text
                  "Ansible-style: login as the username above, then optionally escalate with sudo/su. LabKeeper does not change sudoers on the Host.")
            ∷ choice (text "Become method") (method_value s.become_method)
                ((text "none", text "None")
                  ∷ (text "sudo", text "sudo")
                  ∷ (text "su", text "su")
                  ∷ [])
                false (λ t. changes (change_become_method (method_of t)))
            ∷ (only (becomes s.become_method) (become_items credential s)
                ++ (error_words s.error
                    ++ (button (if s.saving then text "Saving…" else text "Save") (is_busy s) submit
                        ∷ button (text "Cancel") (is_busy s) cancel
                        ∷ [])))))
