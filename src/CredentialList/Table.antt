-- ===== src/CredentialList/Table.antt =====
-- What web/src/components/CredentialList.tsx shows: the table of the credentials, with their buttons.
use lab_keeper.Common.{Bool, List, Text, [], false, if◌then◌else◌, text, ◌++◌, ◌∷◌}
use lab_keeper.Api.Inputs.{CredentialType, password_type, ssh_key}
use lab_keeper.Api.Types.{Credential}
use lab_keeper.Items.{Item, words, button, error_words}
use lab_keeper.CredentialList.{View, become_cell, secrets_cell, key_cell}

-- `onGenerateSSH`, `onCreate`, `onEdit` and `handleDelete`
pub data Click : Type 0 where
  generate create : Click
  edit remove : Credential → Click

abbrev pub type_cell : CredentialType → Text
type_cell ssh_key = text "SSH key"
type_cell password_type = text "Password"

unfoldable pub credential_rows : List Credential → List (Item Click ⊥)
credential_rows [] = []
credential_rows (c ∷ cs) =
    words c.name
    ∷ words (type_cell c.credential_type)
    ∷ words c.username
    ∷ words (become_cell c)
    ∷ words (secrets_cell c)
    ∷ words (key_cell c)
    ∷ button (text "Edit") false (edit c)
    ∷ button (text "Delete") false (remove c)
    ∷ credential_rows cs

abbrev pub table_items : List Credential → List (Item Click ⊥)
table_items [] =
    words (
      text
        "No credentials yet. Generate an SSH key for LabKeeper to hold, or add a password / existing key.")
    ∷ []
table_items (c ∷ cs) =
    words (text "Name")
    ∷ words (text "Type")
    ∷ words (text "Username")
    ∷ words (text "Become")
    ∷ words (text "Flags")
    ∷ words (text "Public key")
    ∷ credential_rows (c ∷ cs)

abbrev pub shown_items : Bool → View → List (Item Click ⊥)
shown_items loading v =
    if loading
    then words (text "Loading credentials…") ∷ []
    else words (text "Stored credentials")
      ∷ button (text "Generate SSH key") false generate
      ∷ button (text "Add credential") false create
      ∷ (error_words v.error ++ table_items v.credentials)

unfoldable pub list_items : View → List (Item Click ⊥)
list_items v = shown_items v.loading v
