-- ===== src/CredentialsPage.antt =====
-- web/src/pages/CredentialsPage.tsx: which of the list and the form shows, and for which credential.
pub mod Modes
mod Tests
use lab_keeper.Common.{Bool, List, Option, [], false, none, some, suc, true, ℕ, ◌∷◌}
use lab_keeper.Api.Types.{Credential}

pub data Mode : Type 0 where
  list_mode create_mode edit_mode : Mode

-- The state of the page. The list that the page mounts has its own: it loads when it is mounted, which is
-- whenever the form has closed, and when `refreshKey` changes.
pub record State : Type 0 where
  pub mode : Mode
  pub editing : Option Credential
  pub generate_ssh_on_mount : Bool
  pub refresh_key : ℕ

abbrev pub initial_state : State
initial_state = record {
  mode = list_mode;
  editing = none;
  generate_ssh_on_mount = false;
  refresh_key = 0;
}

-- The handlers that the page passes to the list, and to the form.
pub data Input : Type 0 where
  on_create on_generate_ssh : Input
  on_edit : Credential → Input
  on_cancel on_saved : Input

unfoldable pub handle : Input → State → State
handle on_create s = record s { editing = none; generate_ssh_on_mount = false; mode = create_mode }
handle on_generate_ssh s = record s {
  editing = none;
  generate_ssh_on_mount = true;
  mode = create_mode;
}
handle (on_edit credential) s = record s {
  editing = some credential;
  generate_ssh_on_mount = false;
  mode = edit_mode;
}
handle on_cancel s = record s { editing = none; generate_ssh_on_mount = false; mode = list_mode }
handle on_saved s = record s {
  editing = none;
  generate_ssh_on_mount = false;
  mode = list_mode;
  refresh_key = suc s.refresh_key;
}

-- `mode === "edit" ? editing : null`
unfoldable pub form_credential : State → Option Credential
form_credential s = elim s.mode [ edit_mode ↦ s.editing | list_mode ↦ none | create_mode ↦ none ]

-- `mode === "create" && generateSSHOnMount`
unfoldable pub form_generates : State → Bool
form_generates s = elim s.mode [
  | create_mode ↦ s.generate_ssh_on_mount
  | list_mode ↦ false
  | edit_mode ↦ false
]

unfoldable pub play : List Input → State → State
unfolding handle
play [] s = s
play (i ∷ is) s = play is (handle i s)
