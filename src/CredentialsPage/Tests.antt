-- ===== src/CredentialsPage/Tests.antt =====
-- The page of web/src/pages/CredentialsPage.tsx after a few clicks.
use lab_keeper.Common.{List, [], false, none, text, true, ◌++◌, ◌∷◌, ◌≡◌}
use lab_keeper.CredentialForm
use lab_keeper.Api.Types.{Credential}
use lab_keeper.Api.Inputs.{password_type, sudo}
use lab_keeper.CredentialsPage.{
  Input, on_generate_ssh, on_saved, on_create, on_edit, on_cancel, initial_state, form_credential,
  form_generates, play,
}
use lab_keeper.CredentialsPage.Modes.{Handed, saves, play-Handed}

abbrev stored : Credential
stored = record {
  id = text "c1";
  name = text "root";
  credential_type = password_type;
  username = text "root";
  public_key = none;
  has_passphrase = false;
  become_method = sudo;
  become_user = none;
  has_become_secret = true;
  created_at = text "t";
  updated_at = text "t";
}

abbrev clicks : List Input
clicks = on_create ∷ on_saved ∷ on_generate_ssh ∷ on_cancel ∷ []

play-Handed_example :
    let s = play (clicks ++ on_edit stored ∷ []) initial_state in
    Handed
      (on_edit stored)
      s.mode
      (form_credential s)
      (form_generates s)
      (CredentialForm.initial_state (form_credential s) (form_generates s))
    × (s.refresh_key ≡ saves (clicks ++ on_edit stored ∷ []))
play-Handed_example = play-Handed clicks (on_edit stored)
