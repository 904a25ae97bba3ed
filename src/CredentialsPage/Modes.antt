-- ===== src/CredentialsPage/Modes.antt =====
-- What web/src/pages/CredentialsPage.tsx hands to the form, whatever the user has clicked.
use lab_keeper.Common.{
  Bool, List, Option, [], arith, false, none, or_else, refl, some, subst, suc, sym, text, true, ℕ,
  ◌++◌, ◌+◌, ◌∙◌, ◌∷◌, ◌≡◌,
}
use lab_keeper.Api.Types.{Credential}
use lab_keeper.Api.Inputs.{CredentialType, password_type, ssh_key, no_become}
use lab_keeper.CredentialForm
use lab_keeper.CredentialsPage.{
  State, Mode, list_mode, create_mode, edit_mode, Input, on_create, on_generate_ssh, on_edit,
  on_cancel, on_saved, initial_state, handle, form_credential, form_generates, play,
}

abbrev pub saves : List Input → ℕ
saves [] = 0
saves (on_saved ∷ is) = suc (saves is)
saves (_ ∷ is) = saves is

refresh_key-play :
    (is : List Input) (s : State) → (play is s).refresh_key ≡ s.refresh_key + saves is
unfolding play handle
refresh_key-play [] s = omega arith
refresh_key-play (on_create ∷ is) s = refresh_key-play is (handle on_create s)
refresh_key-play (on_generate_ssh ∷ is) s = refresh_key-play is (handle on_generate_ssh s)
refresh_key-play (on_edit c ∷ is) s = refresh_key-play is (handle (on_edit c) s)
refresh_key-play (on_cancel ∷ is) s = refresh_key-play is (handle on_cancel s)
refresh_key-play (on_saved ∷ is) s = refresh_key-play is (handle on_saved s) ∙ omega arith

-- The form of a new credential of this type: every field is empty, without an escalation.
abbrev pub IsBlank : CredentialType → CredentialForm.FormState → Type 0
IsBlank type form = form ≡ record {
  name = [];
  form_type = type;
  username = [];
  password = [];
  private_key = [];
  passphrase = [];
  clear_passphrase = false;
  public_key_preview = [];
  become_method = no_become;
  become_user = text "root";
  become_secret = [];
  clear_become_secret = false;
  error = none;
  saving = false;
  generating = false;
}

-- The form of a stored credential: its own data, and empty secrets.
abbrev pub IsOf : Credential → CredentialForm.FormState → Type 0
IsOf c form = form ≡ record {
  name = c.name;
  form_type = c.credential_type;
  username = c.username;
  password = [];
  private_key = [];
  passphrase = [];
  clear_passphrase = false;
  public_key_preview = or_else c.public_key [];
  become_method = c.become_method;
  become_user = or_else c.become_user (text "root");
  become_secret = [];
  clear_become_secret = false;
  error = none;
  saving = false;
  generating = false;
}

-- What shows after the last click: the list, or the form with the credential and the mark for a new key that it gets,
-- and the state that it starts in.
abbrev pub Handed : Input → Mode → Option Credential → Bool → CredentialForm.FormState → Type 0
Handed on_create m given generates form =
    (m ≡ create_mode) × (given ≡ none) × (generates ≡ false) × IsBlank password_type form
Handed on_generate_ssh m given generates form =
    (m ≡ create_mode) × (given ≡ none) × (generates ≡ true) × IsBlank ssh_key form
Handed (on_edit c) m given generates form =
    (m ≡ edit_mode) × (given ≡ some c) × (generates ≡ false) × IsOf c form
Handed on_cancel m given generates form = m ≡ list_mode
Handed on_saved m given generates form = m ≡ list_mode

handle-Handed :
    (i : Input) (s : State)
    → let t = handle i s in
      Handed i t.mode
        (form_credential t)
        (form_generates t)
        (CredentialForm.initial_state (form_credential t) (form_generates t))
unfolding handle form_credential form_generates CredentialForm.initial_state
handle-Handed on_create s = (refl, refl, refl, refl)
handle-Handed on_generate_ssh s = (refl, refl, refl, refl)
handle-Handed (on_edit c) s = (refl, refl, refl, refl)
handle-Handed on_cancel s = refl
handle-Handed on_saved s = refl

play-append :
    (is : List Input) (i : Input) (s : State) → play (is ++ i ∷ []) s ≡ handle i (play is s)
unfolding play
play-append [] i s = refl
play-append (j ∷ is) i s = play-append is i (handle j s)

-- Whatever the user has clicked before, the last click decides: the list shows after a save and after a cancel, and else the
-- form opens, for the very credential that was chosen, with its data and empty secrets, or blank, as an
-- SSH key that is to be generated or as a password. The list's refresh key counts the saves.
pub play-Handed :
    (is : List Input) (i : Input)
    → let s = play (is ++ i ∷ []) initial_state in
      Handed i s.mode
        (form_credential s)
        (form_generates s)
        (CredentialForm.initial_state (form_credential s) (form_generates s))
      × (s.refresh_key ≡ saves (is ++ i ∷ []))
play-Handed is i = (
  subst
      (λ s.
        Handed i s.mode (form_credential s) (form_generates s)
          (CredentialForm.initial_state (form_credential s) (form_generates s)))
      (sym (play-append is i initial_state)) (handle-Handed i (play is initial_state)),
  refresh_key-play (is ++ i ∷ []) initial_state ∙ omega arith,
)
