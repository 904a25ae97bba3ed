-- ===== src/Api/Inputs.antt =====
-- The input types of web/src/lib/api.ts, and the JSON that `JSON.stringify` makes of them: a field
-- that is undefined is left out.
use lab_keeper.Common.{Bool, Option, Text, [], none, or_else, some, text, ℕ, ◌∷◌, ◌≡◌}
use lab_keeper.Json.{Json, str, bool, num, obj, end, field, optional, str_option}

pub record CreateSiteInput : Type 0 where
  pub name : Text
  pub discovery_enabled : Option Bool

pub record UpdateSiteInput : Type 0 where
  pub name : Option Text
  pub discovery_enabled : Option Bool

pub data ProbeMethod : Type 0 where
  icmp tcp : ProbeMethod

pub record CreateHostInput : Type 0 where
  pub site_id : Text
  pub name : Option Text
  pub hostname : Option Text
  pub address : Option Text
  pub os : Option Text
  pub credential_id : Option Text
  pub probe_method : Option ProbeMethod
  pub probe_port : Option ℕ

pub record UpdateHostInput : Type 0 where
  pub site_id : Option Text
  pub name : Option Text
  pub hostname : Option Text
  pub address : Option Text
  pub os : Option Text
  pub credential_id : Option Text
  pub probe_method : Option ProbeMethod
  pub probe_port : Option ℕ

pub data CredentialType : Type 0 where
  password_type ssh_key : CredentialType

pub data BecomeMethod : Type 0 where
  no_become sudo su : BecomeMethod

pub record CreateCredentialInput : Type 0 where
  pub name : Text
  pub credential_type : CredentialType
  pub username : Text
  pub password : Option Text
  pub private_key : Option Text
  pub passphrase : Option Text
  pub become_method : Option BecomeMethod
  pub become_user : Option Text
  pub become_secret : Option Text

-- A field that is sent only if its text is not empty.
abbrev pub IsGiven : Text → Option Text → Type 0
IsGiven [] sent = sent ≡ none
IsGiven (c ∷ t) sent = sent ≡ some (c ∷ t)

-- The source also allows null for the passphrase and the become secret; no caller passes it.
pub record UpdateCredentialInput : Type 0 where
  pub name : Option Text
  pub username : Option Text
  pub password : Option Text
  pub private_key : Option Text
  pub passphrase : Option Text
  pub become_method : Option BecomeMethod
  pub become_user : Option Text
  pub become_secret : Option Text

pub data TerminalMode : Type 0 where
  auto agent ssh : TerminalMode

pub record TerminalInput : Type 0 where
  pub host_id : Text
  pub cols : ℕ
  pub rows : ℕ
  pub mode : Option TerminalMode

abbrev pub bool_option : Option Bool → Option Json
bool_option none = none
bool_option (some b) = some (bool b)

abbrev pub num_option : Option ℕ → Option Json
num_option none = none
num_option (some n) = some (num n)

abbrev pub probe_text : ProbeMethod → Text
probe_text icmp = text "icmp"
probe_text tcp = text "tcp"

abbrev pub probe_option : Option ProbeMethod → Option Json
probe_option none = none
probe_option (some m) = some (str (probe_text m))

abbrev pub type_text : CredentialType → Text
type_text password_type = text "password"
type_text ssh_key = text "ssh_key"

abbrev pub become_text : BecomeMethod → Text
become_text no_become = text "none"
become_text sudo = text "sudo"
become_text su = text "su"

abbrev pub become_option : Option BecomeMethod → Option Json
become_option none = none
become_option (some m) = some (str (become_text m))

abbrev pub mode_text : TerminalMode → Text
mode_text auto = text "auto"
mode_text agent = text "agent"
mode_text ssh = text "ssh"

unfoldable pub create_site_json : CreateSiteInput → Json
create_site_json i = obj (
    field (text "name") (str i.name)
      (optional (text "discovery_enabled") (bool_option i.discovery_enabled) end))

unfoldable pub update_site_json : UpdateSiteInput → Json
update_site_json i = obj (
    optional (text "name") (str_option i.name)
      (optional (text "discovery_enabled") (bool_option i.discovery_enabled) end))

unfoldable pub create_host_json : CreateHostInput → Json
create_host_json i = obj (
    field (text "site_id") (str i.site_id) (
      optional (text "name") (str_option i.name) (
        optional (text "hostname") (str_option i.hostname) (
          optional (text "address") (str_option i.address) (
            optional (text "os") (str_option i.os) (
              optional (text "credential_id") (str_option i.credential_id) (
                optional (text "probe_method") (probe_option i.probe_method)
                  (optional (text "probe_port") (num_option i.probe_port) end))))))))

unfoldable pub update_host_json : UpdateHostInput → Json
update_host_json i = obj (
    optional (text "site_id") (str_option i.site_id) (
      optional (text "name") (str_option i.name) (
        optional (text "hostname") (str_option i.hostname) (
          optional (text "address") (str_option i.address) (
            optional (text "os") (str_option i.os) (
              optional (text "credential_id") (str_option i.credential_id) (
                optional (text "probe_method") (probe_option i.probe_method)
                  (optional (text "probe_port") (num_option i.probe_port) end))))))))

unfoldable pub create_credential_json : CreateCredentialInput → Json
create_credential_json i = obj (
    field (text "name") (str i.name) (
      field (text "type") (str (type_text i.credential_type)) (
        field (text "username") (str i.username) (
          optional (text "password") (str_option i.password) (
            optional (text "private_key") (str_option i.private_key) (
              optional (text "passphrase") (str_option i.passphrase) (
                optional (text "become_method") (become_option i.become_method) (
                  optional (text "become_user") (str_option i.become_user)
                    (optional (text "become_secret") (str_option i.become_secret) end)))))))))

unfoldable pub update_credential_json : UpdateCredentialInput → Json
update_credential_json i = obj (
    optional (text "name") (str_option i.name) (
      optional (text "username") (str_option i.username) (
        optional (text "password") (str_option i.password) (
          optional (text "private_key") (str_option i.private_key) (
            optional (text "passphrase") (str_option i.passphrase) (
              optional (text "become_method") (become_option i.become_method) (
                optional (text "become_user") (str_option i.become_user)
                  (optional (text "become_secret") (str_option i.become_secret) end))))))))

-- `mode: input.mode ?? "auto"`
unfoldable pub terminal_json : TerminalInput → Json
terminal_json i = obj (
    field (text "host_id") (str i.host_id) (
      field (text "cols") (num i.cols) (
        field (text "rows") (num i.rows)
          (field (text "mode") (str (mode_text (or_else i.mode auto))) end))))
