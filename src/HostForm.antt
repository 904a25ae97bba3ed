-- ===== src/HostForm.antt =====
-- web/src/components/HostForm.tsx: the state of the form, how it is filled from a host, and what
-- `handleSubmit` checks and sends.
pub mod Port
pub mod Submit
pub mod Sending
pub mod Fields
pub mod Single
mod Tests
use lab_keeper.Common.{
  Bool, List, Option, Text, [], decimal, false, if◌then◌else◌, inl, inr, leb, non_empty, none,
  or_else, some, text, trim, trim_start, true, truthy, ℕ, ◌&&◌, ◌*◌, ◌+◌, ◌-◌, ◌==◌, ◌||◌, ◌∷◌, ◌⊎◌,
}
use lab_keeper.Json.{Json}
use lab_keeper.Oidc.Types.{Failure, session_expired, message}
use lab_keeper.Oidc.World.{World, Result, ok, throws, Action}
use lab_keeper.Api.Inputs.{ProbeMethod, icmp, tcp, CreateHostInput, UpdateHostInput}
use lab_keeper.Api.Types.{Host, Credential}
use lab_keeper.Api.Endpoints.{create_host, update_host}

pub record FormState : Type 0 where
  pub loaded_host : Option Host
  pub name : Text
  pub hostname : Text
  pub address : Text
  pub os : Text
  pub credential_id : Text
  pub probe_method : ProbeMethod
  pub probe_port : Text
  pub credentials : List Credential
  pub error : Option Text
  pub saving : Bool
  pub loading : Bool

-- The fields as a host fills them.
unfoldable pub fill : Host → FormState → FormState
fill host s = record s {
  loaded_host = some host;
  name = host.name;
  hostname = host.hostname;
  address = or_else host.address [];
  os = or_else host.os [];
  credential_id = or_else host.credential_id [];
  probe_method = host.probe_method;
  probe_port = decimal host.probe_port;
}

abbrev pub blank : FormState
blank = record {
  loaded_host = none;
  name = [];
  hostname = [];
  address = [];
  os = [];
  credential_id = [];
  probe_method = icmp;
  probe_port = text "22";
  credentials = [];
  error = none;
  saving = false;
  loading = false;
}

-- The `useState` calls, by the two properties `host` and `hostId`.
unfoldable pub initial_state : Option Host → Option Text → FormState
unfolding fill
initial_state none host_id = record blank { loading = truthy host_id }
initial_state (some host) host_id = fill host blank

-- The effect on a change of the properties, up to the call of `fetchHost`.
unfoldable pub host_changed : Option Host → Option Text → FormState → FormState
unfolding fill
host_changed (some host) host_id s = record (fill host s) { loading = false }
host_changed none host_id s =
    if truthy host_id then s else record s { loaded_host = none; loading = false }

module _ (engine_message : Failure → Text) where
  -- How the effect goes on when `fetchHost` has ended and nothing has cancelled it.
  unfoldable pub host_fetched : Result Host → FormState → FormState
  host_fetched (ok host) s = record (fill host s) { loading = false }
  host_fetched (throws (session_expired m)) s = record s { loading = false }
  host_fetched (throws e) s = record s { error = some (message engine_message e); loading = false }

  -- The effect that lists the credentials, if nothing has cancelled it.
  unfoldable pub credentials_fetched : Result (List Credential) → FormState → FormState
  credentials_fetched (ok listed) s = record s { credentials = listed }
  credentials_fetched (throws (session_expired m)) s = s
  credentials_fetched (throws e) s = record s { error = some (message engine_message e) }

-- The digits in front, as a number: `none` where there is none.
unfoldable pub digits_value : Option ℕ → Text → Option ℕ
digits_value acc [] = acc
digits_value acc (c ∷ s) =
    let longer = digits_value (some (or_else acc 0 * 10 + (c - b'0'))) s in
    if leb b'0' c && leb c b'9' then longer else acc

abbrev pub signed_value : Text → Option ℕ
signed_value [] = none
signed_value (c ∷ s) =
    if c == b'+' then digits_value none s else if c == b'-' then none else digits_value none (c ∷ s)

-- `Number.parseInt(s, 10)`. NaN and what has a minus sign are both `none`: either fails the test of
-- the port.
unfoldable pub parse_int : Text → Option ℕ
unfolding digits_value
parse_int s = signed_value (trim_start s)

abbrev pub in_range : Option ℕ → Bool
in_range none = false
in_range (some port) = leb 1 port && leb port 65535

abbrev pub is_tcp : ProbeMethod → Bool
is_tcp icmp = false
is_tcp tcp = true

-- What the two calls of the API have in common.
pub record Checked : Type 0 where
  pub name : Text
  pub hostname : Text
  pub address : Text
  pub probe_port : ℕ

abbrev pub valid_port : ProbeMethod → Option ℕ → Option ℕ
valid_port icmp port = some 22
valid_port tcp port = if in_range port then port else none

abbrev pub checked_port : FormState → Option ℕ → Text ⊎ Checked
checked_port s none = inl (text "TCP probe port must be between 1 and 65535")
checked_port s (some port) = inr (record {
  name = trim s.name;
  hostname = trim s.hostname;
  address = trim s.address;
  probe_port = port;
})

-- The checks in front of the calls: a message, or what is sent.
unfoldable pub check : FormState → Text ⊎ Checked
check s =
    if non_empty (trim s.name) || non_empty (trim s.hostname) || non_empty (trim s.address)
    then checked_port s (valid_port s.probe_method (parse_int s.probe_port))
    else inl (text "Provide a name, hostname, or address")

-- `t || undefined`
abbrev pub or_undefined : Text → Option Text
or_undefined t = if non_empty t then some t else none

unfoldable pub update_input : FormState → Checked → UpdateHostInput
update_input s c = record {
  site_id = none;
  name = some c.name;
  hostname = some c.hostname;
  address = some c.address;
  os = some (trim s.os);
  credential_id = some s.credential_id;
  probe_method = some s.probe_method;
  probe_port = some c.probe_port;
}

unfoldable pub create_input : Text → FormState → Checked → CreateHostInput
create_input site_id s c = record {
  site_id = site_id;
  name = or_undefined c.name;
  hostname = or_undefined c.hostname;
  address = or_undefined c.address;
  os = or_undefined (trim s.os);
  credential_id = or_undefined s.credential_id;
  probe_method = some s.probe_method;
  probe_port = some c.probe_port;
}

-- The call of the API: an update of the host that is edited and loaded, or a creation.
unfoldable pub send : Bool → Option Host → Text → FormState → Checked → Action Json
send true (some host) site_id s c = update_host host.id (update_input s c)
send editing loaded site_id s c = create_host (create_input site_id s c)

module _ (engine_message : Failure → Text) where
  abbrev pub settle : Result Json → FormState → FormState × Bool
  settle (ok j) s = (record s { saving = false }, true)
  settle (throws (session_expired m)) s = (record s { saving = false }, false)
  settle (throws e) s =
      (record s { error = some (message engine_message e); saving = false }, false)

  abbrev pub submit_checked :
      Bool → Text → FormState → Text ⊎ Checked → World → (FormState × Bool) × World
  submit_checked editing site_id s (inl refusal) w =
      ((record s { error = some refusal; saving = false }, false), w)
  submit_checked editing site_id s (inr c) w =
      let (r, w') = send editing s.loaded_host site_id s c w in (settle r s, w')

  -- `handleSubmit`: the form, whether `onSaved` was called, and the world.
  unfoldable pub handle_submit : Bool → Text → FormState → World → (FormState × Bool) × World
  handle_submit editing site_id s =
      submit_checked editing site_id (record s { saving = true; error = none })
        (check (record s { saving = true; error = none }))
