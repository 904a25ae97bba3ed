-- ===== src/HostForm/Fields.antt =====
-- What web/src/components/HostForm.tsx shows: its fields, and the line on the state of the host.
use lab_keeper.Common.{
  Bool, List, Option, Text, [], decimal, false, if◌then◌else◌, none, or_else, some, take, text,
  text_eq, truthy, ℕ, ◌++◌, ◌∷◌,
}
use lab_keeper.Api.Inputs.{ProbeMethod, icmp, tcp, CredentialType, password_type, ssh_key}
use lab_keeper.Api.Types.{Host, Credential}
use lab_keeper.Items.{Item, words, button, field, choice, only, error_words}
use lab_keeper.HostDetail.Summary.{form_memory}
use lab_keeper.HostForm.{FormState, is_tcp}

-- The fields' handlers, `handleSubmit` and `onCancel`
pub data Click : Type 0 where
  set_name set_hostname set_address set_os set_port set_credential : Text → Click
  set_probe : ProbeMethod → Click
  submit cancel : Click

abbrev pub probe_value : ProbeMethod → Text
probe_value icmp = text "icmp"
probe_value tcp = text "tcp"

-- `event.target.value` as a method
abbrev pub probe_of : Text → ProbeMethod
probe_of t = if text_eq t (text "tcp") then tcp else icmp

abbrev pub type_value : CredentialType → Text
type_value password_type = text "password"
type_value ssh_key = text "ssh_key"

abbrev pub credential_options : List Credential → List (Text × Text)
credential_options [] = []
credential_options (c ∷ cs) =
    (
      c.id,
      c.name ++ text " (" ++ type_value c.credential_type ++ text " · " ++ c.username ++ text ")",
    )
    ∷ credential_options cs

abbrev pub reach_text : Host → Text
reach_text host =
    if host.online
    then (if host.agent_online
        then text "online · Agent connected"
        else text "reachable · Agent offline")
    else text "offline"

abbrev pub cores_text : Option ℕ → Text
cores_text none = []
cores_text (some n) = text " · CPU " ++ decimal n

abbrev pub memory_line : Option ℕ → Text
memory_line none = []
memory_line (some bytes) = text " · RAM " ++ form_memory (some bytes)

abbrev pub agent_text : Host → Text
agent_text host =
    if truthy host.agent_fingerprint
    then text " · agent " ++ take 12 (or_else host.agent_fingerprint []) ++ text "…"
    else text " · no agent yet"

-- `editing && loadedHost`
unfoldable pub status_items : Bool → Option Host → List (Item Click ⊥)
status_items editing none = []
status_items editing (some host) = only editing (
    words (
      text "Status: "
      ++ reach_text host
      ++ cores_text host.cpu_cores
      ++ memory_line host.memory_bytes
      ++ agent_text host)
    ∷ [])

unfoldable pub fields : Bool → FormState → List (Item Click ⊥)
fields editing s =
    words (if editing then text "Edit host" else text "Add host")
    ∷ words (
        text
          "Pre-enroll a Host with an address and vault credential for future SSH. Agents attach later by certificate fingerprint.")
    ∷ field (text "Name (optional label)") s.name false set_name
    ∷ field (text "Hostname") s.hostname false set_hostname
    ∷ field (text "Address (SSH / reachability)") s.address false set_address
    ∷ field (text "OS") s.os false set_os
    ∷ choice (text "Reachability probe") (probe_value s.probe_method)
        ((text "icmp", text "ICMP (ping)") ∷ (text "tcp", text "TCP port") ∷ []) false
        (λ t. set_probe (probe_of t))
    ∷ only (is_tcp s.probe_method) (field (text "Probe port") s.probe_port false set_port ∷ [])

abbrev pub shown_items : Bool → FormState → List (Item Click ⊥)
shown_items editing s =
    fields editing s
    ++ (choice (text "Credential") s.credential_id
          ((text "", text "None") ∷ credential_options s.credentials) false set_credential
        ∷ (status_items editing s.loaded_host
            ++ (error_words s.error
                ++ (button (if s.saving then text "Saving…" else text "Save") s.saving submit
                    ∷ button (text "Cancel") s.saving cancel
                    ∷ []))))

abbrev pub loaded_items : Bool → Bool → FormState → List (Item Click ⊥)
loaded_items loading editing s =
    if loading then words (text "Loading host…") ∷ [] else shown_items editing s

unfoldable pub form_items : Bool → FormState → List (Item Click ⊥)
form_items editing s = loaded_items s.loading editing s

-- The fields' handlers
unfoldable pub edit : Click → FormState → FormState
edit (set_name t) s = record s { name = t }
edit (set_hostname t) s = record s { hostname = t }
edit (set_address t) s = record s { address = t }
edit (set_os t) s = record s { os = t }
edit (set_port t) s = record s { probe_port = t }
edit (set_credential t) s = record s { credential_id = t }
edit (set_probe m) s = record s { probe_method = m }
edit click s = s
