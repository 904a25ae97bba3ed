-- ===== src/HostDetail.antt =====
-- What web/src/components/HostDetail.tsx shows of a host: its name, its addresses and its recent
-- events. How the engine prints a date is a parameter.
pub mod Addresses
pub mod Events
pub mod Handlers
pub mod Visits
pub mod Summary
pub mod Screen
pub mod Subject
mod Tests
use lab_keeper.Common.{
  Bool, List, Option, Text, [], decimal, false, if◌then◌else◌, includes, is_some, length, non_empty,
  none, not, or_else, or_text, some, take, text, text_eq, trim, truthy, ℕ, ◌&&◌, ◌++◌, ◌+◌, ◌||◌,
  ◌∷◌,
}
use lab_keeper.Api.Inputs.{ProbeMethod, icmp, tcp}
use lab_keeper.Api.Types.{Host}

-- `host.name || host.hostname || host.subject || host.id.slice(0, 12)`
unfoldable pub display_name : Host → Text
display_name host =
    or_text host.name (or_text host.hostname (or_text (or_else host.subject []) (take 12 host.id)))

abbrev pub probe_name : ProbeMethod → ℕ → Text
probe_name tcp port = text "TCP :" ++ decimal port
probe_name icmp port = text "ICMP"

unfoldable pub probe_label : Host → Text
probe_label host = probe_name host.probe_method host.probe_port

-- `ip && !ip.includes(":")`
abbrev pub is_plain_ip : Text → Bool
is_plain_ip ip = non_empty ip && not (includes ip b':')

unfoldable pub find_plain : List Text → Option Text
find_plain [] = none
find_plain (ip ∷ ips) = if is_plain_ip ip then some ip else find_plain ips

abbrev pub trimmed_address : Option Text → Text
trimmed_address none = []
trimmed_address (some address) = trim address

unfoldable pub primary_ip : Host → Option Text
unfolding find_plain
primary_ip host =
    if non_empty (trimmed_address host.address)
    then some (trimmed_address host.address)
    else find_plain (or_else host.ips [])

unfoldable pub has : List Text → Text → Bool
has [] ip = false
has (s ∷ seen) ip = text_eq s ip || has seen ip

abbrev pub is_primary : Option Text → Text → Bool
is_primary none ip = false
is_primary (some p) ip = text_eq ip p

-- The loop of `secondaryIps`: what is left, and the addresses seen so far.
unfoldable pub collect : Option Text → List Text → List Text → List Text
collect primary seen [] = []
collect primary seen (ip ∷ ips) =
    let skipped = collect primary seen ips in
    let kept = ip ∷ collect primary (ip ∷ seen) ips in
    if not (non_empty ip) || is_primary primary ip || has seen ip then skipped else kept

unfoldable pub secondary_ips : Host → List Text
unfolding collect
secondary_ips host = collect (primary_ip host) [] (or_else host.ips [])

abbrev pub option_list : Option Text → List Text
option_list none = []
option_list (some ip) = ip ∷ []

-- `[...(ip ? [ip] : []), ...extras]`; a primary address is never empty.
unfoldable pub shown_addresses : Host → List Text
shown_addresses host = option_list (primary_ip host) ++ secondary_ips host

-- `(ip ? 1 : 0) + extras.length`
unfoldable pub address_count : Host → ℕ
address_count host = (if is_some (primary_ip host) then 1 else 0) + length (secondary_ips host)

pub data Tone : Type 0 where
  ok_tone warn_tone accent_tone : Tone

pub record DerivedEvent : Type 0 where
  pub tone : Tone
  pub title : Text
  pub detail : Text

-- `new Date(iso).toLocaleString()` is the parameter.
module _ (locale_date : Text → Text) where
  unfoldable pub format_when : Option Text → Text
  format_when none = text "—"
  format_when (some iso) = if non_empty iso then locale_date iso else text "—"

  unfoldable pub probe_event : Host → List DerivedEvent
  probe_event host =
      if truthy host.last_probe_at
      then (if host.online
          then record {
            tone = ok_tone;
            title = text "Sondagem " ++ probe_label host ++ text " com Sucesso";
            detail = format_when host.last_probe_at;
          }
          else record {
            tone = warn_tone;
            title = text "Sondagem " ++ probe_label host ++ text " falhou";
            detail = format_when host.last_probe_at;
          })
        ∷ []
      else []

  unfoldable pub agent_event : Host → List DerivedEvent
  agent_event host =
      if truthy host.agent_fingerprint && truthy host.last_seen
      then (if host.agent_online
          then record {
            tone = ok_tone;
            title = text "Agente Conectado";
            detail = format_when host.last_seen;
          }
          else record {
            tone = warn_tone;
            title = text "Conexão do Agente Perdida";
            detail = format_when host.last_seen;
          })
        ∷ []
      else []

  abbrev pub registered : Host → DerivedEvent
  registered host = record {
    tone = accent_tone;
    title = text "Host Registrado";
    detail = format_when (some host.created_at);
  }

  unfoldable pub derive_events : Host → List DerivedEvent
  unfolding probe_event agent_event
  derive_events host = take 5 (probe_event host ++ (agent_event host ++ (registered host ∷ [])))
