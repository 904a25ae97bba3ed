-- ===== src/HostDetail/Screen.antt =====
-- What the page of web/src/components/HostDetail.tsx shows, and what its buttons and forms are for.
use lab_keeper.Common.{
  Bool, List, Option, Text, [], decimal, false, if◌then◌else◌, none, not, or_else, or_text, some,
  text, text_eq, true, truthy, ℕ, ◌&&◌, ◌++◌, ◌==◌, ◌∷◌,
}
use lab_keeper.Api.Types.{Host, HostCredentialSummary}
use lab_keeper.Items.{Item, words, button, mounts, only, error_words}
use lab_keeper.HostDetail.{
  display_name, probe_label, primary_ip, secondary_ips, shown_addresses, address_count, is_primary,
  DerivedEvent, format_when, derive_events,
}
use lab_keeper.HostDetail.Summary.{
  Tone, fingerprint_short, format_memory, agent_pill, reachability_pill,
}
use lab_keeper.HostDetail.Handlers.{Tab, overview, network, telemetry, terminal, View}

-- What a button calls: `copy key value` is `handleCopy(key, value)`, and `remove` is `handleDelete`, of the
-- render that shows this host.
pub data Click : Type 0 where
  set_tab : Tab → Click
  start_editing refresh : Click
  remove : Host → Click
  copy : Text → Text → Click

-- The form has the site and the host.
pub data Child : Type 0 where
  host_form : Text → Host → Child
  host_terminal : Host → Child

abbrev pub pill_words : Option (Tone × Text) → List (Item Click Child)
pill_words none = []
pill_words (some (tone, label)) = words label ∷ []

unfoldable pub header_items : Host → View → List (Item Click Child)
header_items host v =
    words (display_name host)
    ∷ words (text "LabKeeper / " ++ or_text (or_else v.site_name []) (text "…"))
    ∷ words (reachability_pill host).1
    ∷ (pill_words (agent_pill host)
        ++ (words (text "· ID: " ++ host.id)
            ∷ button [] false (copy (text "id") host.id)
            ∷ button (text "Testar Conexão") v.refreshing refresh
            ∷ button (text "Console") false (set_tab terminal)
            ∷ button (text "Editar") false start_editing
            ∷ button (text "Excluir") false (remove host)
            ∷ button (text "Visão Geral") false (set_tab overview)
            ∷ button (text "Interfaces de Rede (" ++ decimal (address_count host) ++ text ")") false
                (set_tab network)
            ∷ button (text "Telemetria & Hardware") false (set_tab telemetry)
            ∷ button (text "Console") false (set_tab terminal)
            ∷ []))

abbrev pub plural : ℕ → Text
plural n = if n == 1 then text "" else text "s"

unfoldable pub extra_rows : List Text → List (Item Click Child)
extra_rows [] = []
extra_rows (addr ∷ addrs) = words addr ∷ button [] false (copy addr addr) ∷ extra_rows addrs

abbrev pub extra_items : List Text → List (Item Click Child)
extra_items [] = words (text "Nenhum endereço adicional reportado.") ∷ []
extra_items (addr ∷ addrs) =
    words (text "Pontes de Rede & Interfaces Virtuais (Docker / VEth):") ∷ extra_rows (addr ∷ addrs)

abbrev pub is_copied : View → Text → Bool
is_copied v key = text_eq (or_else v.copied []) key

unfoldable pub addressing_items : Host → View → List (Item Click Child)
addressing_items host v =
    words (text "Endereçamento de Rede")
    ∷ words (
        text "Total: "
        ++ decimal (address_count host)
        ++ text " Endereço"
        ++ plural (address_count host))
    ∷ words (text "IP PRINCIPAL (LAN)")
    ∷ words (or_text (or_else (primary_ip host) []) (text "—"))
    ∷ button (if is_copied v (text "primary") then text "Copiado" else text "Copiar IP")
        (not (truthy (primary_ip host))) (copy (text "primary") (or_else (primary_ip host) []))
    ∷ extra_items (secondary_ips host)

abbrev pub credential_name : Option HostCredentialSummary → Text
credential_name none = []
credential_name (some credential) = credential.name

unfoldable pub system_items : Host → List (Item Click Child)
system_items host =
    words (text "Especificações do Sistema")
    ∷ words (text "Hardware & SO")
    ∷ words (text "SISTEMA OPERACIONAL")
    ∷ words (or_text (or_else host.os []) (text "—"))
    ∷ words (text "CREDENCIAL CONFIGURADA")
    ∷ words (or_text (credential_name host.credential) (text "Nenhuma"))
    ∷ only (not host.agent_online) (
        words (text "Telemetria em Tempo Real Indisponível")
        ∷ words (
            text
              "O monitoramento de CPU e Memória RAM exige o agente instalado e em execução. O host segue sendo monitorado via "
            ++ probe_label host
            ++ text ".")
        ∷ [])

unfoldable pub network_rows : Option Text → Bool → List Text → List (Item Click Child)
network_rows primary first [] = []
network_rows primary first (addr ∷ addrs) =
    words (if first && is_primary primary addr then text "PRINCIPAL" else text "INTERFACE")
    ∷ words addr
    ∷ button [] false (copy addr addr)
    ∷ network_rows primary false addrs

unfoldable pub network_items : Host → List (Item Click Child)
network_items host =
    words (text "Interfaces de Rede")
    ∷ words (decimal (address_count host) ++ text " endereço" ++ plural (address_count host))
    ∷ (network_rows (primary_ip host) true (shown_addresses host)
        ++ only (address_count host == 0) (words (text "Nenhum endereço conhecido.") ∷ []))

abbrev pub cores_text : Option ℕ → Text
cores_text none = text "—"
cores_text (some n) = decimal n ++ text " cores"

unfoldable pub telemetry_items : Host → List (Item Click Child)
telemetry_items host =
    words (text "Telemetria & Hardware")
    ∷ words (text "CPU")
    ∷ words (cores_text host.cpu_cores)
    ∷ words (text "MEMÓRIA")
    ∷ words (format_memory host.memory_bytes)
    ∷ words (text "SO")
    ∷ words (or_text (or_else host.os []) (text "—"))
    ∷ only (not host.agent_online) (
        words (
          text
            "Telemetria ao vivo depende do Agente. Enquanto ele estiver offline, apenas sondagem "
          ++ probe_label host
          ++ text " atualiza a reachability.")
        ∷ [])

-- `new Date(iso).toLocaleString()` is the parameter.
module _ (locale_date : Text → Text) where
  unfoldable pub agent_items : Host → List (Item Click Child)
  agent_items host =
      words (text "Estado do Agente")
      ∷ words (text "Última Sondagem (" ++ probe_label host ++ text "):")
      ∷ words (format_when locale_date host.last_probe_at)
      ∷ words (text "Última Conexão do Agente:")
      ∷ words (format_when locale_date host.last_seen)
      ∷ words (text "Chave / Token do Agente:")
      ∷ words (fingerprint_short host)
      ∷ only (truthy host.agent_fingerprint)
          (button [] false (copy (text "fp") (or_else host.agent_fingerprint [])) ∷ [])

  unfoldable pub event_rows : List DerivedEvent → List (Item Click Child)
  event_rows [] = []
  event_rows (event ∷ events) = words event.title ∷ words event.detail ∷ event_rows events

  unfoldable pub tab_items : Tab → Host → View → List (Item Click Child)
  tab_items overview host v =
      addressing_items host v
      ++ (system_items host
          ++ (agent_items host
              ++ (words (text "Eventos Recentes") ∷ event_rows (derive_events locale_date host))))
  tab_items network host v = network_items host
  tab_items telemetry host v = telemetry_items host
  tab_items terminal host v = mounts (host_terminal host) ∷ []

  abbrev pub host_items : Host → View → List (Item Click Child)
  host_items host v = header_items host v ++ (error_words v.error ++ tab_items v.tab host v)

  -- The early returns: `loading`, `!host` and `editing`
  abbrev pub screen_choice : Bool → Option Host → Bool → View → List (Item Click Child)
  screen_choice true host editing v = words (text "Carregando host…") ∷ []
  screen_choice false none editing v =
      words (or_text (or_else v.error []) (text "Host not found")) ∷ []
  screen_choice false (some host) true v = mounts (host_form host.site_id host) ∷ []
  screen_choice false (some host) false v = host_items host v

  unfoldable pub screen_items : View → List (Item Click Child)
  screen_items v = screen_choice v.loading v.host v.editing v
