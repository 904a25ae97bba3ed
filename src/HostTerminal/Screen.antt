-- ===== src/HostTerminal/Screen.antt =====
-- What web/src/components/HostTerminal.tsx shows round the terminal.
use lab_keeper.Common.{
  Bool, List, Option, Text, [], false, if◌then◌else◌, non_empty, none, some, text, text_eq, truthy,
  ◌&&◌, ◌++◌, ◌∷◌,
}
use lab_keeper.Api.Inputs.{TerminalMode, auto, agent, ssh}
use lab_keeper.Api.Types.{Host}
use lab_keeper.Items.{Item, words, button, choice, only, error_words}
use lab_keeper.HostTerminal.{
  host_has_dial_target, any_available, Status, idle, connecting, opened, closed, Console,
}

-- `setMode`, and `setSessionKey((k) => k + 1)`
pub data Click : Type 0 where
  set_mode : TerminalMode → Click
  reconnect : Click

abbrev pub mode_value : TerminalMode → Text
mode_value auto = text "auto"
mode_value agent = text "agent"
mode_value ssh = text "ssh"

-- `e.target.value` as a mode
abbrev pub mode_of : Text → TerminalMode
mode_of t = if text_eq t (text "agent") then agent else if text_eq t (text "ssh") then ssh else auto

unfoldable pub ssh_available : Host → Bool
ssh_available host = truthy host.credential_id && host_has_dial_target host

-- The options that can be chosen. The disabled ones, with their reasons, are left out.
abbrev pub mode_options : Host → List (Text × Text)
mode_options host =
    (text "auto", text "Auto")
    ∷ ((if host.agent_online then (text "agent", text "Agente") ∷ [] else [])
        ++ (if ssh_available host then (text "ssh", text "SSH") ∷ [] else []))

abbrev pub path_words : Option Text → List (Item Click ⊥)
path_words none = []
path_words (some path) = only (non_empty path) (words (text "via " ++ path) ∷ [])

abbrev pub status_text : Status → Text
status_text connecting = text "conectando…"
status_text opened = text "conectado"
status_text closed = text "desconectado"
status_text idle = []

unfoldable pub screen_items : Host → Console → List (Item Click ⊥)
screen_items host s =
    if any_available host
    then choice (text "Caminho") (mode_value s.mode) (mode_options host) false
        (λ t. set_mode (mode_of t))
      ∷ (path_words s.active_path
          ++ (words (status_text s.status)
              ∷ button (text "Reconectar") false reconnect
              ∷ (error_words s.error ++ (words (text "Console") ∷ []))))
    else words (text "Console indisponível")
      ∷ words
          (text "Conecte o Agente neste host, ou configure endereço + credencial para SSH direto.")
      ∷ []
