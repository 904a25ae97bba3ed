-- ===== src/HostTerminal.antt =====
-- web/src/components/HostTerminal.tsx: the console of a host as a state machine. A run of the
-- effect that connects is a number, and stands for its closure, its terminal and its socket: a run
-- opens at most one. What xterm.js does with what it is given is left out.
pub mod Sessions
pub mod Superseded
pub mod Screen
mod Tests
use lab_keeper.Common.{
  Bool, List, Option, Text, [], false, if◌then◌else◌, non_empty, none, or_else, some, suc, text,
  text_eq, true, truthy, utf8, ℕ, ◌&&◌, ◌++◌, ◌==◌, ◌||◌, ◌∷◌,
}
use lab_keeper.Json.{Json, str, property, as_text}
use lab_keeper.Oidc.Types.{Failure, session_expired, message}
use lab_keeper.Oidc.World.{World, Result, ok, throws}
use lab_keeper.Api.Inputs.{TerminalMode, auto, TerminalInput}
use lab_keeper.Api.Types.{Host}
use lab_keeper.Api.Uri.{terminal_websocket_url}
use lab_keeper.HostDetail.{is_plain_ip, trimmed_address}

unfoldable pub any_plain : List Text → Bool
any_plain [] = false
any_plain (ip ∷ ips) = is_plain_ip ip || any_plain ips

unfoldable pub host_has_dial_target : Host → Bool
unfolding any_plain
host_has_dial_target host =
    if non_empty (trimmed_address host.address) then true else any_plain (or_else host.ips [])

-- `agentAvailable || sshAvailable`
unfoldable pub any_available : Host → Bool
any_available host = host.agent_online || (truthy host.credential_id && host_has_dial_target host)

pub data Status : Type 0 where
  idle connecting opened closed : Status

-- `WebSocket.readyState`
pub data ReadyState : Type 0 where
  socket_connecting socket_open socket_closing socket_closed : ReadyState

-- What is written to a run's terminal.
pub data Output : Type 0 where
  line : Text → Output
  raw : Text → Output
  raw_bytes : List ℕ → Output

-- What goes over a run's socket.
pub data Frame : Type 0 where
  keys : List ℕ → Frame
  resize : ℕ → ℕ → Frame

pub data Data : Type 0 where
  text_data : Text → Data
  binary : List ℕ → Data

-- What can happen to a run's socket; `on_open` carries the path of the run's ticket.
pub data SocketEvent : Type 0 where
  on_open : Text → SocketEvent
  on_message : Data → SocketEvent
  on_error : SocketEvent
  on_close : SocketEvent

pub record TerminalTicket : Type 0 where
  pub ticket : Text
  pub expires_in : ℕ
  pub path : Text

pub record Console : Type 0 where
  pub mode : TerminalMode
  pub active_path : Option Text
  pub status : Status
  pub error : Option Text
  pub session_key : ℕ
  -- how many runs have started, and the one that is not disposed
  pub runs : ℕ
  pub live : Option ℕ
  pub ws_ref : Option ℕ
  -- the sockets whose handlers are null, those that were told to close, and all with their address
  pub detached : List ℕ
  pub closing : List ℕ
  pub sockets : List (ℕ × Text)
  pub screens : List (ℕ × Output)
  pub frames : List (ℕ × Frame)

abbrev pub initial_console : Console
initial_console = record {
  mode = auto;
  active_path = none;
  status = idle;
  error = none;
  session_key = 0;
  runs = 0;
  live = none;
  ws_ref = none;
  detached = [];
  closing = [];
  sockets = [];
  screens = [];
  frames = [];
}

abbrev pub is_run : Option ℕ → ℕ → Bool
is_run none run = false
is_run (some r) run = r == run

-- `!disposed && wsRef.current === ws` in a run's closure
unfoldable pub is_current : ℕ → Console → Bool
is_current run s = is_run s.live run && is_run s.ws_ref run

unfoldable pub has_run : List ℕ → ℕ → Bool
has_run [] run = false
has_run (r ∷ rs) run = r == run || has_run rs run

unfoldable pub write : ℕ → Output → Console → Console
write run output s = record s { screens = (run, output) ∷ s.screens }

-- The effect's body up to the call of `createTerminalTicket`: where the host can be reached, a new
-- run begins, and it asks for a ticket with the terminal's size.
unfoldable pub start : Host → Console → Console
unfolding any_available
start host s =
    if any_available host
    then record s {
      runs = suc s.runs;
      live = some s.runs;
      status = connecting;
      error = none;
      active_path = none;
    }
    else s

unfoldable pub ticket_request : Host → ℕ → ℕ → Console → TerminalInput
ticket_request host cols rows s = record {
  host_id = host.id;
  cols = cols;
  rows = rows;
  mode = some s.mode;
}

abbrev pub closes : ReadyState → Bool
closes socket_connecting = true
closes socket_open = true
closes socket_closing = false
closes socket_closed = false

-- The part of the clean-up that is about the socket of `wsRef`.
unfoldable pub drop_socket : Option ℕ → ReadyState → Console → Console
drop_socket none ready s = s
drop_socket (some run) ready s = record s {
  ws_ref = none;
  detached = run ∷ s.detached;
  closing = if closes ready then run ∷ s.closing else s.closing;
}

-- The effect's clean-up; a run that was not started has none.
unfoldable pub clean_up_live : Option ℕ → ReadyState → Console → Console
unfolding drop_socket
clean_up_live none ready s = s
clean_up_live (some run) ready s = drop_socket s.ws_ref ready (record s { live = none })

unfoldable pub clean_up : ReadyState → Console → Console
unfolding clean_up_live
clean_up ready s = clean_up_live s.live ready s

-- React runs the effect again: the clean-up of the last run first.
unfoldable pub restart : Host → ReadyState → Console → Console
unfolding start clean_up
restart host ready s = start host (clean_up ready s)

-- `ws.readyState === WebSocket.OPEN`
abbrev pub is_open : ReadyState → Bool
is_open socket_open = true
is_open socket_connecting = false
is_open socket_closing = false
is_open socket_closed = false

-- `term.onData` and `term.onResize`
unfoldable pub send_frame : ℕ → ReadyState → Frame → Console → Console
send_frame run ready frame s =
    if is_open ready then record s { frames = (run, frame) ∷ s.frames } else s

pub data Event : Type 0 where
  effect_runs : Host → ReadyState → Event
  unmounts : ReadyState → Event
  ticket_ends : ℕ → Result TerminalTicket → Event
  socket : ℕ → SocketEvent → Event
  terminal_data : ℕ → ReadyState → Text → Event
  terminal_resized : ℕ → ReadyState → ℕ → ℕ → Event
  choose_mode : TerminalMode → Event
  reconnect : Event

module _ (w : World) (engine_message : Failure → Text) (refuses : Text → Option Failure) where
  -- `parsed.type === "error" && parsed.message`
  unfoldable pub error_message : Json → Option Text
  error_message parsed =
      let is_error =
        text_eq (or_else (as_text (property (text "type") parsed)) []) (text "error") in
      if is_error then as_text (property (text "message") parsed) else none

  abbrev pub shown_error : ℕ → Option Text → Console → Console
  shown_error run none s = s
  shown_error run (some m) s =
      if non_empty m
      then write run (line (text "\r\n\u{1b}[31m" ++ m ++ text "\u{1b}[0m"))
          (record s { error = some m })
      else s

  -- A property of null throws, which the handler takes like a text that is no JSON.
  abbrev pub parsed_message : ℕ → Text → Option Json → Console → Console
  parsed_message run given none s = write run (raw given) s
  parsed_message run given (some Json.null) s = write run (raw given) s
  parsed_message run given (some parsed) s = shown_error run (error_message parsed) s

  unfoldable pub received : ℕ → Data → Console → Console
  unfolding write error_message
  received run (text_data given) s = parsed_message run given (w.parse_json given) s
  received run (binary bytes) s = write run (raw_bytes bytes) s

  -- The `catch` of `connect`.
  unfoldable pub connect_failed : ℕ → Failure → Console → Console
  unfolding write
  connect_failed run (session_expired m) s = s
  connect_failed run e s =
      write run (line (text "\r\n\u{1b}[31m" ++ message engine_message e ++ text "\u{1b}[0m"))
        (record s { status = closed; error = some (message engine_message e) })

  -- `new WebSocket(url)`, which may throw, and the handlers
  abbrev pub open_socket : ℕ → Text → Option Failure → Console → Console
  open_socket run url (some e) s = connect_failed run e s
  open_socket run url none s = record s { ws_ref = some run; sockets = (run, url) ∷ s.sockets }

  abbrev pub open_url : ℕ → Result Text → Console → Console
  open_url run (throws e) s = connect_failed run e s
  open_url run (ok url) s = open_socket run url (refuses url) s

  -- The rest of `connect` once `createTerminalTicket` has ended, in a run that is not disposed.
  unfoldable pub ticket_settled : ℕ → Result TerminalTicket → Console → Console
  unfolding connect_failed
  ticket_settled run (throws e) s = connect_failed run e s
  ticket_settled run (ok ticket) s =
      open_url run (terminal_websocket_url ticket.ticket w).0
        (record s { active_path = some ticket.path })

  -- The handlers of the socket of `wsRef`, in a run that is not disposed.
  abbrev pub handle : ℕ → SocketEvent → Console → Console
  handle run (on_open path) s =
      write run (line (text "\u{1b}[90mConnected via " ++ path ++ text "\u{1b}[0m"))
        (record s { status = opened })
  handle run (on_message given) s = received run given s
  handle run on_error s = record s { error = some (text "WebSocket error") }
  handle run on_close s = record s { status = closed; ws_ref = none }

  -- What the handlers do otherwise.
  abbrev pub ignore : ℕ → SocketEvent → Console → Console
  ignore run (on_open path) s = record s { closing = run ∷ s.closing }
  ignore run (on_message given) s = s
  ignore run on_error s = s
  ignore run on_close s = s

  unfoldable pub socket_event : ℕ → SocketEvent → Console → Console
  unfolding write received is_current
  socket_event run e s =
      if has_run s.detached run
      then s
      else if is_current run s
      then handle run e s
      else ignore run e s

  unfoldable pub step : Event → Console → Console
  unfolding restart clean_up ticket_settled socket_event send_frame
  step (effect_runs host ready) s = restart host ready s
  step (unmounts ready) s = clean_up ready s
  step (ticket_ends run result) s = if is_run s.live run then ticket_settled run result s else s
  step (socket run e) s = socket_event run e s
  step (terminal_data run ready typed) s = send_frame run ready (keys (utf8 typed)) s
  step (terminal_resized run ready cols rows) s = send_frame run ready (resize cols rows) s
  step (choose_mode mode) s = record s { mode = mode }
  step reconnect s = record s { session_key = suc s.session_key }

  unfoldable pub play : List Event → Console → Console
  unfolding step
  play [] s = s
  play (e ∷ es) s = play es (step e s)
