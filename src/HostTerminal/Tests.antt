-- ===== src/HostTerminal/Tests.antt =====
-- A console that reconnects, and its theorems there.
use lab_keeper.Common.{List, Option, Text, [], arith, none, refl, some, text, true, ◌∷◌, ◌≡◌}
use lab_keeper.Oidc.Types.{Failure}
use lab_keeper.Oidc.World.{World, Result, ok}
use lab_keeper.Oidc.Samples.{sample_world}
use lab_keeper.Api.Inputs.{icmp}
use lab_keeper.Api.Types.{Host}
use lab_keeper.HostTerminal.{
  Console, initial_console, TerminalTicket, Status, connecting, socket_open, Event, effect_runs,
  ticket_ends, socket, on_open, on_close, play, step,
}
use lab_keeper.HostTerminal.Sessions.{IsSound, play-IsSound}
use lab_keeper.HostTerminal.Superseded.{play-ignores}

abbrev host : Host
host = record {
  id = text "h";
  site_id = text "s";
  name = text "nas";
  hostname = [];
  address = none;
  subject = none;
  agent_fingerprint = none;
  os = none;
  ips = none;
  remote_addr = none;
  online = true;
  agent_online = true;
  connected_at = none;
  last_seen = none;
  last_probe_at = none;
  probe_method = icmp;
  probe_port = 22;
  cpu_cores = none;
  memory_bytes = none;
  credential_id = none;
  credential = none;
  created_at = text "t";
  updated_at = text "t";
}

abbrev world : World
world = sample_world []

abbrev engine : Failure → Text
engine e = text "m"

abbrev no_refusal : Text → Option Failure
no_refusal url = none

abbrev ticket : Result TerminalTicket
ticket = ok (record { ticket = text "k"; expires_in = 30; path = text "agent" })

-- The first session opens and is left for a second one; only then its socket closes.
abbrev switch : List Event
switch =
    effect_runs host socket_open
    ∷ ticket_ends 0 ticket
    ∷ socket 0 (on_open (text "agent"))
    ∷ effect_runs host socket_open
    ∷ socket 0 on_close
    ∷ []

abbrev switched : Console
switched = play world engine no_refusal switch initial_console

switched_status :
    (switched.status ≡ connecting) × (switched.closing ≡ 0 ∷ []) × (switched.ws_ref ≡ none)
unfolding play lab_keeper.HostTerminal.has_run lab_keeper.Api.Uri.terminal_websocket_url
    lab_keeper.Oidc.World.◌>>=◌ lab_keeper.Oidc.World.gets lab_keeper.Api.Uri.encode_uri_component
    text lab_keeper.Oidc.World.pure
switched_status = (refl, refl, refl)

play-IsSound_example : IsSound switched
play-IsSound_example = play-IsSound world engine no_refusal switch

-- The console whose first run was left for a second one.
abbrev second : Console
second = record initial_console { runs = 2; live = some 1; status = connecting }

play-ignores_example :
    let after = play world engine no_refusal (ticket_ends 1 ticket ∷ []) second in
    (step world engine no_refusal (ticket_ends 0 ticket) after ≡ after)
    × (record (step world engine no_refusal (socket 0 on_close) after) { closing = after.closing }
        ≡ after)
play-ignores_example =
    play-ignores world engine no_refusal 0 (ticket_ends 1 ticket ∷ []) ticket on_close second
      (omega arith) refl
