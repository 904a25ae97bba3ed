-- ===== src/HostTerminal/Sessions.antt =====
-- Which session web/src/components/HostTerminal.tsx listens to, after any sequence of events.
use lab_keeper.Common.{
  ==→eq, Bool, Bool-cases, List, Option, Text, [], ap, arith, false, if◌then◌else◌, inl, inr, none,
  refl, some, subst, sym, true, ℕ, ◌<◌, ◌∙◌, ◌∷◌, ◌≡◌, ◌≢◌, ◌⊎◌,
}
use lab_keeper.Json.{Json}
use lab_keeper.Oidc.Types.{
  Failure, session_expired, error, syntax_error, network_error, type_error, uri_error,
}
use lab_keeper.Oidc.World.{World, Result, ok, throws}
use lab_keeper.Api.Types.{Host}
use lab_keeper.Api.Uri.{terminal_websocket_url}
use lab_keeper.HostTerminal.{
  Console, Status, opened, Event, SocketEvent, on_open, on_message, on_error, on_close, text_data,
  binary, TerminalTicket, ReadyState, socket_connecting, socket_open, socket_closing, socket_closed,
  Frame, effect_runs, unmounts, ticket_ends, socket, terminal_data, terminal_resized, choose_mode,
  reconnect, play, step, restart, start, any_available, clean_up, clean_up_live, drop_socket,
  is_run, is_current, has_run, socket_event, handle, ignore, received, parsed_message, shown_error,
  error_message, write, connect_failed, open_socket, open_url, ticket_settled, send_frame,
  initial_console,
}

-- Without a live run there is no socket; a console that says it is connected while a run is live has
-- that run's socket, and never another's.
abbrev pub OneSession : Option ℕ → Option ℕ → ℕ → Status → Type 0
OneSession none ws runs status = ws ≡ none
OneSession (some run) ws runs status =
    (run < runs) × ((ws ≡ some run) ⊎ ((ws ≡ none) × (status ≢ opened)))

abbrev pub IsSound : Console → Type 0
IsSound s = OneSession s.live s.ws_ref s.runs s.status

-- What a live run may do to the socket and the status.
pub Change : ℕ → Option ℕ → Status → Option ℕ → Status → Type 0
Change run ws status ws' status' =
    (ws' ≡ some run)
    ⊎ ((ws' ≡ none) × (status' ≢ opened))
    ⊎ ((ws' ≡ ws) × ((status' ≡ status) ⊎ (status' ≢ opened)))

unfoldable pub Keeps : ℕ → Console → Console → Type 0
Keeps run s t =
    (t.live ≡ s.live) × (t.runs ≡ s.runs) × Change run s.ws_ref s.status t.ws_ref t.status

OneSession-Change :
    (run runs : ℕ) (ws ws' : Option ℕ) (status status' : Status)
    → OneSession (some run) ws runs status
    → Change run ws status ws' status'
    → OneSession (some run) ws' runs status'
unfolding Change
OneSession-Change run runs ws ws' status status' (known, h) (inl current) = (known, inl current)
OneSession-Change run runs ws ws' status status' (known, h) (inr (inl gone)) = (known, inr gone)
OneSession-Change run runs ws ws' status status' (known, inl h) (inr (inr (same, k))) =
    (known, inl (same ∙ h))
OneSession-Change run runs ws ws' status status' (known, inr (h, shut)) (inr (inr (same, inl k))) =
    (known, inr (same ∙ h, λ e. shut (sym k ∙ e)))
OneSession-Change run runs ws ws' status status' (known, inr (h, shut)) (inr (inr (same, inr k))) =
    (known, inr (same ∙ h, k))

Keeps-IsSound :
    (run : ℕ) (s t : Console) → s.live ≡ some run → Keeps run s t → IsSound s → IsSound t
unfolding Keeps
Keeps-IsSound run s t l (live, runs, change) h =
    let known : OneSession (some run) s.ws_ref s.runs s.status =
      subst (λ v. OneSession v s.ws_ref s.runs s.status) l h in
    let after : OneSession t.live t.ws_ref t.runs t.status =
      rw (live, l, runs)
        (OneSession-Change run s.runs s.ws_ref t.ws_ref s.status t.status known change) in
    after

Keeps-refl : (run : ℕ) (s : Console) → Keeps run s s
unfolding Keeps Change
Keeps-refl run s = (refl, refl, inr (inr (refl, inl refl)))

-- A run that is not disposed is the live one.
is_run-live : (live : Option ℕ) (run : ℕ) → is_run live run ≡ true → live ≡ some run
is_run-live none run h = cc
is_run-live (some r) run h = ap some (==→eq r run h)

is_current-live : (run : ℕ) (s : Console) → is_current run s ≡ true → is_run s.live run ≡ true
unfolding is_current
is_current-live run s h = ground arith

module _ (w : World) (engine : Failure → Text) (refuses : Text → Option Failure) where
  connect_failed-Keeps :
      (run : ℕ) (e : Failure) (s : Console) → Keeps run s (connect_failed w engine refuses run e s)
  unfolding connect_failed write Keeps Change
  connect_failed-Keeps run (session_expired m) s = Keeps-refl run s
  connect_failed-Keeps run (error m) s = (refl, refl, inr (inr (refl, inr (cc))))
  connect_failed-Keeps run syntax_error s = (refl, refl, inr (inr (refl, inr (cc))))
  connect_failed-Keeps run network_error s = (refl, refl, inr (inr (refl, inr (cc))))
  connect_failed-Keeps run type_error s = (refl, refl, inr (inr (refl, inr (cc))))
  connect_failed-Keeps run uri_error s = (refl, refl, inr (inr (refl, inr (cc))))

  open_socket-Keeps :
      (run : ℕ) (url : Text) (r : Option Failure) (s : Console)
      → Keeps run s (open_socket w engine refuses run url r s)
  unfolding Keeps Change
  open_socket-Keeps run url (some e) s = connect_failed-Keeps run e s
  open_socket-Keeps run url none s = (refl, refl, inl refl)

  open_url-Keeps :
      (run : ℕ) (r : Result Text) (s : Console) → Keeps run s (open_url w engine refuses run r s)
  open_url-Keeps run (throws e) s = connect_failed-Keeps run e s
  open_url-Keeps run (ok url) s = open_socket-Keeps run url (refuses url) s

  pub ticket_settled-Keeps :
      (run : ℕ) (r : Result TerminalTicket) (s : Console)
      → Keeps run s (ticket_settled w engine refuses run r s)
  unfolding ticket_settled Keeps
  ticket_settled-Keeps run (throws e) s = connect_failed-Keeps run e s
  ticket_settled-Keeps run (ok t) s =
      open_url-Keeps run (terminal_websocket_url t.ticket w).0
        (record s { active_path = some t.path })

  shown_error-Keeps :
      (run : ℕ) (m : Option Text) (s : Console) → Keeps run s (shown_error w engine refuses run m s)
  unfolding Keeps write
  shown_error-Keeps run none s = Keeps-refl run s
  shown_error-Keeps run (some []) s = Keeps-refl run s
  shown_error-Keeps run (some (c ∷ m)) s = Keeps-refl run s

  parsed_message-Keeps :
      (run : ℕ) (given : Text) (j : Option Json) (s : Console)
      → Keeps run s (parsed_message w engine refuses run given j s)
  unfolding Keeps write
  parsed_message-Keeps run given none s = Keeps-refl run s
  parsed_message-Keeps run given (some Json.null) s = Keeps-refl run s
  parsed_message-Keeps run given (some (Json.bool b)) s =
      shown_error-Keeps run (error_message w engine refuses (Json.bool b)) s
  parsed_message-Keeps run given (some (Json.num n)) s =
      shown_error-Keeps run (error_message w engine refuses (Json.num n)) s
  parsed_message-Keeps run given (some (Json.str t)) s =
      shown_error-Keeps run (error_message w engine refuses (Json.str t)) s
  parsed_message-Keeps run given (some (Json.arr items)) s =
      shown_error-Keeps run (error_message w engine refuses (Json.arr items)) s
  parsed_message-Keeps run given (some (Json.obj fields)) s =
      shown_error-Keeps run (error_message w engine refuses (Json.obj fields)) s

  handle-Keeps :
      (run : ℕ) (e : SocketEvent) (s : Console)
      → is_run s.ws_ref run ≡ true
      → Keeps run s (handle w engine refuses run e s)
  unfolding Keeps Change write received
  handle-Keeps run (on_open path) s h = (refl, refl, inl (is_run-live s.ws_ref run h))
  handle-Keeps run (on_message (text_data given)) s h =
      parsed_message-Keeps run given (w.parse_json given) s
  handle-Keeps run (on_message (binary bytes)) s h = Keeps-refl run s
  handle-Keeps run on_error s h = Keeps-refl run s
  handle-Keeps run on_close s h = (refl, refl, inr (inl (refl, cc)))

  pub handle_if-Keeps :
      (run : ℕ) (e : SocketEvent) (s : Console)
      → is_current run s ≡ true
      → Keeps run s (handle w engine refuses run e s)
  unfolding is_current
  handle_if-Keeps run e s h = handle-Keeps run e s (ground arith)

  ignore-IsSound :
      (run : ℕ) (e : SocketEvent) (s : Console)
      → IsSound s
      → IsSound (ignore w engine refuses run e s)
  ignore-IsSound run (on_open path) s h = h
  ignore-IsSound run (on_message given) s h = h
  ignore-IsSound run on_error s h = h
  ignore-IsSound run on_close s h = h

  socket_event-IsSound :
      (run : ℕ) (e : SocketEvent) (s : Console)
      → IsSound s
      → IsSound (socket_event w engine refuses run e s)
  unfolding socket_event
  socket_event-IsSound run e s h =
      let heard : IsSound (
          if is_current run s
          then handle w engine refuses run e s
          else ignore w engine refuses run e s) =
        elim (Bool-cases (is_current run s)) [
          | inl now ↦ rw now (
              Keeps-IsSound run s (handle w engine refuses run e s)
                (is_run-live s.live run (is_current-live run s now)) (handle_if-Keeps run e s now)
                h)
          | inr past ↦ rw past (ignore-IsSound run e s h)
        ] in
      elim (Bool-cases (has_run s.detached run)) [ inl e ↦ rw e h | inr e ↦ rw e heard ]

  ticket_ends-IsSound :
      (run : ℕ) (r : Result TerminalTicket) (s : Console)
      → IsSound s
      → IsSound (if is_run s.live run then ticket_settled w engine refuses run r s else s)
  ticket_ends-IsSound run r s h = elim (Bool-cases (is_run s.live run)) [
    | inl e ↦ rw e (
        Keeps-IsSound run s (ticket_settled w engine refuses run r s) (is_run-live s.live run e)
          (ticket_settled-Keeps run r s) h)
    | inr e ↦ rw e h
  ]

drop_socket-none :
    (ws : Option ℕ) (ready : ReadyState) (s : Console)
    → s.ws_ref ≡ ws
    → ((drop_socket ws ready s).live ≡ s.live) × ((drop_socket ws ready s).ws_ref ≡ none)
unfolding drop_socket
drop_socket-none none ready s h = (refl, h)
drop_socket-none (some run) ready s h = (refl, refl)

clean_up_live-gone :
    (live : Option ℕ) (ready : ReadyState) (s : Console)
    → s.live ≡ live
    → OneSession live s.ws_ref s.runs s.status
    → ((clean_up_live live ready s).live ≡ none) × ((clean_up_live live ready s).ws_ref ≡ none)
unfolding clean_up_live
clean_up_live-gone none ready s e h = (e, h)
clean_up_live-gone (some run) ready s e h =
    drop_socket-none s.ws_ref ready (record s { live = none }) refl

-- After the clean-up no run is live, and there is no socket.
clean_up-gone :
    (ready : ReadyState) (s : Console)
    → IsSound s
    → ((clean_up ready s).live ≡ none) × ((clean_up ready s).ws_ref ≡ none)
unfolding clean_up
clean_up-gone ready s h = clean_up_live-gone s.live ready s refl h

gone-IsSound : (s : Console) → s.live ≡ none → s.ws_ref ≡ none → IsSound s
gone-IsSound s e h = let after : OneSession s.live s.ws_ref s.runs s.status = rw e h in after

started-IsSound :
    (can : Bool) (host : Host) (s : Console)
    → any_available host ≡ can
    → s.live ≡ none
    → s.ws_ref ≡ none
    → IsSound (start host s)
unfolding start
started-IsSound true host s c e h = rw c (omega arith, inr (h, cc))
started-IsSound false host s c e h = rw c (gone-IsSound s e h)

restart-IsSound :
    (host : Host) (ready : ReadyState) (s : Console) → IsSound s → IsSound (restart host ready s)
unfolding restart
restart-IsSound host ready s h =
    let (e, k) = clean_up-gone ready s h in
    started-IsSound (any_available host) host (clean_up ready s) refl e k

send_frame-console :
    (run : ℕ) (ready : ReadyState) (f : Frame) (s : Console)
    → IsSound s
    → IsSound (send_frame run ready f s)
unfolding send_frame
send_frame-console run socket_open f s h = h
send_frame-console run socket_connecting f s h = h
send_frame-console run socket_closing f s h = h
send_frame-console run socket_closed f s h = h

module _ (w : World) (engine : Failure → Text) (refuses : Text → Option Failure) where
  step-IsSound : (e : Event) (s : Console) → IsSound s → IsSound (step w engine refuses e s)
  unfolding step
  step-IsSound (effect_runs host ready) s h = restart-IsSound host ready s h
  step-IsSound (unmounts ready) s h =
      let (e, k) = clean_up-gone ready s h in gone-IsSound (clean_up ready s) e k
  step-IsSound (ticket_ends run r) s h = ticket_ends-IsSound w engine refuses run r s h
  step-IsSound (socket run e) s h = socket_event-IsSound w engine refuses run e s h
  step-IsSound (terminal_data run ready typed) s h = send_frame-console run ready _ s h
  step-IsSound (terminal_resized run ready cols rows) s h = send_frame-console run ready _ s h
  step-IsSound (choose_mode mode) s h = h
  step-IsSound reconnect s h = h

  from-IsSound : (es : List Event) (s : Console) → IsSound s → IsSound (play w engine refuses es s)
  unfolding play
  from-IsSound [] s h = h
  from-IsSound (e ∷ es) s h = from-IsSound es (step w engine refuses e s) (step-IsSound e s h)

  -- Whatever happens to the console from its start, and in whatever order: without a live run there is
  -- no socket; with one, the socket in use is that run's, or there is none and the console does not
  -- say that it is connected.
  pub play-IsSound : (es : List Event) → IsSound (play w engine refuses es initial_console)
  play-IsSound es = from-IsSound es initial_console refl
