-- ===== src/HostTerminal/Superseded.antt =====
-- What reaches web/src/components/HostTerminal.tsx from a session that was left: late tickets and
-- late events of its socket.
use lab_keeper.Common.{
  Bool, Bool-cases, List, Option, Text, [], ap, arith, false, if◌then◌else◌, inl, inr, none, refl,
  some, subst, sym, true, ℕ, ◌<◌, ◌∙◌, ◌∷◌, ◌≡◌,
}
use lab_keeper.Oidc.Types.{Failure}
use lab_keeper.Oidc.World.{World, Result}
use lab_keeper.Api.Types.{Host}
use lab_keeper.HostTerminal.{
  Console, Event, SocketEvent, on_open, on_message, on_error, on_close, TerminalTicket, ReadyState,
  socket_connecting, socket_open, socket_closing, socket_closed, Frame, effect_runs, unmounts,
  ticket_ends, socket, terminal_data, terminal_resized, choose_mode, reconnect, play, step, restart,
  start, any_available, clean_up, clean_up_live, drop_socket, is_run, is_current, has_run,
  socket_event, handle, ignore, ticket_settled, send_frame,
}
use lab_keeper.HostTerminal.Sessions.{Keeps, ticket_settled-Keeps, handle_if-Keeps}

-- A run that has started and is not the live one.
abbrev pub IsLeft : ℕ → Console → Type 0
IsLeft run s = (run < s.runs) × (is_run s.live run ≡ false)

IsLeft-subst :
    (run : ℕ) (s t : Console) → t.live ≡ s.live → t.runs ≡ s.runs → IsLeft run s → IsLeft run t
IsLeft-subst run s t l r (known, past) =
    (subst (λ n. run < n) (sym r) known, ap (λ v. is_run v run) l ∙ past)

left_by_none : (run : ℕ) (live : Option ℕ) → live ≡ none → is_run live run ≡ false
left_by_none run live e = ap (λ v. is_run v run) e

drop_socket-IsLeft :
    (run : ℕ) (ws : Option ℕ) (ready : ReadyState) (s : Console)
    → IsLeft run s
    → IsLeft run (drop_socket ws ready s)
unfolding drop_socket
drop_socket-IsLeft run none ready s h = h
drop_socket-IsLeft run (some r) ready s h = h

clean_up_live-IsLeft :
    (run : ℕ) (live : Option ℕ) (ready : ReadyState) (s : Console)
    → IsLeft run s
    → IsLeft run (clean_up_live live ready s)
unfolding clean_up_live
clean_up_live-IsLeft run none ready s h = h
clean_up_live-IsLeft run (some r) ready s (known, past) =
    drop_socket-IsLeft run s.ws_ref ready (record s { live = none }) (known, refl)

clean_up-IsLeft :
    (run : ℕ) (ready : ReadyState) (s : Console) → IsLeft run s → IsLeft run (clean_up ready s)
unfolding clean_up
clean_up-IsLeft run ready s h = clean_up_live-IsLeft run s.live ready s h

start-IsLeft :
    (run : ℕ) (can : Bool) (host : Host) (s : Console)
    → any_available host ≡ can
    → IsLeft run s
    → IsLeft run (start host s)
unfolding start
start-IsLeft run true host s c (known, past) = rw c (omega arith, ground arith)
start-IsLeft run false host s c h = rw c h

send_frame-IsLeft :
    (run at : ℕ) (ready : ReadyState) (f : Frame) (s : Console)
    → IsLeft run s
    → IsLeft run (send_frame at ready f s)
unfolding send_frame
send_frame-IsLeft run at socket_open f s h = h
send_frame-IsLeft run at socket_connecting f s h = h
send_frame-IsLeft run at socket_closing f s h = h
send_frame-IsLeft run at socket_closed f s h = h

not_current : (run : ℕ) (s : Console) → is_run s.live run ≡ false → is_current run s ≡ false
unfolding is_current
not_current run s h = ground arith

module _ (w : World) (engine : Failure → Text) (refuses : Text → Option Failure) where
  Keeps-IsLeft : (run at : ℕ) (s t : Console) → Keeps at s t → IsLeft run s → IsLeft run t
  unfolding Keeps
  Keeps-IsLeft run at s t (l, r, change) h = IsLeft-subst run s t l r h

  ignore-IsLeft :
      (run at : ℕ) (e : SocketEvent) (s : Console)
      → IsLeft run s
      → IsLeft run (ignore w engine refuses at e s)
  ignore-IsLeft run at (on_open path) s h = h
  ignore-IsLeft run at (on_message given) s h = h
  ignore-IsLeft run at on_error s h = h
  ignore-IsLeft run at on_close s h = h

  socket_event-IsLeft :
      (run at : ℕ) (e : SocketEvent) (s : Console)
      → IsLeft run s
      → IsLeft run (socket_event w engine refuses at e s)
  unfolding socket_event
  socket_event-IsLeft run at e s h =
      let heard : IsLeft run (
          if is_current at s
          then handle w engine refuses at e s
          else ignore w engine refuses at e s) =
        elim (Bool-cases (is_current at s)) [
          | inl now ↦ rw now (
              Keeps-IsLeft run at s (handle w engine refuses at e s)
                (handle_if-Keeps w engine refuses at e s now) h)
          | inr past ↦ rw past (ignore-IsLeft run at e s h)
        ] in
      elim (Bool-cases (has_run s.detached at)) [ inl mute ↦ rw mute h | inr live ↦ rw live heard ]

  step-IsLeft :
      (run : ℕ) (e : Event) (s : Console) → IsLeft run s → IsLeft run (step w engine refuses e s)
  unfolding step restart
  step-IsLeft run (effect_runs host ready) s h =
      start-IsLeft run (any_available host) host (clean_up ready s) refl
        (clean_up-IsLeft run ready s h)
  step-IsLeft run (unmounts ready) s h = clean_up-IsLeft run ready s h
  step-IsLeft run (ticket_ends at r) s h = elim (Bool-cases (is_run s.live at)) [
    | inl now ↦ rw now (
        Keeps-IsLeft run at s (ticket_settled w engine refuses at r s)
          (ticket_settled-Keeps w engine refuses at r s) h)
    | inr past ↦ rw past h
  ]
  step-IsLeft run (socket at e) s h = socket_event-IsLeft run at e s h
  step-IsLeft run (terminal_data at ready typed) s h = send_frame-IsLeft run at ready _ s h
  step-IsLeft run (terminal_resized at ready cols rows) s h = send_frame-IsLeft run at ready _ s h
  step-IsLeft run (choose_mode mode) s h = h
  step-IsLeft run reconnect s h = h

  play-IsLeft :
      (run : ℕ) (es : List Event) (s : Console)
      → IsLeft run s
      → IsLeft run (play w engine refuses es s)
  unfolding play
  play-IsLeft run [] s h = h
  play-IsLeft run (e ∷ es) s h =
      play-IsLeft run es (step w engine refuses e s) (step-IsLeft run e s h)

  ignore-closing :
      (run : ℕ) (e : SocketEvent) (s : Console)
      → record (ignore w engine refuses run e s) { closing = s.closing } ≡ s
  ignore-closing run (on_open path) s = refl
  ignore-closing run (on_message given) s = refl
  ignore-closing run on_error s = refl
  ignore-closing run on_close s = refl

  socket_event-closing :
      (run : ℕ) (e : SocketEvent) (s : Console)
      → is_run s.live run ≡ false
      → record (socket_event w engine refuses run e s) { closing = s.closing } ≡ s
  unfolding socket_event
  socket_event-closing run e s h = elim (Bool-cases (has_run s.detached run)) [
    | inl mute ↦ rw mute refl
    | inr live ↦ rw (live, not_current run s h) (ignore-closing run e s)
  ]

  -- Once a run has been left, then after whatever else happens a ticket for it changes nothing at all, and
  -- an event of its socket nothing but the list of sockets that were told to close: status, message,
  -- path, the socket in use and what the terminals show all stay.
  pub play-ignores :
      (run : ℕ) (es : List Event) (result : Result TerminalTicket) (event : SocketEvent)
      (s : Console)
      → run < s.runs
      → is_run s.live run ≡ false
      → let after = play w engine refuses es s in
        (step w engine refuses (ticket_ends run result) after ≡ after)
        × (record (step w engine refuses (socket run event) after) { closing = after.closing }
            ≡ after)
  unfolding step
  play-ignores run es result event s known past =
      let after : Console = play w engine refuses es s in
      let (still, gone) = play-IsLeft run es s (known, past) in
      (rw gone refl, socket_event-closing run event after gone)
