-- ===== src/LibeventServer/Calls.antt =====
-- What the two servers ask of libevent: the rest of `evmain1.c` and `evmain2.c` in
-- `4.3 Redis/4.3.2Redis协议与异步方式/src/example/`. libevent's constants are arguments, and so is what
-- its functions give; its objects, and the functions it is to call, are numbers. Printing is left out.
use middleware_development_d.Prelude.{
  ℕ, bit_and, bit_or, Bool, Option, none, some, List, [], ◌∷◌, ltb, if◌then◌else◌, ℤ, pos,
  minus_one,
}
use middleware_development_d.LibeventServer.{socket_listen}

-- `callback` and `arg` are what libevent calls, and with which argument.
pub data Call : Type 0 where
  make_nonblocking : (fd : ℤ) → Call
  assign : (ev base : ℕ) → (fd : ℤ) → (flags : ℕ) → (callback arg : ℕ) → Call
  add : (ev : ℕ) → (seconds : Option ℕ) → Call
  del : (ev : ℕ) → Call
  dispatch : (base : ℕ) → Call
  set_callbacks : (bev : ℕ) → (read write event : Option ℕ) → Call
  enable : (bev : ℕ) → (flags : ℕ) → Call
  free_bufferevent : (bev : ℕ) → Call
  free_listener : (listener : ℕ) → Call
  free_base : (base : ℕ) → Call

-- The callbacks' names.
abbrev pub accept_name : ℕ
accept_name = 20

abbrev pub read_name : ℕ
read_name = 21

abbrev pub event_name : ℕ
event_name = 22

abbrev pub timer_name : ℕ
timer_name = 23

abbrev pub interrupt_name : ℕ
interrupt_name = 24

module _ (ev_read ev_persist : ℕ) where
  -- `evmain1.c`. `clientfd` is what `accept` gives, an error too, and `ev` what `event_new` gives.
  unfoldable pub socket_accept_cb : (clientfd : ℤ) → (base ev : ℕ) → List Call
  socket_accept_cb clientfd base ev =
      make_nonblocking clientfd
      ∷ assign ev base clientfd (bit_or ev_read ev_persist) read_name ev
      ∷ add ev none
      ∷ []

  -- `main` of `evmain1.c`, for the answers to the calls of `socket_listen`: its result.
  unfoldable pub main_accepting : Option ℕ → (bind listen : Bool) → (base ev : ℕ) → ℤ × List Call
  unfolding socket_listen
  main_accepting socket bind listen base ev = elim (socket_listen socket bind listen).0 [
    | none ↦ (minus_one, [])
    | some fd ↦ (
      pos 0,
      assign ev base (pos fd) (bit_or ev_read ev_persist) accept_name base
          ∷ add ev none
          ∷ dispatch base
          ∷ [],
    )
  ]

  -- `evmain2.c`. `bev` is what `bufferevent_socket_new` gives.
  unfoldable pub listener_callback : (bev : ℕ) → List Call
  listener_callback bev =
      set_callbacks bev (some read_name) none (some event_name)
      ∷ enable bev (bit_or ev_read ev_persist)
      ∷ []

-- What `socket_event_callback` prints.
pub data Notice : Type 0 where
  connection_closed : Notice
  some_other_error : Notice
  timed_out : Notice
  nothing : Notice

module _ (bev_event_eof bev_event_error bev_event_timeout : ℕ) where
  abbrev pub notice : (events : ℕ) → Notice
  notice events =
      if ltb 0 (bit_and events bev_event_eof)
      then connection_closed
      else if ltb 0 (bit_and events bev_event_error)
      then some_other_error
      else if ltb 0 (bit_and events bev_event_timeout)
      then timed_out
      else nothing

  unfoldable pub socket_event_callback : (bev events : ℕ) → Notice × List Call
  socket_event_callback bev events = (notice events, free_bufferevent bev ∷ [])

unfoldable pub do_timer : (timer : ℕ) → List Call
do_timer timer = del timer ∷ []

unfoldable pub do_sig_int : (si : ℕ) → List Call
do_sig_int si = del si ∷ []

-- `main` of `evmain2.c`, for the event base, the listener, the two events and `SIGINT`.
unfoldable pub main_listening :
    (ev_signal : ℕ) → (sigint : ℕ) → (base listener evtimer evint : ℕ) → ℤ × List Call
main_listening ev_signal sigint base listener evtimer evint = (
  pos 0,
  assign evtimer base minus_one 0 timer_name evtimer
      ∷ add evtimer (some 1)
      ∷ assign evint base (pos sigint) ev_signal interrupt_name evint
      ∷ add evint none
      ∷ dispatch base
      ∷ free_listener listener
      ∷ free_base base
      ∷ [],
)
