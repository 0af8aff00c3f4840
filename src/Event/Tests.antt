-- ===== src/Event/Tests.antt =====
-- Runs of the calls on sockets at concrete states.
use middleware_development_d.Prelude.{
  ◌≡◌, ℕ, refl, inl, none, some, List, [], ◌∷◌, ◌++◌, arith, two_pow-IsSize, pos, ok, Returns,
}
use middleware_development_d.RingBuf.{RingBuffer}
use middleware_development_d.RingBuf.Inv.{IsValid}
use middleware_development_d.Event.{Conn, Action, ctl_mod, ctl_del, close, call_error}
use middleware_development_d.Event.Socket.{
  WriteAnswer, got, read_failed, takes, write_failed, read_socket, flush_socket, write_socket,
  put_outward,
}
use middleware_development_d.Event.Flush.{Flushed, flush_socket-Flushed}
use middleware_development_d.Event.Send.{Accepted, write_socket-Accepted, write_socket-dropped}
use middleware_development_d.Event.Broken.{socket_calls-gone}
use middleware_development_d.Event.Receive.{dry, again, chunk, Received, read_socket-Received}

-- Six bytes, with the block's end between them.
abbrev waiting : RingBuffer
waiting = record {
  buf = 5 ∷ 6 ∷ 7 ∷ 8 ∷ 0 ∷ 0 ∷ 3 ∷ 4 ∷ [];
  size = 8;
  write_pos = 12;
  read_pos = 6;
}

waiting-IsValid : IsValid waiting
waiting-IsValid = record {
  shape = two_pow-IsSize 3 (omega arith) (omega arith);
  block = refl;
  write_fits = omega arith;
  read_fits = omega arith;
  fill_fits = omega arith;
}

abbrev nothing : RingBuffer
nothing = record { buf = 0 ∷ 0 ∷ 0 ∷ 0 ∷ []; size = 4; write_pos = 4; read_pos = 4 }

nothing-IsValid : IsValid nothing
nothing-IsValid = record {
  shape = two_pow-IsSize 2 (omega arith) (omega arith);
  block = refl;
  write_fits = omega arith;
  read_fits = omega arith;
  fill_fits = omega arith;
}

abbrev over : RingBuffer → Conn
over r = record {
  event = record {
    fd = 7;
    inward = nothing;
    outward = r;
    read_fn = some 1;
    write_fn = some 2;
    error_fn = none;
  };
  log = [];
  sent = 1 ∷ 2 ∷ [];
}

-- An interruption, and then three bytes are taken, and then two.
abbrev partial : List WriteAnswer
partial = write_failed 4 ∷ takes 3 ∷ takes 2 ∷ []

flush_socket-Flushed_example :
    Returns (Flushed (over waiting) 4) (flush_socket partial (over waiting))
flush_socket-Flushed_example =
    flush_socket-Flushed (over waiting) partial waiting-IsValid (inl refl, tt) (omega arith)

write_socket-Accepted_example :
    Returns
      (Accepted (over nothing) (1 ∷ 2 ∷ 3 ∷ 4 ∷ []))
      (write_socket partial (over nothing) (1 ∷ 2 ∷ 3 ∷ 4 ∷ []))
write_socket-Accepted_example =
    write_socket-Accepted (over nothing) partial (1 ∷ 2 ∷ 3 ∷ 4 ∷ []) nothing-IsValid (inl refl, tt)
      (omega arith) (omega arith)

write_socket-dropped_example :
    write_socket partial (over waiting) (1 ∷ 2 ∷ 3 ∷ []) ≡ ok (pos 1, over waiting)
write_socket-dropped_example =
    write_socket-dropped (over waiting) partial (1 ∷ 2 ∷ 3 ∷ []) waiting-IsValid (omega arith)
      (omega arith)

-- An event whose error callback is set, and an interruption before the error.
abbrev watched : Conn
watched = record (over nothing) {
  event = record (over nothing).event { error_fn = some 3 };
  log = ctl_mod 7 1 ∷ [];
}

abbrev ended : List Action
ended = ctl_mod 7 1 ∷ call_error 7 32 ∷ ctl_del 7 ∷ close 7 ∷ []

abbrev left_over : List Action → ℕ → Conn
left_over log read_pos = record {
  event = record {
    fd = 7;
    inward = record { buf = []; size = 0; write_pos = 0; read_pos = 0 };
    outward = record { buf = []; size = 0; write_pos = 0; read_pos = read_pos };
    read_fn = some 1;
    write_fn = some 2;
    error_fn = some 3;
  };
  log = log;
  sent = 1 ∷ 2 ∷ [];
}

socket_calls-gone_example :
    (read_socket (read_failed 4 ∷ read_failed 32 ∷ []) watched ≡ ok (0, left_over ended 0))
    × (read_socket (read_failed 4 ∷ got [] ∷ []) watched
        ≡ ok (0, left_over (ctl_mod 7 1 ∷ call_error 7 0 ∷ ctl_del 7 ∷ close 7 ∷ []) 0))
    × (write_socket (write_failed 4 ∷ write_failed 32 ∷ []) watched (1 ∷ [])
        ≡ ok (pos 0, left_over (ended ++ ctl_mod 7 5 ∷ []) 0))
    × (flush_socket (write_failed 4 ∷ write_failed 32 ∷ []) (put_outward watched waiting)
        ≡ ok (pos 0, left_over ended 4294967295))
socket_calls-gone_example =
    socket_calls-gone watched waiting (1 ∷ []) 32 1 [] [] (omega arith) (omega arith)
      nothing-IsValid (omega arith) waiting-IsValid (omega arith)

read_socket-Received_example : Returns (Received 0 (over nothing) (1 ∷ 2 ∷ 3 ∷ [])) (
    read_socket
      (got (1 ∷ 2 ∷ []) ∷ read_failed 4 ∷ got (3 ∷ []) ∷ read_failed 11 ∷ [])
      (over nothing))
read_socket-Received_example =
    read_socket-Received (over nothing) (chunk (again refl (chunk (dry refl) refl)) refl)
      nothing-IsValid (omega arith)
