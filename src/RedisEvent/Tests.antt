-- ===== src/RedisEvent/Tests.antt =====
-- Calls of the adapter at concrete states.
use middleware_development_d.Prelude.{◌≡◌, refl, true, false, none, some, [], ◌∷◌}
use middleware_development_d.RingBuf.{RingBuffer}
use middleware_development_d.Event.{ctl_add}
use middleware_development_d.RedisEvent.{RedisEvent}
use middleware_development_d.RedisEvent.Interest.{
  add_read, call, Wants, call-Wants, call-request, OutOfStep, call-OutOfStep,
}

abbrev no_ring : RingBuffer
no_ring = record { buf = []; size = 0; write_pos = 0; read_pos = 0 }

abbrev idle : RedisEvent
idle = record {
  conn = record {
    event = record {
      fd = 5;
      inward = no_ring;
      outward = no_ring;
      read_fn = none;
      write_fn = none;
      error_fn = none;
    };
    log = [];
    sent = [];
  };
  mask = 0;
}

idle-Wants : Wants false false idle
idle-Wants = record { mask = refl; reads = refl; writes = refl }

abbrev writing : RedisEvent
writing = record {
  conn = record {
    event = record {
      fd = 5;
      inward = no_ring;
      outward = no_ring;
      read_fn = none;
      write_fn = some 2;
      error_fn = none;
    };
    log = [];
    sent = [];
  };
  mask = 4;
}

writing-Wants : Wants false true writing
writing-Wants = record { mask = refl; reads = refl; writes = refl }

call-Wants_example : Wants true true (call add_read writing)
call-Wants_example = call-Wants add_read false true writing-Wants

call-request_example : (call add_read idle).conn.log ≡ ctl_add 5 1 ∷ []
call-request_example = call-request add_read false false idle-Wants tt

call-OutOfStep_example : OutOfStep add_read writing
call-OutOfStep_example = call-OutOfStep add_read false true writing-Wants tt
