-- ===== src/Server/Tests.antt =====
-- A run of the echo at a concrete connection.
use middleware_development_d.Prelude.{
  zero, suc, ◌≡◌, refl, none, some, [], ◌∷◌, ◌++◌, arith, two_pow-IsSize, Returns,
}
use middleware_development_d.RingBuf.{RingBuffer}
use middleware_development_d.RingBuf.Inv.{IsValid, contents}
use middleware_development_d.RingBuf.Lines.{OneLine}
use middleware_development_d.Event.{Conn}
use middleware_development_d.Event.Socket.{got, read_failed, takes}
use middleware_development_d.Event.Receive.{dry, chunk}
use middleware_development_d.Server.{read_cb}
use middleware_development_d.Server.Echo.{outgoing, read_cb-echoes}

abbrev empty_ring : RingBuffer
empty_ring = record { buf = 0 ∷ 0 ∷ 0 ∷ 0 ∷ []; size = 4; write_pos = 4; read_pos = 4 }

empty_ring-IsValid : IsValid empty_ring
empty_ring-IsValid = record {
  shape = two_pow-IsSize 2 (omega arith) (omega arith);
  block = refl;
  write_fits = omega arith;
  read_fits = omega arith;
  fill_fits = omega arith;
}

abbrev client : Conn
client = record {
  event = record {
    fd = 7;
    inward = empty_ring;
    outward = empty_ring;
    read_fn = some 10;
    write_fn = some 11;
    error_fn = none;
  };
  log = [];
  sent = 1 ∷ [];
}

a-OneLine : OneLine (97 ∷ [])
a-OneLine zero h = omega arith
a-OneLine (suc k) h = absurd (omega arith)

read_cb-echoes_example :
    Returns
      (λ c'.
        (outgoing c' ≡ outgoing client ++ (97 ∷ 10 ∷ 0 ∷ []))
        × IsValid c'.event.inward
        × (contents c'.event.inward ≡ [])
        × IsValid c'.event.outward)
      (read_cb (got (97 ∷ 10 ∷ []) ∷ read_failed 11 ∷ []) (takes 2 ∷ []) client)
read_cb-echoes_example =
    read_cb-echoes (takes 2 ∷ []) client (97 ∷ []) (chunk (dry refl) refl) a-OneLine (omega arith)
      empty_ring-IsValid refl (omega arith) empty_ring-IsValid tt (omega arith) (omega arith)
