-- ===== src/RingBuf/Tests.antt =====
-- Runs of the ring at concrete states.
use middleware_development_d.Queue
use middleware_development_d.Prelude.{
  zero, suc, ◌+◌, ◌-◌, ◌*◌, ◌<◌, ◌≤◌, ◌≡◌, refl, [], ◌∷◌, arith, length-replicate, replicate, take,
  drop, max, two_pow-IsSize, fault, Returns,
}
use middleware_development_d.RingBuf.{
  RingBuffer, rb_init, rb_write, rb_read, rb_readline, rb_len, rb_remain,
}
use middleware_development_d.RingBuf.Inv.{IsValid, contents, rb_remain-add-rb_len}
use middleware_development_d.RingBuf.Init.{rb_init-IsValid, rb_init-fault}
use middleware_development_d.RingBuf.Write.{rb_write-refines}
use middleware_development_d.RingBuf.Read.{rb_read-refines}
use middleware_development_d.RingBuf.Line.{Free, Overwritten}
use middleware_development_d.RingBuf.Lines.{
  OneLine, rb_readline-line, rb_readline-stale, rb_readline-overrun, rb_readline-none,
}

-- Five bytes, with both the block's end and that of the positions between them.
abbrev wrapped : RingBuffer
wrapped = record {
  buf = 3 ∷ 4 ∷ 5 ∷ 0 ∷ 0 ∷ 0 ∷ 1 ∷ 2 ∷ [];
  size = 8;
  write_pos = 3;
  read_pos = 4294967294;
}

wrapped-IsValid : IsValid wrapped
wrapped-IsValid = record {
  shape = two_pow-IsSize 3 (omega arith) (omega arith);
  block = refl;
  write_fits = omega arith;
  read_fits = omega arith;
  fill_fits = omega arith;
}

-- One line, and a byte behind it.
abbrev line_ring : RingBuffer
line_ring = record { buf = 97 ∷ 10 ∷ 98 ∷ 0 ∷ []; size = 4; write_pos = 3; read_pos = 0 }

line_ring-IsValid : IsValid line_ring
line_ring-IsValid = record {
  shape = two_pow-IsSize 2 (omega arith) (omega arith);
  block = refl;
  write_fits = omega arith;
  read_fits = omega arith;
  fill_fits = omega arith;
}

-- One byte held, and an old newline behind it.
abbrev stale_ring : RingBuffer
stale_ring = record { buf = 97 ∷ 10 ∷ 98 ∷ 0 ∷ []; size = 4; write_pos = 1; read_pos = 0 }

stale_ring-IsValid : IsValid stale_ring
stale_ring-IsValid = record {
  shape = two_pow-IsSize 2 (omega arith) (omega arith);
  block = refl;
  write_fits = omega arith;
  read_fits = omega arith;
  fill_fits = omega arith;
}

-- One byte held, and no newline at all.
abbrev plain_ring : RingBuffer
plain_ring = record { buf = 97 ∷ 98 ∷ 99 ∷ 0 ∷ []; size = 4; write_pos = 1; read_pos = 0 }

plain_ring-IsValid : IsValid plain_ring
plain_ring-IsValid = record {
  shape = two_pow-IsSize 2 (omega arith) (omega arith);
  block = refl;
  write_fits = omega arith;
  read_fits = omega arith;
  fill_fits = omega arith;
}

plain_ring-Free : Free plain_ring 0 2
plain_ring-Free zero a b = omega arith
plain_ring-Free (suc zero) a b = omega arith
plain_ring-Free (suc (suc k)) a b = absurd (omega arith)

rb_write-refines_example :
    Returns
      (λ (n, r').
        IsValid r' × ((n, contents r') ≡ Queue.write 8 (1 ∷ 2 ∷ 3 ∷ 4 ∷ 5 ∷ []) (6 ∷ 7 ∷ [])))
      (rb_write wrapped (6 ∷ 7 ∷ 8 ∷ []) 2)
rb_write-refines_example = rb_write-refines (6 ∷ 7 ∷ 8 ∷ []) 2 wrapped-IsValid (omega arith)

rb_read-refines_example :
    Returns
      (λ (n, r', out').
        IsValid r'
        × ((n, take n out', contents r') ≡ Queue.read (1 ∷ 2 ∷ 3 ∷ 4 ∷ 5 ∷ []) 4)
        × (drop n out' ≡ drop n (0 ∷ 0 ∷ 0 ∷ 0 ∷ 9 ∷ [])))
      (rb_read wrapped (0 ∷ 0 ∷ 0 ∷ 0 ∷ 9 ∷ []) 4)
rb_read-refines_example = rb_read-refines (0 ∷ 0 ∷ 0 ∷ 0 ∷ 9 ∷ []) 4 wrapped-IsValid (omega arith)

rb_remain-add-rb_len_example : rb_remain wrapped + rb_len wrapped ≡ 8
rb_remain-add-rb_len_example = rb_remain-add-rb_len wrapped-IsValid

rb_init-IsValid_example :
    Returns
      (λ r. IsValid r × (contents r ≡ []) × (1000 ≤ r.size) × (r.size ≤ max 2 (2 * 1000)))
      (rb_init (λ n. replicate n 0) 1000)
rb_init-IsValid_example =
    rb_init-IsValid (λ n. replicate n 0) (λ n. length-replicate n 0) 1000 (omega arith)

too_large_run : rb_init (λ n. []) 3000000000 ≡ fault
too_large_run = rb_init-fault (λ n. []) 3000000000 (omega arith) (omega arith)

a-OneLine : OneLine (97 ∷ [])
a-OneLine zero h = omega arith
a-OneLine (suc k) h = absurd (omega arith)

rb_readline-line_example :
    Returns
      (λ (n, r', out').
        (n ≡ 1 + 1)
        × IsValid r'
        × (contents r' ≡ 98 ∷ [])
        × (take n out' ≡ 97 ∷ 10 ∷ [])
        × (drop n out' ≡ drop n (0 ∷ 0 ∷ 7 ∷ [])))
      (rb_readline line_ring (0 ∷ 0 ∷ 7 ∷ []) 3)
rb_readline-line_example =
    rb_readline-line (97 ∷ []) (98 ∷ []) (0 ∷ 0 ∷ 7 ∷ []) 3 line_ring-IsValid refl a-OneLine
      (omega arith)

rb_readline-overrun_example : rb_readline plain_ring (0 ∷ 0 ∷ []) 2 ≡ fault
rb_readline-overrun_example =
    rb_readline-overrun (0 ∷ 0 ∷ []) 2 plain_ring-IsValid (omega arith) (omega arith)
      plain_ring-Free

rb_readline-none_example :
    Returns
      (λ (n, r', out').
        (n ≡ 0) × (r' ≡ plain_ring) × Overwritten plain_ring (0 ∷ 0 ∷ 9 ∷ []) 0 2 out')
      (rb_readline plain_ring (0 ∷ 0 ∷ 9 ∷ []) 1)
rb_readline-none_example =
    rb_readline-none (0 ∷ 0 ∷ 9 ∷ []) 1 plain_ring-IsValid (omega arith) plain_ring-Free

stale_ring-Free : Free stale_ring 0 1
stale_ring-Free zero a b = omega arith
stale_ring-Free (suc k) a b = absurd (omega arith)

rb_readline-stale_example :
    Returns
      (λ (n, r', out'). (1 < n) × (rb_len r' ≡ 4294967296 - (n - 1)) × ¬ IsValid r')
      (rb_readline stale_ring (0 ∷ 0 ∷ 0 ∷ []) 2)
rb_readline-stale_example =
    rb_readline-stale (0 ∷ 0 ∷ 0 ∷ []) 2 1 stale_ring-IsValid (omega arith) (omega arith)
      (omega arith) (omega arith) (omega arith) stale_ring-Free refl
