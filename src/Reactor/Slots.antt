-- ===== src/Reactor/Slots.antt =====
-- The slots that `new_event` gives out, and that none is ever given out again.
use native.Mathlib.Decide.{dec_lt}
use native.Mathlib.Nat.{mod-eq_of_lt}
use middleware_development_d.Prelude.{
  ℕ, suc, ◌+◌, ◌≤◌, ◌<◌, ◌≡◌, ◌≢◌, refl, ap, ◌∙◌, bit_and, true, false, Option, some, none, List,
  [], ◌∷◌, arith, length, leb, ◌==◌, two_pow-IsSize, Run, ok, fault, ◌>>=◌, Returns, returns,
  Returns-eq_ok,
}
use middleware_development_d.RingBuf.{RingBuffer}
use middleware_development_d.RingBuf.Init.{rb_init-IsValid}
use middleware_development_d.RingBuf.Inv.{IsValid, contents}
use middleware_development_d.Event.{Action, Event, Conn, del_event}
use middleware_development_d.Reactor.{Reactor, get_event, new_event, next_slot, put_event}

-- No slot behind `iter` is in use.
pub record IsFresh (r : Reactor) : Type 0 where
  pub unused : (i : ℕ) → r.iter < i → (r.events i).fd ≡ 0

-- `MAX_CONN` masks a number of 16 bits to itself.
max_conn_mask : (i : ℕ) → i < 65536 → bit_and i 65535 ≡ i
max_conn_mask i h = (two_pow-IsSize 16 (omega arith) (omega arith)).mask i ∙ mod-eq_of_lt h

next_slot_free :
    (rounds : ℕ) (r : Reactor)
    → r.iter < 65535
    → (r.events r.iter).fd ≡ 0
    → next_slot (suc rounds) r ≡ ok r
unfolding next_slot
next_slot_free rounds r h free =
    let same : bit_and r.iter 65535 ≡ r.iter = max_conn_mask r.iter (omega arith) in
    let inside : leb 65535 r.iter ≡ false = ground arith in rw (same, inside, free)

next_slot_past : (rounds : ℕ) (r : Reactor) → r.iter ≡ 65535 → next_slot (suc rounds) r ≡ fault
unfolding next_slot
next_slot_past rounds r h =
    let same : bit_and r.iter 65535 ≡ 65535 = max_conn_mask r.iter (omega arith) ∙ h in rw same

get_event-fresh :
    (r : Reactor)
    → IsFresh r
    → suc r.iter < 65535
    → get_event r ≡ ok (record r { iter = suc r.iter })
unfolding get_event
get_event-fresh r fresh h =
    next_slot_free 65535 (record r { iter = suc r.iter }) h
      (fresh.unused (suc r.iter) (omega arith))

get_event-full : (r : Reactor) → suc r.iter ≡ 65535 → get_event r ≡ fault
unfolding get_event
get_event-full r h = next_slot_past 65535 (record r { iter = suc r.iter }) h

-- The slot holds a new event for `fd`, with empty rings, and no slot behind it is in use.
pub record Given (r : Reactor) (fd : ℕ) (out : ℕ × Reactor) : Type 0 where
  pub slot : out.0 ≡ suc r.iter
  pub iter : out.1.iter ≡ suc r.iter
  pub event_fd : (out.1.events out.0).fd ≡ fd
  pub inward : IsValid (out.1.events out.0).inward × (contents (out.1.events out.0).inward ≡ [])
  pub outward : IsValid (out.1.events out.0).outward × (contents (out.1.events out.0).outward ≡ [])
  pub others : (i : ℕ) → i ≢ out.0 → out.1.events i ≡ r.events i
  pub fresh : IsFresh out.1

put_event_same : (s : ℕ) (e : Event) (r : Reactor) → (put_event s e r).events s ≡ e
put_event_same s e r = let same : (s == s) ≡ true = ground arith in rw same

put_event_other :
    (s i : ℕ) (e : Event) (r : Reactor) → i ≢ s → (put_event s e r).events i ≡ r.events i
put_event_other s i e r h = let other : (i == s) ≡ false = ground arith in rw other

module _ (malloc : ℕ → List ℕ) where
  -- Connections one after the other: each gets an event, with a callback for reading, and gives it
  -- back by `del_event` before the next one comes.
  unfoldable pub turnover : List ℕ → Reactor → Run Reactor
  unfolding new_event del_event
  turnover [] r = ok r
  turnover (fd ∷ fds) r = new_event malloc r fd (some 0) none none >>= λ (slot, r').
      let c : Conn = del_event (record { event = r'.events slot; log = r'.log; sent = [] }) in
      turnover fds (record (put_event slot c.event r') { log = c.log })

module _ (malloc : ℕ → List ℕ) (allocated : (n : ℕ) → length (malloc n) ≡ n) where
  -- While no slot behind `iter` is in use and there is one left before slot 65535, and `malloc`
  -- succeeds, `new_event` with a
  -- callback for reading gives out the next slot, with the descriptor and two valid empty rings; it
  -- changes no other slot, and again no slot behind `iter` is in use.
  pub new_event-Given :
      (r : Reactor) (fd rd : ℕ) (wt err : Option ℕ)
      → IsFresh r
      → suc r.iter < 65535
      → Returns (Given r fd) (new_event malloc r fd (some rd) wt err)
  unfolding new_event
  new_event-Given r fd rd wt err fresh h =
      let (a, eq, v) = Returns-eq_ok (rb_init-IsValid malloc allocated 16384 (omega arith)) in
      let inside : leb 65535 (suc r.iter) ≡ false = ground arith in
      rw (get_event-fresh r fresh h, eq, inside) (returns (given a v))
    where
      given :
          (a : RingBuffer)
          → IsValid a × (contents a ≡ []) × (16384 ≤ a.size) × (a.size ≤ 32768)
          → Given r fd (
            suc r.iter,
            put_event
                (suc r.iter)
                (record {
                  fd = fd;
                  inward = a;
                  outward = a;
                  read_fn = some rd;
                  write_fn = wt;
                  error_fn = err;
                })
                (record r { iter = suc r.iter }),
          )
      given a v =
          let e : Event = record {
            fd = fd;
            inward = a;
            outward = a;
            read_fn = some rd;
            write_fn = wt;
            error_fn = err;
          } in
          let r' : Reactor = record r { iter = suc r.iter } in
          let same = put_event_same (suc r.iter) e r' in
          record {
            slot = refl;
            iter = refl;
            event_fd = ap (λ x. x.fd) same;
            inward = rw same (v.0, v.1);
            outward = rw same (v.0, v.1);
            others = λ i h. put_event_other (suc r.iter) i e r' h;
            fresh = record {
              unused = λ i h.
                  ap (λ x. x.fd) (put_event_other (suc r.iter) i e r' (omega arith))
                  ∙ fresh.unused i (omega arith);
            };
          }

  after_del :
      (r : Reactor) (fd : ℕ) (out : ℕ × Reactor)
      → Given r fd out
      → (e : Event) (log : List Action) → IsFresh (record (put_event out.0 e out.1) { log = log })
  after_del r fd out g e log = record {
    unused = λ i h.
        put_event_other out.0 i e out.1 (omega (arith, g.slot, g.iter)) ∙p g.fresh.unused i h;
  }
    where
      infixr 5 ◌∙p◌
      ◌∙p◌ : {a b : Event} {n : ℕ} → a ≡ b → b.fd ≡ n → a.fd ≡ n
      p ∙p q = ap (λ x. x.fd) p ∙ q

  -- From a reactor in which no slot behind `iter` is in use, with fewer than 65535 slots counted so
  -- far, if `malloc` succeeds: so many connections one after the other that the count reaches 65535
  -- end in a fault, though each was given back before the next came.
  pub turnover-fault :
      (fds : List ℕ) (r : Reactor)
      → IsFresh r
      → r.iter < 65535
      → 65535 ≤ r.iter + length fds
      → turnover malloc fds r ≡ fault
  unfolding turnover
  turnover-fault [] r fresh h long = absurd (omega arith)
  turnover-fault (fd ∷ fds) r fresh h long = elim (dec_lt (suc r.iter) 65535) [
    | no last ↦
        let full : new_event malloc r fd (some 0) none none ≡ fault =
          new_event-full r fd (omega arith) in
        rw full
    | yes more ↦
        let (a, eq, g) = Returns-eq_ok (new_event-Given r fd 0 none none fresh more) in
        rw eq (
          turnover-fault fds _ (after_del r fd a g _ _) (omega (arith, g.iter))
            (omega (arith, g.iter)))
  ]
    where
      new_event-full :
          (r : Reactor) (fd : ℕ)
          → suc r.iter ≡ 65535
          → new_event malloc r fd (some 0) none none ≡ fault
      new_event-full r fd e = rw (get_event-full r e)
