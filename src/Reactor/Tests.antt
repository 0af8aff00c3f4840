-- ===== src/Reactor/Tests.antt =====
-- Slots given out by a reactor at concrete states.
use middleware_development_d.Prelude.{
  ℕ, ◌≡◌, refl, none, some, [], ◌∷◌, arith, length-replicate, replicate, fault, Returns, returns,
  Run, ok, pos, ◌++◌, ◌==◌, if◌then◌else◌,
}
use middleware_development_d.Event.{call_error}
use middleware_development_d.Timer.{Timers}
use middleware_development_d.Reactor.{Reactor, World, blank, new_event, eventloop_once}
use middleware_development_d.Reactor.Rounds.{KeepsCalls, eventloop_once-owed}
use middleware_development_d.Reactor.Slots.{
  IsFresh, Given, new_event-Given, turnover, turnover-fault,
}

abbrev reactor_at : ℕ → Reactor
reactor_at n = record { epfd = 4; listenfd = 3; stop = 0; iter = n; events = λ _. blank; log = [] }

reactor_at-IsFresh : (n : ℕ) → IsFresh (reactor_at n)
reactor_at-IsFresh n = record { unused = λ i h. refl }

new_event-Given_example :
    Returns
      (Given (reactor_at 41) 9)
      (new_event (λ n. replicate n 0) (reactor_at 41) 9 (some 10) (some 11) none)
new_event-Given_example =
    new_event-Given (λ n. replicate n 0) (λ n. length-replicate n 0) (reactor_at 41) 9 10 (some 11)
      none (reactor_at-IsFresh 41) (omega arith)

turnover-fault_example : turnover (λ n. replicate n 0) (7 ∷ 7 ∷ 7 ∷ []) (reactor_at 65532) ≡ fault
turnover-fault_example =
    turnover-fault (λ n. replicate n 0) (λ n. length-replicate n 0) (7 ∷ 7 ∷ 7 ∷ [])
      (reactor_at 65532) (reactor_at-IsFresh 65532) (omega arith) (omega arith)

-- A connection in slot 5, and callbacks that write their names and sides to the log.
abbrev quiet_timers : Timers
quiet_timers = record {
  tree = record { root = 9; sentinel = 9; cells = λ _. none };
  entries = λ _. record { handler = none; privdata = 0 };
}

abbrev one_event : World
one_event = record {
  reactor = record (reactor_at 5) {
    events = λ i.
        if i == 5 then record blank { fd = 7; read_fn = some 10; write_fn = some 11 } else blank;
  };
  timers = quiet_timers;
  waits = [];
}

abbrev noting : ℕ → ℕ → ℕ → ℕ → World → Run World
noting f fd side slot w =
    ok (record w { reactor = record w.reactor { log = w.reactor.log ++ call_error f side ∷ [] } })

-- A hang-up is reported: both are called.
eventloop_once-owed_example :
    Returns
      (λ w'.
        KeepsCalls ((5, 16) ∷ []) one_event w'
        × (w'.reactor.log ≡ call_error 10 1 ∷ call_error 11 4 ∷ []))
      (eventloop_once noting (λ _ _ w. ok w) (pos 0) ((5, 16) ∷ []) one_event)
eventloop_once-owed_example =
    eventloop_once-owed (λ w. w.reactor.log) (λ f fd side slot l. l ++ call_error f side ∷ [])
      noting (λ _ _ w. ok w) ((5, 16) ∷ []) (pos 0) one_event
      (λ f fd side slot w. returns (λ i h. (refl, refl, refl), refl)) (λ t v. refl)
