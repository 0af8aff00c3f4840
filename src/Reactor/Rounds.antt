-- ===== src/Reactor/Rounds.antt =====
-- `eventloop_once`: the callbacks of a round, in the order in which `epoll_wait` reports the events.
use middleware_development_d.Prelude.{
  ℕ, ◌≡◌, refl, sym, ap, ◌∙◌, inl, inr, Bool, Bool-cases, true, false, ◌||◌, bit_or, ◌⊎◌, Option,
  none, some, List, [], ◌∷◌, ◌++◌, if◌then◌else◌, ℤ, Run, ok, Returns, returns, Returns-weaken,
  Returns-bind,
}
use middleware_development_d.Rbtree.Store.{Ptr}
use middleware_development_d.Event.{Event, epollin, epollout, has_flag}
use middleware_development_d.Prelude.Flags.{bit_and_one, bit_and_four, bit_or_five}
use middleware_development_d.Reactor.{
  World, epollerr, epollhup, raised, notify, dispatch, eventloop_once,
}

-- A slot is among those reported.
abbrev pub Reported : ℕ → List (ℕ × ℕ) → Type 0
Reported slot [] = ⊥
Reported slot (r ∷ fire) = (slot ≡ r.0) ⊎ Reported slot fire

-- The descriptor and the two callbacks of an event are those of another.
abbrev pub SameCalls : Event → Event → Type 0
SameCalls e e' = (e'.fd ≡ e.fd) × (e'.read_fn ≡ e.read_fn) × (e'.write_fn ≡ e.write_fn)

-- A side is ready when it is reported, and after an error or a hang-up.
abbrev pub ready : ℕ → ℕ → Bool
ready side reported =
    has_flag reported side || (has_flag reported epollerr || has_flag reported epollhup)

or_third : (x y : Bool) → (x || (y || true)) ≡ true
or_third true y = refl
or_third false true = refl
or_third false false = refl

or_second : (x : Bool) → (x || true) ≡ true
or_second true = refl
or_second false = refl

or_none : (x : Bool) → (x || false) ≡ x
or_none true = refl
or_none false = refl

raised-ready :
    (side : ℕ)
    → ((mask : ℕ) → has_flag (bit_or mask 5) side ≡ true)
    → (reported : ℕ) → has_flag (raised reported) side ≡ ready side reported
raised-ready side set reported = elim (Bool-cases (has_flag reported epollhup)) [
  | inl hup ↦ rw hup (set _ ∙ sym (or_third (has_flag reported side) (has_flag reported epollerr)))
  | inr up ↦ elim (Bool-cases (has_flag reported epollerr)) [
    | inl err ↦ rw (up, err) (set reported ∙ sym (or_second (has_flag reported side)))
    | inr fine ↦ rw (up, fine) (sym (or_none (has_flag reported side)))
  ]
]

five_in : (mask : ℕ) → has_flag (bit_or mask 5) epollin ≡ true
five_in mask = rw (bit_and_one (bit_or mask 5), (bit_or_five mask).0) refl

five_out : (mask : ℕ) → has_flag (bit_or mask 5) epollout ≡ true
five_out mask = rw (bit_and_four (bit_or mask 5), (bit_or_five mask).1) refl

-- What the callbacks do, seen by a record of their calls: name, descriptor, side and slot.
module _ {L : Type 0} (push : ℕ → ℕ → ℕ → ℕ → L → L) where
  abbrev pub named : Option ℕ → ℕ → ℕ → ℕ → L → L
  named none fd side slot l = l
  named (some f) fd side slot l = push f fd side slot l

  abbrev pub told : ℕ → ℕ → Option ℕ → ℕ → ℕ → L → L
  told reported side o fd slot l = if ready side reported then named o fd side slot l else l

  -- The calls that a round owes: for each report the one for reading, then the one for writing.
  abbrev pub owed : (ℕ → Event) → List (ℕ × ℕ) → L → L
  owed events [] l = l
  owed events ((slot, reported) ∷ fire) l =
      let e = events slot in
      owed events fire
        (told reported epollout e.write_fn e.fd slot (told reported epollin e.read_fn e.fd slot l))

owed-kept :
    {L : Type 0} (push : ℕ → ℕ → ℕ → ℕ → L → L) (events events' : ℕ → Event) (fire : List (ℕ × ℕ))
    (l : L)
    → ((i : ℕ) → Reported i fire → SameCalls (events i) (events' i))
    → owed push events' fire l ≡ owed push events fire l
owed-kept push events events' [] l kept = refl
owed-kept push events events' ((slot, reported) ∷ fire) l kept =
    let (fd, rd, wt) = kept slot (inl refl) in
    rw (fd, rd, wt) (owed-kept push events events' fire _ λ i h. kept i (inr h))

-- A reactor's events keep their callbacks, for the slots reported.
abbrev pub KeepsCalls : List (ℕ × ℕ) → World → World → Type 0
KeepsCalls all w w' =
    (i : ℕ) → Reported i all → SameCalls (w.reactor.events i) (w'.reactor.events i)

SameCalls-trans : (a b c : Event) → SameCalls a b → SameCalls b c → SameCalls a c
SameCalls-trans a b c (fd, rd, wt) (fd', rd', wt') = (fd' ∙ fd, rd' ∙ rd, wt' ∙ wt)

module _ {L : Type 0} (calls : World → L) (push : ℕ → ℕ → ℕ → ℕ → L → L)
    (run : ℕ → ℕ → ℕ → ℕ → World → Run World) (on_timer : ℕ → Ptr → World → Run World)
    (all : List (ℕ × ℕ)) where
  -- A callback returns, records its call, and leaves the callbacks of the events that are reported.
  abbrev pub Calls : Type 0
  Calls =
      (f fd side slot : ℕ) (w : World)
      → Returns (λ w'. KeepsCalls all w w' × (calls w' ≡ push f fd side slot (calls w)))
          (run f fd side slot w)

  notify-told :
      Calls
      → (reported mask side : ℕ) → has_flag mask side ≡ ready side reported
      → (fn : Event → Option ℕ) (slot : ℕ) (w : World)
      → Returns
          (λ w'.
            KeepsCalls all w w'
            × (calls w'
                ≡ told push reported side
                    (fn (w.reactor.events slot))
                    (w.reactor.events slot).fd
                    slot
                    (calls w)))
          (notify run on_timer mask side fn slot w)
  notify-told once reported mask side same fn slot w = elim (Bool-cases (ready side reported)) [
    | inl on ↦ rw (same, on) (by_name (fn (w.reactor.events slot)))
    | inr off ↦ rw (same, off) (returns (λ i h. (refl, refl, refl), refl))
  ]
    where
      by_name :
          (o : Option ℕ)
          → Returns
              (λ w'.
                KeepsCalls all w w'
                × (calls w' ≡ named push o (w.reactor.events slot).fd side slot (calls w)))
              (elim o [ none ↦ ok w | some f ↦ run f (w.reactor.events slot).fd side slot w ])
      by_name none = returns (λ i h. (refl, refl, refl), refl)
      by_name (some f) = once f (w.reactor.events slot).fd side slot w

  dispatch-owed :
      Calls
      → (fire : List (ℕ × ℕ)) (w : World) → ((i : ℕ) → Reported i fire → Reported i all)
      → Returns
          (λ w'. KeepsCalls all w w' × (calls w' ≡ owed push w.reactor.events fire (calls w)))
          (dispatch run on_timer fire w)
  unfolding dispatch
  dispatch-owed once [] w inside = returns (λ i h. (refl, refl, refl), refl)
  dispatch-owed once ((slot, reported) ∷ fire) w inside =
      Returns-bind
        (notify-told once reported (raised reported) epollin (raised-ready epollin five_in reported)
          (λ e. e.read_fn) slot w)
        λ w₁ (kept₁, told₁).
          Returns-bind
            (notify-told once reported (raised reported) epollout
              (raised-ready epollout five_out reported) (λ e. e.write_fn) slot w₁)
            λ w₂ (kept₂, told₂).
              Returns-weaken (dispatch-owed once fire w₂ λ i h. inside i (inr h))
                λ w' (kept, called).
                  let same : (i : ℕ)
                      → Reported i all
                      → SameCalls (w.reactor.events i) (w₂.reactor.events i) =
                    λ i h.
                      SameCalls-trans (w.reactor.events i) (w₁.reactor.events i)
                        (w₂.reactor.events i) (kept₁ i h) (kept₂ i h) in
                  let (fd, rd, wt) = kept₁ slot (inside slot (inl refl)) in
                  (
                    λ i h.
                        SameCalls-trans (w.reactor.events i) (w₂.reactor.events i)
                          (w'.reactor.events i) (same i h) (kept i h),
                    called
                        ∙ owed-kept push w.reactor.events w₂.reactor.events fire (calls w₂)
                            (λ i h. same i (inside i (inr h)))
                        ∙ ap (owed push w.reactor.events fire) (told₂ ∙ (rw (fd, wt, told₁) refl)),
                  )

  -- For a record of the callbacks' calls that the timeouts are no part of: let every callback return, add its
  -- call to the record, and leave the descriptor and the callbacks of the events that are reported in this
  -- round as they were. Then `eventloop_once` returns, those events are as they were, and what was called is
  -- what they name, in the order of the reports: for reading where that was reported or an error or a
  -- hang-up, then for writing likewise, each at most once for a report.
  pub eventloop_once-owed :
      (timeout : ℤ) (w : World)
      → Calls
      → ((t : List ℤ) (v : World) → calls (record v { waits = t }) ≡ calls v)
      → Returns
          (λ w'. KeepsCalls all w w' × (calls w' ≡ owed push w.reactor.events all (calls w)))
          (eventloop_once run on_timer timeout all w)
  unfolding eventloop_once
  eventloop_once-owed timeout w once quiet =
      Returns-weaken
        (dispatch-owed once all (record w { waits = w.waits ++ timeout ∷ [] }) λ i h. h)
        λ w' (kept, called).
          (kept, called ∙ ap (owed push w.reactor.events all) (quiet (w.waits ++ timeout ∷ []) w))
