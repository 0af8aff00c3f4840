-- ===== src/SyncClient/Tests.antt =====
-- Runs of the synchronous client.
use middleware_development_d.Prelude.{
  ℕ, ◌≡◌, refl, none, some, Option, [], ◌∷◌, arith, ◌==◌, if◌then◌else◌, ℤ, pos, ok, fault,
}
use middleware_development_d.SyncClient.{Clock, connected, current_tick, counter, used, main}
use middleware_development_d.SyncClient.Commands.{main-counters, main-missing}

abbrev early : Clock
early = record { sec = 5; nsec = 2000000 }

abbrev late : Clock
late = record { sec = 6; nsec = 1000000 }

abbrev two_replies : ℕ → Option ℤ
two_replies i = if i == 0 then some (pos 8) else (if i == 1 then some (pos 9) else none)

early_tick : current_tick 5 2000000 ≡ ok 5002
unfolding current_tick
early_tick = refl

late_tick : current_tick 6 1000000 ≡ ok 6001
unfolding current_tick
late_tick = refl

main-counters_example :
    main connected (some (pos 2)) early late two_replies
    ≡ ok (
      0,
      record {
        lines = counter (pos 8) ∷ counter (pos 9) ∷ used (pos 2) (pos 999) ∷ [];
        freed_replies = 2;
        freed_contexts = 1;
      },
    )
main-counters_example =
    main-counters two_replies (some (pos 2)) early late (pos 8 ∷ pos 9 ∷ []) 5002 6001 refl
      (refl, (refl, tt)) early_tick late_tick

missing_run : main connected none early late two_replies ≡ fault
missing_run = main-missing two_replies none early late 2 5002 (omega arith) refl early_tick
