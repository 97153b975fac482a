-- ===== src/Scheduler/Tests.antt =====
-- Asgn2/scheduler.c: the operations on a queue of three threads.
use csc.Prelude.{◌≡◌, refl, false, [], ◌∷◌, arith, ◌==◌, if◌then◌else◌}
use csc.Scheduler.RoundRobin.{Sched, rr_init, rr_admit, rr_remove, rr_next}
use csc.Scheduler.Links.{has, Holds}
use csc.Scheduler.Queue.{rr_remove-Holds}
use csc.Scheduler.Rotation.{turns, rr_next_fair}

-- The queue 8, 16, 24.
abbrev three : Sched
three = record {
  count = 3;
  head = 8;
  tail = 24;
  prev = λ p. if p == 16 then 8 else if p == 24 then 16 else 0;
  next = λ p. if p == 8 then 16 else if p == 16 then 24 else 0;
}

three-Holds : Holds three (8 ∷ 16 ∷ 24 ∷ [])
three-Holds = record {
  counted = refl;
  distinct = (refl, (refl, (refl, tt)));
  linked =
      (refl, omega arith, refl, (refl, omega arith, refl, (refl, omega arith, refl, (refl, refl))));
}

admitted : (rr_next (rr_admit 32 (rr_admit 40 (rr_init three)))).0 ≡ 40
unfolding rr_next rr_admit rr_init
admitted = refl

rr_remove-Holds_example :
    Holds (rr_remove 16 three) (8 ∷ 24 ∷ [])
    × (has 16 (8 ∷ 16 ∷ 24 ∷ []) ≡ false → rr_remove 16 three ≡ three)
rr_remove-Holds_example = rr_remove-Holds three 16 (8 ∷ 16 ∷ 24 ∷ []) three-Holds

rr_next_fair_example :
    ((turns 3 three).0 ≡ 8 ∷ 16 ∷ 24 ∷ []) × Holds (turns 3 three).1 (8 ∷ 16 ∷ 24 ∷ [])
rr_next_fair_example = rr_next_fair three (8 ∷ 16 ∷ 24 ∷ []) three-Holds
