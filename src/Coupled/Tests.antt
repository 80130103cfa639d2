-- ===== src/Coupled/Tests.antt =====
-- An application with a ring of two records, watched by the core allocator on a machine of four cores.
use heartbeats.Base.{refl, List, [], ◌∷◌, arith, ℤ, pos, inl}
use heartbeats.Double.{whole}
use heartbeats.Heartbeat.Fixture.{ready, ready-IsLogging}
use heartbeats.Adapt.{HeartData, first_pace}
use heartbeats.CoreAllocator.{Cores, speed_up, slow_down}
use heartbeats.CoreAllocator.Bounds.{IsWithin, speed_up-IsSafe, slow_down-IsSafe}
use heartbeats.Coupled.{Event, beat, poll, Coupled, run}
use heartbeats.Coupled.Runs.{IsCoupled, GoesOn, run-GoesOn}

abbrev block : List (HeartData ℤ)
block =
    record { tag = pos 0; rate = pos 0 }
    ∷ record { tag = pos 0; rate = pos 0 }
    ∷ record { tag = pos 0; rate = pos 0 }
    ∷ []

abbrev opening : Coupled ℤ Cores
opening = record {
  application = ready;
  pace = first_pace 1 block;
  knob = record { nprocs = 1; commands = [] };
}

abbrev events : List Event
events =
    poll
    ∷ beat (pos 7) (pos 1000)
    ∷ poll
    ∷ beat (pos 8) (pos 2000)
    ∷ beat (pos 9) (pos 4000)
    ∷ poll
    ∷ poll
    ∷ []

opening-IsCoupled : IsCoupled (IsWithin 4) 3 [] opening
opening-IsCoupled = record {
  blocks = [];
  logging = ready-IsLogging;
  latest = inl refl;
  at = 0;
  reached = inl refl;
  paced = record { here = refl; before = refl; few = omega arith; room = refl };
  sound = record { few = omega arith; below = tt };
}

run-GoesOn_example :
    GoesOn
      (IsWithin 4)
      (speed_up 4)
      slow_down
      (speed_up-IsSafe 4)
      (slow_down-IsSafe 4)
      1
      3
      []
      3
      (run (speed_up 4) slow_down 1 (pos 3) events opening)
run-GoesOn_example =
    run-GoesOn (IsWithin 4) (speed_up 4) slow_down (speed_up-IsSafe 4) (slow_down-IsSafe 4) 1 3
      events [] opening opening-IsCoupled (omega arith, (omega arith, (omega arith, tt)))
      (omega arith)
