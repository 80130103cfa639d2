-- ===== src/Latency/Tests.antt =====
-- Runs of an exchange of one round, and each theorem at an input.
use heartbeats.Base.{
  ℕ, zero, suc, ◌≤◌, ◌≡◌, refl, Bool, true, false, some, List, [], ◌∷◌, arith, pos, replicate, ◌-ℤ◌,
}
use heartbeats.Latency.{AppPoint, SysPoint, Exchange, begin, app, sys, step, run}
use heartbeats.Latency.Stages.{opening, view}
use heartbeats.Latency.Schedules.{AreFair, joined, along, run-along, exchange_ends}

abbrev over : Exchange
over = record {
  app = AppPoint.finished;
  sys = SysPoint.finished;
  app_tag = some (pos 1);
  sys_tag = some (pos 0);
}

-- Nine turns that each go to `sys` first.
one_round : run 1 (joined (replicate 9 (false ∷ true ∷ []))) begin ≡ over
unfolding run step app sys begin ◌-ℤ◌
one_round = refl

run-along_example :
    (moved : ℕ) × (moved ≤ 3)
    × (run 2 (true ∷ true ∷ false ∷ []) begin ≡ view 2 (along 2 moved opening))
run-along_example = run-along 2 (true ∷ true ∷ false ∷ [])

abbrev rounds : List (List Bool)
rounds = replicate 8 (false ∷ true ∷ false ∷ [])

fair : (n : ℕ) → AreFair (replicate n (false ∷ true ∷ false ∷ []))
fair zero = tt
fair (suc n) = (refl, refl, fair n)

exchange_ends_example : run 1 (joined rounds) begin ≡ over
exchange_ends_example = exchange_ends 1 rounds (fair 8) (omega arith)
