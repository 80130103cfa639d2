-- ===== src/Latency/Stages.antt =====
-- The exchange as one sequence: at each stage one of the processes is stopped in its loop.
use heartbeats.Base.{
  ℕ, zero, suc, ◌+◌, ◌-◌, ◌*◌, ◌≤◌, ◌<◌, ◌≡◌, refl, Bool, true, false, not, none, some, arith,
  if◌then◌else◌, ◌==◌, ℤ, pos, negsuc, ◌-ℤ◌,
}
use heartbeats.Latency.{AppPoint, SysPoint, Exchange, sys_turn, begin, app, sys, step}

-- `turn k` comes before the heartbeat of `app` in round `k + 1`, `asked` after it, `seen` after `sys` has
-- read it, and `answered` after the heartbeat of `sys`.
pub data Stage : Type 0 where
  opening : Stage
  greeted : Stage
  answering : Stage
  ready : Stage
  turn : ℕ → Stage
  asked : ℕ → Stage
  seen : ℕ → Stage
  answered : ℕ → Stage
  ended : Stage

abbrev pub turn_or_end : ℕ → Stage
turn_or_end zero = ended
turn_or_end (suc k) = turn k

module _ (iters : ℕ) where
  abbrev pub following : Stage → Stage
  following opening = greeted
  following greeted = answering
  following answering = ready
  following ready = turn_or_end iters
  following (turn k) = asked k
  following (asked k) = seen k
  following (seen k) = answered k
  following (answered k) = turn_or_end k
  following ended = ended

  -- Whose step it is.
  abbrev pub mover : Stage → Bool
  mover opening = true
  mover greeted = false
  mover answering = false
  mover ready = true
  mover (turn k) = true
  mover (asked k) = false
  mover (seen k) = false
  mover (answered k) = true
  mover ended = true

  -- The rounds of a stage are those of the loops.
  abbrev pub IsStage : Stage → Type 0
  IsStage (turn k) = k < iters
  IsStage (asked k) = k < iters
  IsStage (seen k) = k < iters
  IsStage (answered k) = k < iters
  IsStage _ = Unit {0}

  -- The stages to come.
  abbrev pub rank : Stage → ℕ
  rank opening = 4 * iters + 4
  rank greeted = 4 * iters + 3
  rank answering = 4 * iters + 2
  rank ready = 4 * iters + 1
  rank (turn k) = 4 * k + 4
  rank (asked k) = 4 * k + 3
  rank (seen k) = 4 * k + 2
  rank (answered k) = 4 * k + 1
  rank ended = 0

  -- The last tags before round `k + 1`.
  abbrev app_before : ℕ → ℤ
  app_before k = if suc k == iters then negsuc 1 else pos (suc (suc k))

  abbrev sys_before : ℕ → ℤ
  sys_before k = if suc k == iters then negsuc 0 else pos (iters - suc (suc k))

  -- The state of the two processes at a stage.
  unfoldable pub view : Stage → Exchange
  view opening = begin
  view greeted = record {
    app = AppPoint.await_ready;
    sys = SysPoint.await_greeting;
    app_tag = some (negsuc 1);
    sys_tag = none;
  }
  view answering = record {
    app = AppPoint.await_ready;
    sys = SysPoint.answer_greeting;
    app_tag = some (negsuc 1);
    sys_tag = none;
  }
  view ready = record {
    app = AppPoint.await_ready;
    sys = sys_turn iters 0;
    app_tag = some (negsuc 1);
    sys_tag = some (negsuc 0);
  }
  view (turn k) = record {
    app = AppPoint.beat (suc k);
    sys = SysPoint.await (iters - suc k);
    app_tag = some (app_before k);
    sys_tag = some (sys_before k);
  }
  view (asked k) = record {
    app = AppPoint.await (suc k);
    sys = SysPoint.await (iters - suc k);
    app_tag = some (pos (suc k));
    sys_tag = some (sys_before k);
  }
  view (seen k) = record {
    app = AppPoint.await (suc k);
    sys = SysPoint.beat (iters - suc k);
    app_tag = some (pos (suc k));
    sys_tag = some (sys_before k);
  }
  view (answered k) = record {
    app = AppPoint.await (suc k);
    sys = sys_turn iters (iters - k);
    app_tag = some (pos (suc k));
    sys_tag = some (pos (iters - suc k));
  }
  view ended = record {
    app = AppPoint.finished;
    sys = SysPoint.finished;
    app_tag = some (if iters == 0 then negsuc 1 else pos 1);
    sys_tag = some (if iters == 0 then negsuc 0 else pos (iters - 1));
  }

-- The loops are entered, or not.
first_turn : (iters : ℕ) → step iters true (view iters ready) ≡ view iters (turn_or_end iters)
unfolding step app view
first_turn zero = refl
first_turn (suc n) = ground arith

-- A round is over, and the next one begins, or none.
next_turn :
    (iters k : ℕ)
    → k < iters
    → step iters true (view iters (answered k)) ≡ view iters (turn_or_end k)
unfolding step app view ◌-ℤ◌
next_turn iters zero less = ground arith
next_turn iters (suc k) less = ground arith

module _ (iters : ℕ) where
  pub stays :
      (s : Stage) → IsStage iters s → step iters (not (mover iters s)) (view iters s) ≡ view iters s
  unfolding step app sys view begin ◌-ℤ◌
  stays opening valid = refl
  stays greeted valid = refl
  stays answering valid = refl
  stays ready valid = ground arith
  stays (turn k) valid = ground arith
  stays (asked k) valid = ground arith
  stays (seen k) valid = ground arith
  stays (answered k) valid = ground arith
  stays ended valid = refl

  pub moves :
      (s : Stage)
      → IsStage iters s
      → step iters (mover iters s) (view iters s) ≡ view iters (following iters s)
  unfolding step app sys view begin ◌-ℤ◌
  moves opening valid = refl
  moves greeted valid = refl
  moves answering valid = refl
  moves ready valid = first_turn iters
  moves (turn k) valid = refl
  moves (asked k) valid = ground arith
  moves (seen k) valid = ground arith
  moves (answered k) valid = next_turn iters k valid
  moves ended valid = refl

  turn_valid : (k : ℕ) → k ≤ iters → IsStage iters (turn_or_end k)
  turn_valid zero less = tt
  turn_valid (suc k) less = omega arith

  pub IsStage-following : (s : Stage) → IsStage iters s → IsStage iters (following iters s)
  IsStage-following ready valid = turn_valid iters (omega arith)
  IsStage-following (answered k) valid = turn_valid k (omega arith)
  IsStage-following opening valid = tt
  IsStage-following greeted valid = tt
  IsStage-following answering valid = tt
  IsStage-following (turn k) valid = valid
  IsStage-following (asked k) valid = valid
  IsStage-following (seen k) valid = valid
  IsStage-following ended valid = tt

  turn_rank : (k : ℕ) → rank iters (turn_or_end k) ≡ 4 * k
  turn_rank zero = refl
  turn_rank (suc k) = omega arith

  pub rank-following : (s : Stage) → rank iters (following iters s) ≡ rank iters s - 1
  rank-following opening = omega arith
  rank-following greeted = omega arith
  rank-following answering = omega arith
  rank-following ready = omega (arith, turn_rank iters)
  rank-following (turn k) = omega arith
  rank-following (asked k) = omega arith
  rank-following (seen k) = omega arith
  rank-following (answered k) = omega (arith, turn_rank k)
  rank-following ended = refl
