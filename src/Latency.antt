-- ===== src/Latency.antt =====
-- src/lat.c: two processes that answer each other's heartbeats, to measure the time of an exchange.
--
-- Each of them reads the tag of the other's last record, which is what `hrm_get_current` gives after
-- `heartbeat` (Monitor.Reads), and `none` before the first heartbeat. A step of a process is one
-- heartbeat, or one poll with the test of its loop. A schedule chooses who takes the next step. The
-- search for the other process before the exchange, and the clock, are left out.
pub mod Stages
pub mod Schedules
mod Tests
use heartbeats.Base.{
  ℕ, zero, suc, ◌-◌, Bool, true, false, Option, none, some, List, [], ◌∷◌, if◌then◌else◌, ltb, ℤ,
  pos, negsuc, ◌-ℤ◌, eqb_ℤ,
}

-- Where `app` stands: before its greeting, in the loop that waits for the tag -1, before the
-- heartbeat of round `i`, in the loop of round `i`, or behind its loop.
pub data AppPoint : Type 0 where
  greet : AppPoint
  await_ready : AppPoint
  beat : ℕ → AppPoint
  await : ℕ → AppPoint
  finished : AppPoint

-- Where `sys` stands: in the loop that waits for the tag -2, before its answer to that, in the loop
-- of round `i`, before the heartbeat of round `i`, or behind its loop.
pub data SysPoint : Type 0 where
  await_greeting : SysPoint
  answer_greeting : SysPoint
  await : ℕ → SysPoint
  beat : ℕ → SysPoint
  finished : SysPoint

pub record Exchange : Type 0 where
  pub app : AppPoint
  pub sys : SysPoint
  pub app_tag : Option ℤ
  pub sys_tag : Option ℤ

-- The tests of the waiting loops, on the tag that was read.
abbrev pub reads : Option ℤ → ℤ → Bool
reads none wanted = false
reads (some tag) wanted = eqb_ℤ tag wanted

-- The test of the loop of `app`, at `i`.
abbrev pub app_turn : ℕ → AppPoint
app_turn i = if ltb 0 i then beat i else finished

-- The test of the loop of `sys`, at `i`.
abbrev pub sys_turn : ℕ → ℕ → SysPoint
sys_turn iters i = if ltb i iters then await i else finished

pub begin : Exchange
begin = record { app = greet; sys = await_greeting; app_tag = none; sys_tag = none }

module _ (iters : ℕ) where
  -- One step of `app`.
  pub app : Exchange → Exchange
  app s = elim s.app [
    | greet ↦ record s { app = await_ready; app_tag = some (negsuc 1) }
    | await_ready ↦ if reads s.sys_tag (negsuc 0) then record s { app = app_turn iters } else s
    | beat i ↦ record s { app = await i; app_tag = some (pos i) }
    | await i ↦
        if reads s.sys_tag (pos iters -ℤ pos i) then record s { app = app_turn (i - 1) } else s
    | finished ↦ s
  ]

  -- One step of `sys`.
  pub sys : Exchange → Exchange
  sys s = elim s.sys [
    | await_greeting ↦ if reads s.app_tag (negsuc 1) then record s { sys = answer_greeting } else s
    | answer_greeting ↦ record s { sys = sys_turn iters 0; sys_tag = some (negsuc 0) }
    | await i ↦ if reads s.app_tag (pos iters -ℤ pos i) then record s { sys = beat i } else s
    | beat i ↦ record s { sys = sys_turn iters (suc i); sys_tag = some (pos i) }
    | finished ↦ s
  ]

  -- `true` stands for a step of `app`.
  unfoldable pub step : Bool → Exchange → Exchange
  step true s = app s
  step false s = sys s

  unfoldable pub run : List Bool → Exchange → Exchange
  run [] s = s
  run (who ∷ schedule) s = run schedule (step who s)
