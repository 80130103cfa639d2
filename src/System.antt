-- ===== src/System.antt =====
-- src/system.c: a program that waits for one application and keeps a record of each new tag, until the
-- tags have come to a bound.
--
-- Readings are those of Adapt: `none` where `hrm_get_current` does not return 0.
pub mod Start
pub mod Tags
mod Tests
use heartbeats.Base.{
  ℕ, suc, ◌+◌, Bool, true, false, Option, none, some, List, [], ◌∷◌, ◌==◌, if◌then◌else◌, ◌>>=◌,
  store, get_elem?, ℤ, pos, negsuc, ◌-ℤ◌, ltb_ℤ, eqb_ℤ,
}
use heartbeats.Heartbeat.{HeartbeatRecord}
use heartbeats.Adapt.{HeartData, Reading}

-- The variables of `main` that the loop uses. Where a reading is due, `current_tag` is `last_tag`.
pub record Watch (D : Type 0) : Type 0 where
  pub last_tag : ℤ
  pub i : ℕ
  pub records : List (HeartData D)

module _ {D : Type 0} where
  -- What one reading does, under the tests of the loops.
  pub next : ℕ → Reading D → Watch D → Option (Watch D)
  next max none w = some w
  next max (some r) w =
      if ltb_ℤ w.last_tag (pos max -ℤ pos 1)
      then (if eqb_ℤ r.tag w.last_tag
          then some w
          else (store w.records w.i (record { tag = r.tag; rate = r.window_rate }) >>= λ records.
              some (record { last_tag = r.tag; i = w.i + 1; records = records })))
      else some w

  pub watch : ℕ → List (Reading D) → Watch D → Option (Watch D)
  unfolding next
  watch max [] w = some w
  watch max (reading ∷ readings) w = next max reading w >>= watch max readings
