-- ===== src/Monitor.antt =====
-- src/heart_rate_monitor-shared.c and inc/heart_rate_monitor.h: another process attaches the two
-- shared segments of an application and reads its heartbeats. A pointer that could not be set is
-- `none`, or the empty block for the ring.
pub mod Between
pub mod Reads
mod Tests
use heartbeats.Base.{
  ℕ, ◌+◌, ◌*◌, Bool, true, false, Option, none, some, List, [], ltb, if◌then◌else◌, ◌>>=◌,
  get_elem?,
}
use heartbeats.Heartbeat.{HeartbeatRecord, GlobalState, Heartbeat, read_block, write_block}

-- `heart_rate_monitor_t`
pub record HeartRateMonitor (D : Type 0) : Type 0 where
  pub state : Option (GlobalState D)
  pub log : List (HeartbeatRecord D)

module _ {D : Type 0} where
  -- The arguments are what `shmat` returns for the state and, at the depth read there, for the ring.
  pub heart_rate_monitor_init :
      Option (GlobalState D)
      → (ℕ → Option (List (HeartbeatRecord D)))
      → HeartRateMonitor D
      → HeartRateMonitor D × ℕ
  heart_rate_monitor_init none attach_log hrm = (record hrm { state = none }, 1)
  heart_rate_monitor_init (some state) attach_log hrm = elim (attach_log state.buffer_depth) [
    | none ↦ (record { state = some state; log = [] }, 2)
    | some log ↦ (record { state = some state; log = log }, 0)
  ]

  -- The record that is copied out, if any, and the return code.
  pub hrm_get_current : HeartRateMonitor D → Option (Option (HeartbeatRecord D) × ℕ)
  hrm_get_current hrm = do
    state ← hrm.state
    if state.valid
        then (get_elem? hrm.log state.read_index >>= λ r. some (some r, 0))
        else some (none, 1)

  pub hrm_get_history :
      HeartRateMonitor D → List (HeartbeatRecord D) → ℕ → Option (List (HeartbeatRecord D) × ℕ)
  hrm_get_history hrm records n = do
    state ← hrm.state
    let bi = state.buffer_index
    let depth = state.buffer_depth
    if ltb bi state.counter
        then (do
          old ← read_block hrm.log bi (bi * depth)
          records' ← write_block records 0 old
          new ← read_block hrm.log 0 bi
          records'' ← write_block records' (bi * depth) new
          some (records'', depth))
        else (do
          all ← read_block hrm.log 0 bi
          records' ← write_block records 0 all
          some (records', bi))

  pub hrm_get_global_rate : HeartRateMonitor D → Option D
  hrm_get_global_rate hrm = do
    state ← hrm.state
    r ← get_elem? hrm.log state.counter
    some r.global_rate

  pub hrm_get_windowed_rate : HeartRateMonitor D → Option D
  hrm_get_windowed_rate hrm = do
    state ← hrm.state
    r ← get_elem? hrm.log state.counter
    some r.window_rate

  unfoldable pub hrm_get_min_rate : HeartRateMonitor D → Option D
  hrm_get_min_rate hrm = hrm.state >>= λ state. some state.min_heartrate

  unfoldable pub hrm_get_max_rate : HeartRateMonitor D → Option D
  hrm_get_max_rate hrm = hrm.state >>= λ state. some state.max_heartrate

  unfoldable pub hrm_get_window_size : HeartRateMonitor D → Option ℕ
  hrm_get_window_size hrm = hrm.state >>= λ state. some state.window_size
