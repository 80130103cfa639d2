-- ===== src/MonitorFile.antt =====
-- src/heart_rate_monitor-file.c: a monitor that reads the file of src/heartbeat-file.c.
--
-- `file` is what the pointer of that name can be used for: `none` before it is opened and after it has
-- been closed. Seeking back by `n` records from the end of the file succeeds where there are `n`
-- records: its head is shorter than a record. `n` is not negative.
pub mod Reads
mod Tests
use heartbeats.Base.{
  ℕ, ◌-◌, Option, none, some, List, [], ◌∷◌, leb, ◌==◌, if◌then◌else◌, ◌>>=◌, get_elem?, length,
  drop,
}
use heartbeats.Heartbeat.{HeartbeatRecord, GlobalState, write_block}
use heartbeats.HeartbeatFile.{BinaryFile}

pub record FileMonitor (D : Type 0) : Type 0 where
  pub state : GlobalState D
  pub log : List (HeartbeatRecord D)
  pub file : Option (BinaryFile D)

module _ {D : Type 0} where
  -- The arguments are the blocks that `malloc` returns, with any contents.
  pub heart_rate_monitor_init :
      GlobalState D → List (HeartbeatRecord D) → FileMonitor D → FileMonitor D × ℕ
  heart_rate_monitor_init state log hrm = (record hrm { state = state; log = log }, 0)

  -- The records behind the place that `fseek` has gone to.
  abbrev pub last_records : ℕ → BinaryFile D → Option (List (HeartbeatRecord D))
  last_records n file =
      if leb n (length file.records)
      then some (drop (length file.records - n) file.records)
      else none

  -- `opened` is what `fopen` finds. The record that is copied out, if any, and the return code.
  pub hrm_get_current :
      Option (BinaryFile D)
      → FileMonitor D
      → Option (FileMonitor D × Option (HeartbeatRecord D) × ℕ)
  hrm_get_current opened hrm = do
    file ← opened
    let closed = record hrm { file = none }
    elim (last_records 1 file) [
      | none ↦ some (closed, none, 1)
      | some records ↦ get_elem? records 0 >>= λ entry. some (closed, some entry, 0)
    ]

  -- The caller's array and the return code, which is 0 where `fread` has read exactly one record.
  pub hrm_get_history :
      FileMonitor D → List (HeartbeatRecord D) → ℕ → Option (List (HeartbeatRecord D) × ℕ)
  hrm_get_history hrm records n = do
    file ← hrm.file
    elim (last_records n file) [
      | none ↦ some (records, 1)
      | some last ↦
          write_block records 0 last >>= λ records'. some (records', if n == 1 then 0 else 1)
    ]

  pub hrm_get_global_rate : FileMonitor D → Option D
  hrm_get_global_rate hrm = get_elem? hrm.log hrm.state.counter >>= λ r. some r.global_rate

  pub hrm_get_windowed_rate : FileMonitor D → Option D
  hrm_get_windowed_rate hrm = get_elem? hrm.log hrm.state.counter >>= λ r. some r.window_rate

  pub hrm_get_min_rate : FileMonitor D → D
  hrm_get_min_rate hrm = hrm.state.min_heartrate

  pub hrm_get_max_rate : FileMonitor D → D
  hrm_get_max_rate hrm = hrm.state.max_heartrate

  pub hrm_get_window_size : FileMonitor D → ℕ
  hrm_get_window_size hrm = hrm.state.window_size
