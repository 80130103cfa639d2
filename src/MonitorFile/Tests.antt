-- ===== src/MonitorFile/Tests.antt =====
-- Each theorem at an input, over whole numbers in place of `double`.
use heartbeats.Base.{◌≡◌, refl, true, none, some, [], ◌∷◌, arith, ℤ, pos}
use heartbeats.Double.{whole}
use heartbeats.Heartbeat.{HeartbeatRecord}
use heartbeats.Heartbeat.Fixture.{blank, stale}
use heartbeats.HeartbeatFile.{FileHeartbeat, heartbeat}
use heartbeats.HeartbeatFile.Fixture.{empty_file, filing, filing-IsFiling}
use heartbeats.MonitorFile.{FileMonitor, hrm_get_current, hrm_get_history}
use heartbeats.MonitorFile.Reads.{hrm_get_current-newest, hrm_get_history_after}

abbrev monitor : FileMonitor ℤ
monitor = record { state = stale; log = []; file = none }

hrm_get_current-newest_example :
    (next : FileHeartbeat ℤ) × (entry : HeartbeatRecord ℤ) × (heartbeat filing
        (pos 7)
        (pos 1000)
        true
      ≡ some (next, pos 1000))
    × (hrm_get_current (some next.file) monitor
        ≡ some (record monitor { file = none }, some entry, 0))
    × (entry.beat ≡ 0)
    × (entry.tag ≡ pos 7)
    × (entry.timestamp ≡ pos 1000)
hrm_get_current-newest_example =
    hrm_get_current-newest [] filing filing-IsFiling (pos 7) (pos 1000) (omega arith) monitor

empty_read : hrm_get_current (some empty_file) monitor ≡ some (monitor, none, 1)
unfolding hrm_get_current
empty_read = refl

closed_file : hrm_get_history monitor (blank ∷ []) 1 ≡ none
closed_file =
    hrm_get_history_after (some empty_file) monitor monitor none 1 (blank ∷ []) 1 empty_read
