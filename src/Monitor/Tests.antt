-- ===== src/Monitor/Tests.antt =====
-- Each theorem about the monitor at an input.
use heartbeats.Base.{List, ◌∷◌, ◌++◌, map, replicate, ◌≡◌, refl, none, some, [], arith, ℤ, pos}
use heartbeats.Double.{whole}
use heartbeats.Heartbeat.{HeartbeatRecord, Heartbeat, heartbeat}
use heartbeats.Heartbeat.Fixture.{blank, ready, ready-IsLogging, full, full_ring, full-IsLogging}
use heartbeats.Monitor.{hrm_get_current, hrm_get_global_rate, hrm_get_windowed_rate}
use heartbeats.Heartbeat.Stores.{heartbeat_stores}
use heartbeats.Monitor.Between.{read, hrm_get_current-heartbeat_stores}
use heartbeats.Monitor.Reads.{monitor_of, no_beat_yet, hrm_get_current-heartbeat, hrm_rates_fault}

reads_last :
    hrm_get_current (monitor_of full)
    ≡ some (some (record blank { beat = 1; timestamp = pos 9 }), 0)
unfolding hrm_get_current
reads_last = refl

ready_no_beat : hrm_get_current (monitor_of ready) ≡ some (none, 1)
ready_no_beat = no_beat_yet [] ready ready-IsLogging

hrm_get_current-heartbeat_example :
    (next : Heartbeat ℤ) × (entry : HeartbeatRecord ℤ) × (heartbeat full (pos 3) (pos 12)
      ≡ some (next, pos 12))
    × (hrm_get_current (monitor_of next) ≡ some (some entry, 0))
    × (entry.beat ≡ 2)
    × (entry.tag ≡ pos 3)
    × (entry.timestamp ≡ pos 12)
hrm_get_current-heartbeat_example =
    hrm_get_current-heartbeat full_ring full_ring full (pos 3) (pos 12) full-IsLogging (omega arith)

hrm_rates_fault_example :
    (hrm_get_global_rate (monitor_of full) ≡ none)
    × (hrm_get_windowed_rate (monitor_of full) ≡ none)
hrm_rates_fault_example = hrm_rates_fault full_ring full_ring full full-IsLogging (omega arith)

-- The ring of two is full, so the index to read passes through 2.
hrm_get_current-heartbeat_stores_example :
    (states : List (Heartbeat ℤ)) × (entry : HeartbeatRecord ℤ) × (heartbeat_stores full
        (pos 3)
        (pos 12)
      ≡ some states)
    × (map read states ≡ replicate 8 (read full) ++ (none ∷ none ∷ some (some entry, 0) ∷ []))
    × (entry.beat ≡ 2)
    × (entry.tag ≡ pos 3)
    × (entry.timestamp ≡ pos 12)
hrm_get_current-heartbeat_stores_example =
    hrm_get_current-heartbeat_stores full_ring full_ring full full-IsLogging (pos 3) (pos 12)
