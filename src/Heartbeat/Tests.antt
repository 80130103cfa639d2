-- ===== src/Heartbeat/Tests.antt =====
-- Runs over whole numbers in place of `double`, and each theorem at an input.
use heartbeats.Base.{
  ℤ, ◌≡◌, refl, true, some, List, [], ◌∷◌, arith, length, pos, ◌>>=◌, int_of_u64, ◌+ℤ◌, ◌-ℤ◌,
}
use heartbeats.Double.{whole}
use heartbeats.Heartbeat.{
  heartbeat_init, heartbeat, hb_get_history, hb_get_current, first_beat, later_beat,
  hb_window_average, rate_of, Heartbeat, HeartbeatRecord, wrap_indices, later_record,
}
use heartbeats.Heartbeat.Invariant.{IsLogging}
use heartbeats.Heartbeat.Beat.{HasLogged, heartbeat-HasLogged}
use heartbeats.Heartbeat.Session.{
  run_beats, HasRun, run_beats-HasRun, init_code, heartbeat_init-code, heartbeat_init-IsLogging,
  Call, IsRoomy,
}
use heartbeats.Heartbeat.Stores.{heartbeat_stores}
use heartbeats.Heartbeat.Stores.Fields.{last}
use heartbeats.Heartbeat.Stores.Result.{heartbeat_stores-heartbeat}
use heartbeats.Heartbeat.Window.{contents, average_with, hb_window_average_lem}
use heartbeats.Heartbeat.Fixture.{
  blank, unset, answers, ready, ready-IsLogging, full, full_ring, full-IsLogging,
}
use heartbeats.Heartbeat.History.{hb_get_history_lem}

program : Unit {0}
unfolding heartbeat first_beat later_beat hb_window_average wrap_indices later_record
program = tt

init_runs : heartbeat_init unset answers (pos 10) (pos 20) 1 2 true ≡ some (ready, 0)
unfolding heartbeat_init
init_runs = refl

abbrev calls : List Call
calls = (pos 7, pos 1000) ∷ (pos 8, pos 2000) ∷ (pos 9, pos 4000) ∷ []

-- Three beats in a ring of two: the first two have been printed.
three_beats : (run_beats ready calls >>= λ hb. hb_get_current hb >>= λ r. some r.beat) ≡ some 2
unfolding run_beats program hb_get_current ◌-ℤ◌ ◌+ℤ◌ int_of_u64
three_beats = refl

two_printed : (run_beats ready calls >>= λ hb. hb.text_file >>= λ text. some (length text)) ≡ some 2
unfolding run_beats program ◌-ℤ◌ ◌+ℤ◌ int_of_u64
two_printed = refl

roomy : IsRoomy answers 1 2
roomy = record { log_room = λ block e. ground arith; window_room = refl }

heartbeat_init-IsLogging_example : IsLogging [] [] ready
heartbeat_init-IsLogging_example =
    heartbeat_init-IsLogging unset answers (pos 10) (pos 20) 1 2 true ready roomy (omega arith)
      (omega arith) (omega arith) init_runs

init_code_ready :
    (heartbeat_init unset answers (pos 10) (pos 20) 1 2 true >>= λ out. some out.1)
    ≡ init_code unset answers (pos 10) (pos 20) 1 2 true
init_code_ready = heartbeat_init-code unset answers (pos 10) (pos 20) 1 2 true

heartbeat-HasLogged_example : HasLogged [] (pos 7) (pos 1000) (heartbeat ready (pos 7) (pos 1000))
heartbeat-HasLogged_example =
    heartbeat-HasLogged [] [] ready ready-IsLogging (pos 7) (pos 1000) (omega arith)

run_beats-HasRun_example : HasRun [] calls (run_beats ready calls)
run_beats-HasRun_example = run_beats-HasRun calls [] [] ready ready-IsLogging (omega arith)

-- One record has been logged, and is copied to the front of an array of two.
abbrev other : HeartbeatRecord ℤ
other = record blank { beat = 5 }

-- The ring is full, and nothing is copied.
history_of_full : hb_get_history full (other ∷ []) 2 ≡ some (other ∷ [], 2)
history_of_full = hb_get_history_lem full_ring full_ring full full-IsLogging (other ∷ []) 2

stores_of_full :
    (heartbeat_stores full (pos 3) (pos 12) >>= λ states. some (last full states, pos 12))
    ≡ heartbeat full (pos 3) (pos 12)
stores_of_full = heartbeat_stores-heartbeat full (pos 3) (pos 12)

-- A window of two intervals, of which one has come.
abbrev half_full : Heartbeat ℤ
half_full = record ready {
  window = pos 5 ∷ pos 0 ∷ [];
  current_index = 1;
  state = record ready.state { window_size = 2 };
}

hb_window_average_lem_example :
    (hb' : Heartbeat ℤ) × (hb_window_average half_full (pos 9)
      ≡ some (hb', rate_of hb'.last_average_time))
    × (contents hb' ≡ pos 5 ∷ pos 9 ∷ [])
    × (hb'.last_average_time ≡ average_with half_full (pos 9))
hb_window_average_lem_example =
    hb_window_average_lem half_full (pos 5 ∷ []) (pos 9) refl (omega arith) refl
