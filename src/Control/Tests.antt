-- ===== src/Control/Tests.antt =====
-- Each theorem about the decisions at a table of three actuators.
use heartbeats.Base.{
  suc, ◌≤◌, ◌<◌, get_elem?, ◌≡◌, refl, true, false, some, ℕ, List, [], ◌∷◌, arith, set, ℤ, pos,
  negsuc, ◌+ℤ◌, ◌-ℤ◌,
}
use heartbeats.Double.{whole}
use heartbeats.Heartbeat.{HeartbeatRecord, GlobalState}
use heartbeats.Heartbeat.Fixture.{blank, stale}
use heartbeats.Monitor.{HeartRateMonitor}
use heartbeats.Control.Outcome.{ok, fault}
use heartbeats.Control.Actuators.{
  Actuator, Found, core_count, global_freq, machine_spd, no_data, freq_data, nothing_found,
  get_actuators, core_and_singles, the_core, the_global, the_speed,
}
use heartbeats.Control.Heuristics.{
  core_decision, freq_decision, move_to, core_heuristics, freq_heuristics,
}
use heartbeats.Control.Heuristics.Laws.{
  StepsCore, StepsFreq, core_heuristics-StepsCore, freq_heuristics-StepsFreq, scaler_at,
}
use heartbeats.Control.Controllers.{
  target_error, band_error, core_p_controller, machine_state_p_controller,
  machine_state_pseudo_pi_controller, machine_state_histeresis_p_controller,
  machine_state_histeresis_pseudo_pi_controller,
}
use heartbeats.Control.Controllers.Laws.{
  SetsOnly, SetsOnlyWith, core_p_controller-SetsOnly, speed_controllers-SetsOnly,
}
use heartbeats.Control.Start.{get_freq_index, main_controls}
use heartbeats.Control.Start.Controls.{get_actuators-main_controls}
use heartbeats.Control.Start.Index.{IsIndex, get_freq_index-IsIndex}

-- The application wants 20 to 40 beats.
abbrev wants : GlobalState ℤ
wants = record stale { pid = pos 4; min_heartrate = pos 20; max_heartrate = pos 40 }

abbrev hrm : HeartRateMonitor ℤ
hrm = record { state = some wants; log = [] }

abbrev slow_beat : HeartbeatRecord ℤ
slow_beat = record blank { window_rate = pos 10 }

abbrev fast_beat : HeartbeatRecord ℤ
fast_beat = record blank { window_rate = pos 50 }

-- One core of four is on.
abbrev one_core : Actuator
one_core = record {
  id = core_count;
  pid = pos 4;
  core = negsuc 0;
  value = pos 1;
  set_value = pos 1;
  min = pos 1;
  max = pos 4;
  data_of = no_data;
}

abbrev freqs : List ℕ
freqs = 3000 ∷ 2000 ∷ 1000 ∷ []

-- All cores at 2000, between two other frequencies.
abbrev middle : Actuator
middle = record one_core {
  id = global_freq;
  value = pos 2000;
  set_value = pos 2000;
  min = pos 1000;
  max = pos 3000;
  data_of = freq_data (scaler_at freqs 1);
}

-- A machine whose speed goes from 5 to 90.
abbrev machine : Actuator
machine = record one_core {
  id = machine_spd;
  value = pos 40;
  set_value = pos 40;
  min = pos 5;
  max = pos 90;
}

abbrev table : List Actuator
table = one_core ∷ middle ∷ machine ∷ []

abbrev has_core : Found
has_core = record nothing_found { core_act = some 0 }

abbrev has_global : Found
has_global = record nothing_found { global_act = some 1 }

abbrev has_speed : Found
has_speed = record nothing_found { speed_act = some 2 }

looks_core : get_actuators the_core table ≡ ok has_core
unfolding get_actuators
looks_core = refl

looks_global : get_actuators the_global table ≡ ok has_global
unfolding get_actuators
looks_global = refl

looks_speed : get_actuators the_speed table ≡ ok has_speed
unfolding get_actuators
looks_speed = refl

core_heuristics-StepsCore_example :
    (act' : Actuator) × (core_heuristics hrm slow_beat table ≡ ok (set table 0 act'))
    × StepsCore true false one_core act'
unfolding whole
core_heuristics-StepsCore_example =
    core_heuristics-StepsCore hrm wants refl slow_beat table has_core 0 one_core refl looks_core
      refl (record { done = refl; low = omega arith; high = omega arith })

freq_heuristics-StepsFreq_example :
    (act' : Actuator) × (freq_heuristics hrm fast_beat table ≡ ok (set table 1 act'))
    × StepsFreq middle act' freqs 1 2
unfolding whole
freq_heuristics-StepsFreq_example =
    freq_heuristics-StepsFreq hrm wants refl fast_beat table has_global 1 middle refl freqs 1
      looks_global refl refl (omega arith)

-- A request for the last core has failed, so `value` has stayed behind: the next one asks for a core
-- more than there are.
asks_past_max :
    (core_decision true false (record one_core { value = pos 3; set_value = pos 4 })).set_value
    ≡ pos 5
unfolding core_decision ◌+ℤ◌
asks_past_max = refl

-- From a frequency that is not in the table, a rate that is too high leads to the highest frequency.
speeds_up :
    freq_decision false true middle (record { freq_array = freqs; cur_index = negsuc 0 })
    ≡ ok (record middle { set_value = pos 3000; data_of = freq_data (scaler_at freqs 0) })
unfolding freq_decision move_to ◌+ℤ◌ ◌-ℤ◌
speeds_up = refl

core_p_controller-SetsOnly_example :
    SetsOnly table 0 one_core (core_p_controller hrm slow_beat (pos 2) table)
core_p_controller-SetsOnly_example =
    core_p_controller-SetsOnly hrm wants refl slow_beat table has_core 0 one_core refl (omega arith)
      (pos 2) looks_core refl

speed_controllers-SetsOnly_example :
    SetsOnly table 2 machine (machine_state_p_controller hrm slow_beat (pos 2) table)
    × SetsOnlyWith table 2 machine
        (pos 20)
        (machine_state_pseudo_pi_controller hrm slow_beat (pos 2) (pos 1) (pos 3) table)
    × SetsOnly table 2 machine (machine_state_histeresis_p_controller hrm slow_beat (pos 2) table)
    × SetsOnlyWith table 2 machine
        (pos 10)
        (machine_state_histeresis_pseudo_pi_controller hrm slow_beat (pos 2) (pos 1) (pos 3) table)
unfolding target_error band_error ◌+ℤ◌ ◌-ℤ◌ whole
speed_controllers-SetsOnly_example =
    speed_controllers-SetsOnly hrm wants refl slow_beat table has_speed 2 machine refl (omega arith)
      (pos 2) (pos 1) (pos 3) looks_speed refl

middle_frequency : IsIndex 0 freqs 2000 (get_freq_index freqs 2000)
middle_frequency = get_freq_index-IsIndex freqs 2000

get_actuators-main_controls_example :
    (4 ≤ 16
      → (found : Found) × (get_actuators core_and_singles (main_controls 4 (pos 7)) ≡ ok found)
        × (found.core_act ≡ some 6)
        × ((i : ℕ) → i < 4 → get_elem? found.freq_acts i ≡ some (some (suc i))))
    × (16 < 4 → get_actuators core_and_singles (main_controls 4 (pos 7)) ≡ fault)
get_actuators-main_controls_example = get_actuators-main_controls 4 (pos 7)
