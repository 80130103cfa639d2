-- ===== src/Control/Actuators.antt =====
-- The actuators of src/combined.c: their records, and the search for them by kind.
--
-- A pointer to an actuator is its index in `controls`. The two function pointers are given by `id`,
-- as `main` sets them, and `data` by its three uses.
use heartbeats.Base.{
  ℕ, suc, Bool, true, false, ◌&&◌, Option, none, some, List, [], ◌∷◌, if◌then◌else◌, get_elem?, set,
  replicate, ℤ, pos, ltb_ℤ, not,
}
use heartbeats.Heartbeat.{store_int}
use heartbeats.MachineStates.{MachineState}
use heartbeats.Control.Outcome.{Outcome, ok, fault, ◌>>=◌, need}

-- ACTUATOR_CORE_COUNT, ACTUATOR_GLOBAL_FREQ, ACTUATOR_SINGLE_FREQ, ACTUATOR_MACHINE_SPD
pub data Kind : Type 0 where
  core_count global_freq single_freq machine_spd : Kind

-- `freq_scaler_data_t`; `freq_count` is the length of the array.
pub record FreqScalerData : Type 0 where
  pub freq_array : List ℕ
  pub cur_index : ℤ

-- `machine_state_data_t`; `state_count` is the length of `states`.
pub record MachineStateData : Type 0 where
  pub states : List MachineState
  pub core_act : Option ℕ
  pub freq_acts : List (Option ℕ)
  pub scratch_state : MachineState

pub data ActuatorData : Type 0 where
  no_data : ActuatorData
  freq_data : FreqScalerData → ActuatorData
  machine_data : MachineStateData → ActuatorData

-- `actuator_t`
pub record Actuator : Type 0 where
  pub id : Kind
  pub pid : ℤ
  pub core : ℤ
  pub value : ℤ
  pub set_value : ℤ
  pub min : ℤ
  pub max : ℤ
  pub data_of : ActuatorData

-- `act->data` used as frequency data or as machine states.
abbrev pub freq_data_of : Actuator → Option FreqScalerData
freq_data_of act = elim (act.data_of) [ freq_data f ↦ some f | _ ↦ none ]

abbrev pub machine_data_of : Actuator → Option MachineStateData
machine_data_of act = elim (act.data_of) [ machine_data m ↦ some m | _ ↦ none ]

-- Which results a caller of `get_actuators` wants: those with a pointer that is not null.
pub record Wanted : Type 0 where
  pub core : Bool
  pub global : Bool
  pub singles : Option ℤ
  pub speed : Bool

-- What it has found; `freq_acts` has 16 cells, as the arrays of the callers.
pub record Found : Type 0 where
  pub core_act : Option ℕ
  pub global_act : Option ℕ
  pub freq_acts : List (Option ℕ)
  pub speed_act : Option ℕ

abbrev pub nothing_found : Found
nothing_found = record {
  core_act = none;
  global_act = none;
  freq_acts = replicate 16 none;
  speed_act = none;
}

abbrev pub is_core : Kind → Bool
is_core core_count = true
is_core _ = false

abbrev pub is_global : Kind → Bool
is_global global_freq = true
is_global _ = false

abbrev pub is_single : Kind → Bool
is_single single_freq = true
is_single _ = false

abbrev pub is_machine : Kind → Bool
is_machine machine_spd = true
is_machine _ = false

-- The bound that the caller gave for single cores, and the test against it.
abbrev pub wants_single : Option ℤ → ℤ → Bool
wants_single none core = false
wants_single (some bound) core = not (ltb_ℤ bound core)

-- One round of the loop, at the actuator of index `i`.
unfoldable pub look_at : Wanted → ℕ → Actuator → Found → Outcome Found
look_at wanted i act found =
    if is_core act.id && wanted.core
    then ok (record found { core_act = some i })
    else if is_global act.id && wanted.global
    then ok (record found { global_act = some i })
    else if is_single act.id && wants_single wanted.singles act.core
    then (need (store_int found.freq_acts act.core (some i)) >>= λ cells.
        ok (record found { freq_acts = cells }))
    else if is_machine act.id && wanted.speed
    then ok (record found { speed_act = some i })
    else ok found

unfoldable pub look_from : Wanted → ℕ → List Actuator → Found → Outcome Found
look_from wanted i [] found = ok found
look_from wanted i (act ∷ acts) found = look_at wanted i act found >>= look_from wanted (suc i) acts

unfoldable pub get_actuators : Wanted → List Actuator → Outcome Found
unfolding look_at look_from
get_actuators wanted controls = look_from wanted 0 controls nothing_found

abbrev pub the_core : Wanted
the_core = record { core = true; global = false; singles = none; speed = false }

abbrev pub the_global : Wanted
the_global = record { core = false; global = true; singles = none; speed = false }

abbrev pub the_speed : Wanted
the_speed = record { core = false; global = false; singles = none; speed = true }

abbrev pub core_and_singles : Wanted
core_and_singles = record { core = true; global = false; singles = some (pos 16); speed = false }

-- The actuator behind a pointer, and a write through it.
abbrev pub actuator_at : List Actuator → Option ℕ → Outcome Actuator
actuator_at controls none = fault
actuator_at controls (some i) = need (get_elem? controls i)

abbrev pub update_at : List Actuator → Option ℕ → Actuator → List Actuator
update_at controls none act = controls
update_at controls (some i) act = set controls i act
