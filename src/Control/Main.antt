-- ===== src/Control/Main.antt =====
-- `main` of src/combined.c: from the environment and the application that it finds, over the
-- initialisation of the actuators, to the loop.
--
-- `exit 1` is also the return of 1 at the label `fail`.
pub mod Initialised
mod Tests
use Prim.Native.String.{String}
use heartbeats.Base.{
  ℕ, zero, suc, ◌-◌, Bool, true, false, Option, none, some, List, [], ◌∷◌, ◌==◌, if◌then◌else◌,
  length, get_elem?, ℤ, pos, negsuc, eqb_ℤ,
}
use heartbeats.Double.{Double}
use heartbeats.Heartbeat.{HeartbeatRecord}
use heartbeats.Monitor.{HeartRateMonitor, hrm_get_window_size}
use heartbeats.MachineStates.{MachineState}
use heartbeats.Control.Outcome.{Outcome, ok, exit, ◌>>=◌, need}
use heartbeats.Control.Actuators.{
  Kind, FreqScalerData, Actuator, core_count, global_freq, single_freq, machine_spd, update_at,
}
use heartbeats.Control.Speed.Init.{machine_speed_init}
use heartbeats.Control.Start.{
  FreqAnswers, get_core_count, core_init, single_freq_init, global_freq_init, main_controls,
}
use heartbeats.Control.Options.{Opt, Options, read_options, max_beats_of, decide}
use heartbeats.Control.Apps.{wait_for_app}
use heartbeats.Control.Loop.{Platform, Service, rounds}

-- What the system answers to the initialisation: the lines of /proc/cpuinfo that name a processor,
-- what `taskset -p` printed, cpufreq for each core, `qsort`, and the memory of `malloc`.
pub record Machine : Type 0 where
  pub processors : Option ℕ
  pub affinity : Option ℕ
  pub cpufreq : ℤ → FreqAnswers
  pub qsort : List MachineState → List MachineState
  pub freq_block : FreqScalerData
  pub scratch : MachineState

-- What `main` has when it comes to its loop: the application and its monitor, the window size and
-- the table.
pub record Ready (D : Type 0) : Type 0 where
  pub app : ℤ
  pub hrm : HeartRateMonitor D
  pub window_size : ℕ
  pub controls : List Actuator

module _ (machine : Machine) where
  -- The entry of index `i` after its initialisation, with the code.
  abbrev stored : List Actuator → ℕ → Actuator × ℤ → Outcome (List Actuator × ℤ)
  stored controls i (act, err) = ok (update_at controls (some i) act, err)

  -- `controls[i].init_f(&controls[i])`
  pub init_at : ℕ → ℕ → List Actuator → Outcome (List Actuator × ℤ)
  init_at cores i controls = need (get_elem? controls i) >>= λ act. elim act.id [
    | core_count ↦ stored controls i (core_init machine.affinity cores act)
    | single_freq ↦
        stored controls i (single_freq_init (machine.cpufreq act.core) machine.freq_block act)
    | global_freq ↦
        stored controls i (global_freq_init (machine.cpufreq (pos 0)) machine.freq_block act)
    | machine_spd ↦ machine_speed_init machine.qsort machine.scratch cores (some i) controls
  ]

  -- `fail_if(err, ...)`
  abbrev unless_failed : List Actuator × ℤ → Outcome (List Actuator)
  unless_failed (controls, err) = if eqb_ℤ err (pos 0) then ok controls else exit 1

  -- The loop from the actuator `i`, with `n` left.
  pub init_from : ℕ → ℕ → ℕ → List Actuator → Outcome (List Actuator)
  unfolding init_at
  init_from cores zero i controls = ok controls
  init_from cores (suc n) i controls =
      init_at cores i controls >>= λ out. unless_failed out >>= init_from cores n (suc i)

  -- All the others, and the machine speed actuator last.
  pub init_controls : ℕ → List Actuator → Outcome (List Actuator)
  unfolding init_from
  init_controls cores controls = init_from cores (length controls - 1) 1 controls >>= λ others.
      init_at cores 0 others >>= unless_failed

  module _ {D : Type 0} (attach : ℤ → HeartRateMonitor D × ℕ) where
    -- From the one application that is there. The arguments are the array and its count.
    pub begin : List ℤ × ℤ → Outcome (Ready D)
    unfolding init_controls
    begin (apps, n_apps) =
        if eqb_ℤ n_apps (pos 1)
        then (do
          app ← need (get_elem? apps 0)
          let cores = get_core_count machine.processors
          controls ← init_controls cores (main_controls cores app)
          let (hrm, err) = attach app
          if err == 0
              then (do
                window_size ← need (hrm_get_window_size hrm)
                ok (record {
                  app = app;
                  hrm = hrm;
                  window_size = window_size;
                  controls = controls;
                }))
              else exit 1)
        else exit 1

    -- `main` up to the loop. It may still be waiting for an application, `none`.
    pub set_up :
        (String → ℤ × Bool)
        → Bool
        → List (Option (List String))
        → List ℤ
        → Outcome (Option (Ready D))
    unfolding begin
    set_up strtol enabled_dir listings apps =
        if enabled_dir
        then (wait_for_app strtol listings apps >>= λ found. elim found [
          | none ↦ ok none
          | some listed ↦ begin listed >>= λ ready. ok (some ready)
        ])
        else exit 1

module _ {D W : Type 0} ⦃d : Double D⦄ (os : Platform W) (machine : Machine) where
  open d use {of_int}

  -- The loop behind the set-up, over the polls, up to `max_beats`.
  pub serve : Options D → ℕ → List (Bool × HeartbeatRecord D) → W → Ready D → Outcome (Service W D)
  serve options max_beats polls world ready =
      rounds os (decide options ready.hrm) (get_core_count machine.processors) ready.window_size
        max_beats polls
        (record {
          world = world;
          memory = of_int (pos 0);
          controls = ready.controls;
          last_beat = pos 0;
          skip_until_beat = pos ready.window_size;
        })
