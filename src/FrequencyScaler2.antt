-- ===== src/FrequencyScaler2.antt =====
-- src/frequencyscaler2.c: a process that scales the frequency of one core at a time.
--
-- `cpufreq_set_frequency` is kept as its arguments, the core and the frequency. What the kernel
-- reports of a core's frequency, after the calls made, is an argument, `frequency_of`.
-- `current_counter > max_freq` is tested as it stands.
pub mod Bounds
pub mod Begin
mod Tests
use heartbeats.Base.{
  ℕ, suc, ◌+◌, ◌-◌, Bool, true, false, ◌&&◌, Option, none, some, List, [], ◌∷◌, ◌++◌, if◌then◌else◌,
  ltb, ◌==◌, ◌>>=◌, get_elem?, ℤ,
}
use heartbeats.Double.{Double}
use heartbeats.Monitor.{HeartRateMonitor, hrm_get_window_size}
use heartbeats.FrequencyTable.{get_available_freqs_size, store_available_freqs, get_init_frequency}
use heartbeats.Adapt
use heartbeats.Adapt.{HeartData, Pace, Reading, first_pace}
use heartbeats.Adapt.Start.{Started, exited, ready, then_start, attach}

abbrev pub Setting : Type 0
Setting = ℕ × ℕ

pub record Scaler : Type 0 where
  pub current_counter : ℕ
  pub current_core : ℕ
  pub u_next : Bool
  pub go_next : Bool
  pub settings : List Setting

module _ (frequency_of : List Setting → ℕ → ℕ) (available_freqs : List ℕ) where
  -- `available_freqs[current_counter]`, set on the core that is current.
  abbrev pub set_frequency : Scaler → Option Scaler
  set_frequency scaler = do
    freq ← get_elem? available_freqs scaler.current_counter
    some (record scaler { settings = scaler.settings ++ ((scaler.current_core, freq) ∷ []) })

  -- The branch that goes on to the next core.
  abbrev pub next_core : Scaler → Option Scaler
  next_core scaler = do
    let core = scaler.current_core + 1
    counter ← get_init_frequency available_freqs (frequency_of scaler.settings core)
    let moved : Scaler = record scaler {
      u_next = false;
      go_next = false;
      current_core = core;
      current_counter = counter;
    }
    if ltb 0 counter
        then set_frequency (record moved { current_counter = counter - 1 })
        else some moved

  -- The branch of the loop for a rate below the target. `cores` is the constant CORES.
  pub speed_up : ℕ → Scaler → Option Scaler
  speed_up cores scaler =
      let scaler' = record scaler { go_next = if scaler.u_next then true else scaler.go_next } in
      if ltb 0 scaler'.current_counter
      then (do
        let counter = scaler'.current_counter - 1
        set ← set_frequency (record scaler' { current_counter = counter })
        some (record set { u_next = if counter == 0 then true else set.u_next }))
      else if scaler'.go_next && ltb scaler'.current_core cores
      then next_core scaler'
      else some scaler'

  -- The branch that goes back to the core before.
  abbrev pub previous_core : ℕ → Scaler → Option Scaler
  previous_core max_freq scaler = do
    let core = scaler.current_core - 1
    counter ← get_init_frequency available_freqs (frequency_of scaler.settings core)
    let moved : Scaler = record scaler { current_core = core; current_counter = counter }
    if ltb counter (max_freq - 1)
        then set_frequency (record moved { current_counter = counter + 1 })
        else some moved

  -- The branch for a rate above the target.
  pub slow_down : ℕ → Scaler → Option Scaler
  slow_down max_freq scaler =
      if ltb scaler.current_counter (max_freq - 1)
      then set_frequency (record scaler { current_counter = scaler.current_counter + 1 })
      else if ltb max_freq scaler.current_counter && ltb 0 scaler.current_core
      then previous_core max_freq scaler
      else some scaler

  -- The loop of `main`.
  pub main_loop :
      {D : Type 0} ⦃d : Double D⦄
      → ℕ
      → ℕ
      → ℕ
      → D
      → D
      → ℤ
      → List (Reading D)
      → Pace D × Scaler
      → Option (Pace D × Scaler)
  main_loop cores max_freq window_size lo hi =
      Adapt.main_loop (speed_up cores) (slow_down max_freq) window_size lo hi

-- `main` up to its loop, for CORES, the processors that `get_cpus` finds and the list of libcpufreq
-- (empty for a null pointer). `block` and `freq_block` are what `malloc` returns. The array is part of
-- the result. Setting the policy and reading the hardware's limits change nothing here.
pub start :
    {D : Type 0}
    → (List Setting → ℕ → ℕ)
    → ℕ
    → ℕ
    → List ℕ
    → List ℕ
    → Bool
    → List (List ℤ)
    → (ℤ → HeartRateMonitor D × ℕ)
    → List (HeartData D)
    → Option (Started (List ℕ × Pace D × Scaler))
start frequency_of cores ncpus freqs freq_block enabled_dir listings init block =
    if ltb ncpus cores
    then some (exited 2)
    else if get_available_freqs_size freqs == 0
    then some (exited 2)
    else (do
      available_freqs ← store_available_freqs freqs freq_block (get_available_freqs_size freqs)
      counter ← get_init_frequency available_freqs (frequency_of [] 0)
      then_start (attach enabled_dir listings init) (λ (app, heart). do
        window_size ← hrm_get_window_size heart
        let scaler : Scaler = record {
          current_counter = counter;
          current_core = 0;
          u_next = false;
          go_next = false;
          settings = [];
        }
        some (ready (available_freqs, first_pace window_size block, scaler))))
