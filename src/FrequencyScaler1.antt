-- ===== src/FrequencyScaler1.antt =====
-- src/frequencyscaler1.c: a process that scales the frequency of all the cores of an application.
--
-- `cpufreq_set_frequency` is kept as its arguments, the core and the frequency; `cores` is the constant
-- CORES. The frequency that the kernel reports is only printed, except at the start.
pub mod Edge
mod Tests
use heartbeats.Base.{
  ℕ, zero, suc, ◌+◌, ◌-◌, ◌%◌, ◌/◌, ◌^◌, Bool, true, Option, none, some, List, [], ◌∷◌, ◌++◌,
  if◌then◌else◌, ltb, leb, ◌>>=◌, get_elem?, ℤ, pos, negsuc,
}
use heartbeats.Double.{Double}
use heartbeats.Monitor.{HeartRateMonitor, hrm_get_window_size}
use heartbeats.FrequencyTable.{get_available_freqs_size, store_available_freqs, get_init_frequency}
use heartbeats.Adapt
use heartbeats.Adapt.{HeartData, Pace, Reading, first_pace}
use heartbeats.Adapt.Start.{Started, exited, ready, then_start, attach}

pub record Scaler : Type 0 where
  pub current_counter : ℕ
  pub settings : List (ℕ × ℕ)

-- The last `else` has no statement but the `return`: above 1000 the function ends without a value.
pub get_speed : ℕ → Option ℕ
get_speed speed =
    if ltb 1000000 speed
    then none
    else if ltb 100000 speed
    then none
    else if ltb 1000 speed
    then none
    else some (speed % 2 ^ 32 / 1000)

-- The loop of `set_policy` from `cpu`, for `n` further processors. `policies` has the policy of a
-- processor, if there is one, and whether its governor is another pointer than the literal; the
-- result is the processors whose governor has been modified, and the return code (EINVAL is 22).
pub set_policy_from : (ℕ → Option Bool) → ℕ → ℕ → List ℕ × ℤ
set_policy_from policies cpu zero = ([], pos 0)
set_policy_from policies cpu (suc n) =
    let (rest, ret) = set_policy_from policies (suc cpu) n in
    elim (policies cpu) [
      | none ↦ ([], negsuc 21)
      | some differs ↦ (if differs then cpu ∷ rest else rest, ret)
    ]

pub set_policy : (ℕ → Option Bool) → ℕ → List ℕ × ℤ
unfolding set_policy_from
set_policy policies ncpus = set_policy_from policies 0 ncpus

-- The loops on `cpu <= CORES`: the calls for `n` processors from `cpu`.
abbrev pub set_from : ℕ → ℕ → ℕ → List (ℕ × ℕ)
set_from freq cpu zero = []
set_from freq cpu (suc n) = (cpu, freq) ∷ set_from freq (suc cpu) n

module _ (available_freqs : List ℕ) (cores : ℕ) where
  -- `available_freqs[current_counter]`, set on the processors 0 to CORES.
  abbrev pub set_frequencies : Scaler → Option Scaler
  set_frequencies scaler = do
    freq ← get_elem? available_freqs scaler.current_counter
    some (record scaler { settings = scaler.settings ++ set_from freq 0 (suc cores) })

  -- The branch of the loop for a rate below the target.
  pub speed_up : Scaler → Option Scaler
  speed_up scaler =
      if ltb 0 scaler.current_counter
      then set_frequencies (record scaler { current_counter = scaler.current_counter - 1 })
      else some scaler

  -- The branch for a rate above the target. `current` is the number of frequencies.
  pub slow_down : ℕ → Scaler → Option Scaler
  slow_down current scaler =
      if ltb scaler.current_counter current
      then set_frequencies (record scaler { current_counter = scaler.current_counter + 1 })
      else some scaler

  -- The loop of `main`.
  pub main_loop :
      {D : Type 0} ⦃d : Double D⦄
      → ℕ
      → ℕ
      → D
      → D
      → ℤ
      → List (Reading D)
      → Pace D × Scaler
      → Option (Pace D × Scaler)
  main_loop current window_size lo hi =
      Adapt.main_loop speed_up (slow_down current) window_size lo hi

-- `main` up to its loop, for CORES, the processors that `get_cpus` finds, the list of libcpufreq, and
-- the frequency that the kernel reports. `block` and `freq_block` are what `malloc` returns. The array
-- is part of the result. Setting the policy and reading the hardware's limits change nothing here.
pub start :
    {D : Type 0}
    → ℕ
    → ℕ
    → ℕ
    → List ℕ
    → List ℕ
    → Bool
    → List (List ℤ)
    → (ℤ → HeartRateMonitor D × ℕ)
    → List (HeartData D)
    → Option (Started (List ℕ × Pace D × Scaler))
start frequency cores ncpus freqs freq_block enabled_dir listings init block =
    if ltb ncpus cores then some (exited 2) else (do
      available_freqs ← store_available_freqs freqs freq_block (get_available_freqs_size freqs)
      counter ← get_init_frequency available_freqs frequency
      then_start (attach enabled_dir listings init) (λ (app, heart). do
        window_size ← hrm_get_window_size heart
        let scaler : Scaler = record { current_counter = counter; settings = [] }
        some (ready (available_freqs, first_pace window_size block, scaler))))
