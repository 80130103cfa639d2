-- ===== src/CoreAllocator.antt =====
-- src/core-allocator.c: a process that gives an application more or fewer cores.
--
-- `taskset -pc 0-%d` is kept as its number. The two numbers that `main` does not compute itself,
-- the processors that `get_cpus` finds and the affinity, are arguments.
pub mod Bounds
mod Tests
use heartbeats.Base.{
  ℕ, suc, zero, ◌+◌, ◌-◌, ◌/◌, ◌%◌, Bool, Option, none, some, List, [], ◌∷◌, ◌++◌, if◌then◌else◌,
  ltb, ◌==◌, ◌>>=◌, ℤ, pos, ◌-ℤ◌,
}
use heartbeats.Double.{Double}
use heartbeats.Monitor.{HeartRateMonitor, hrm_get_window_size}
use heartbeats.Adapt.{HeartData, Pace, Reading, first_pace}
use heartbeats.Adapt
use heartbeats.Adapt.Start.{Started, ready, then_start, attach}

pub record Cores : Type 0 where
  pub nprocs : ℕ
  pub commands : List ℤ

-- The loop of `get_current_cores_assigned` on `affinity`, with fuel. The source never sets that
-- variable.
pub count_cores : ℕ → ℕ → ℕ → Option ℕ
count_cores zero affinity result = if affinity == 0 then some result else none
count_cores (suc fuel) affinity result =
    let rest = count_cores fuel (affinity / 2) (result + affinity % 2) in
    if affinity == 0 then some result else rest

-- An `unsigned int` has 32 bits.
pub get_current_cores_assigned : ℕ → Option ℕ
unfolding count_cores
get_current_cores_assigned affinity = count_cores 32 affinity 0

-- The branch of the loop for a rate below the target.
pub speed_up : ℕ → Cores → Option Cores
speed_up ncpus cores =
    if ltb cores.nprocs ncpus
    then some (record {
      nprocs = cores.nprocs + 1;
      commands = cores.commands ++ ((pos (cores.nprocs + 1) -ℤ pos 1) ∷ []);
    })
    else some cores

-- The branch for a rate above the target.
pub slow_down : Cores → Option Cores
slow_down cores =
    if ltb 0 cores.nprocs
    then some (record {
      nprocs = cores.nprocs - 1;
      commands = cores.commands ++ ((pos (cores.nprocs - 1) -ℤ pos 1) ∷ []);
    })
    else some cores

module _ {D : Type 0} where
  -- `main` up to its loop. `block` is what `malloc` returns for the records.
  pub start :
      Bool
      → List (List ℤ)
      → (ℤ → HeartRateMonitor D × ℕ)
      → List (HeartData D)
      → ℕ
      → Option (Started (Pace D × Cores))
  start enabled_dir listings init block affinity =
      then_start (attach enabled_dir listings init) (λ (app, heart). do
        window_size ← hrm_get_window_size heart
        nprocs ← get_current_cores_assigned affinity
        some (ready (first_pace window_size block, record { nprocs = nprocs; commands = [] })))

-- The loop of `main`.
pub main_loop :
    {D : Type 0} ⦃d : Double D⦄
    → ℕ
    → ℕ
    → D
    → D
    → ℤ
    → List (Reading D)
    → Pace D × Cores
    → Option (Pace D × Cores)
main_loop ncpus window_size lo hi = Adapt.main_loop (speed_up ncpus) slow_down window_size lo hi
