-- ===== src/Control/Loop.antt =====
-- The loop of `main` in src/combined.c, and the functions that carry out the requests.
--
-- The operating system is a parameter: its state `W`, and what the service calls of it. A decision
-- function may keep a memory `E` between its calls.
pub mod Rounds
mod Tests
use heartbeats.Base.{
  ℕ, zero, suc, ◌-◌, Bool, true, false, not, ◌||◌, Option, none, some, List, [], ◌∷◌, if◌then◌else◌,
  ltb, length, get_elem?, ℤ, pos, negsuc, ◌+ℤ◌, ◌-ℤ◌, ltb_ℤ, eqb_ℤ,
}
use heartbeats.Double.{Double}
use heartbeats.Heartbeat.{HeartbeatRecord}
use heartbeats.Control.Outcome.{Outcome, ok, exit, fault, ◌>>=◌, need}
use heartbeats.Control.Actuators.{
  Kind, Actuator, MachineStateData, core_count, global_freq, single_freq, machine_spd, no_data,
  machine_data, machine_data_of, actuator_at, update_at,
}
use heartbeats.Control.Speed.{machine_speed_act, int64_of_u64}
use heartbeats.Control.Speed.Init.{get_current_speed}

-- `taskset` run by `system` for the cores from 0 to the first argument and a process,
-- cpufreq_set_frequency for a core, and cpufreq_get_freq_kernel; the first two return an error code.
pub record Platform (W : Type 0) : Type 0 where
  pub taskset : W → ℤ → ℤ → W × ℤ
  pub set_frequency : W → ℤ → ℤ → W × ℤ
  pub freq_kernel : W → ℤ → ℕ

abbrev is_zero : ℤ → Bool
is_zero n = eqb_ℤ n (pos 0)

module _ {W : Type 0} (os : Platform W) where
  -- Each returns the state of the system, the actuator and the error code.
  pub core_act : W → Actuator → W × Actuator × ℤ
  core_act w act =
      let (w', err) = os.taskset w (act.set_value -ℤ pos 1) act.pid in
      (w', if is_zero err then record act { value = act.set_value } else act, err)

  pub single_freq_act : W → Actuator → W × Actuator × ℤ
  single_freq_act w act =
      let (w', err) = os.set_frequency w act.core act.set_value in
      (w', record act { value = int64_of_u64 (os.freq_kernel w' act.core) }, err)

  -- The loop over the cores from `cpu`, with `n` left: no call follows one that has failed.
  pub set_all : ℕ → ℕ → ℤ → W → W × Bool
  set_all zero cpu frequency w = (w, false)
  set_all (suc n) cpu frequency w =
      let (w', err) = os.set_frequency w (pos cpu) frequency in
      elim (is_zero err) [ true ↦ set_all n (suc cpu) frequency w' | false ↦ (w', true) ]

  pub global_freq_act : ℕ → W → Actuator → W × Actuator × ℤ
  unfolding set_all
  global_freq_act cores w act =
      let (w', failed) = set_all cores 0 act.set_value w in
      (
        w',
        record act { value = int64_of_u64 (os.freq_kernel w' (pos 0)) },
        if failed then pos 1 else pos 0,
      )

  -- `act->action_f(act)` for the actuator of index `i`. An error is only printed.
  pub action : ℕ → ℕ → Actuator → W → List Actuator → Outcome (W × List Actuator)
  unfolding core_act single_freq_act global_freq_act
  action cores i act w controls = elim act.id [
    | core_count ↦ let (w', act', err) = core_act w act in ok (w', update_at controls (some i) act')
    | single_freq ↦
        let (w', act', err) = single_freq_act w act in ok (w', update_at controls (some i) act')
    | global_freq ↦
        let (w', act', err) = global_freq_act cores w act in
        ok (w', update_at controls (some i) act')
    | machine_spd ↦ machine_speed_act (some i) controls >>= λ controls'. ok (w, controls')
  ]

  -- The loop over the actuators from `i`, with `n` left. The flag is `acted`.
  pub act_from : ℕ → ℕ → ℕ → Bool → W → List Actuator → Outcome (Bool × W × List Actuator)
  unfolding action
  act_from cores zero i acted w controls = ok (acted, w, controls)
  act_from cores (suc n) i acted w controls = need (get_elem? controls i) >>= λ act.
      elim (eqb_ℤ act.set_value act.value) [
        | true ↦ act_from cores n (suc i) acted w controls
        | false ↦ action cores i act w controls >>= λ out. act_from cores n (suc i) true out.0 out.1
      ]

-- Writes the current speed to the machine speed actuator, where it is not what was asked for.
pub refresh_speed : ℕ → List Actuator → Outcome (List Actuator)
refresh_speed cores controls = do
  act ← need (get_elem? controls 0)
  elim (eqb_ℤ act.value act.set_value) [
    | true ↦ ok controls
    | false ↦ do
      data_of ← need (machine_data_of act)
      current ← get_current_speed cores data_of controls
      ok (
          update_at controls (some 0) (record act {
            value = int64_of_u64 current.speed;
            data_of = machine_data (record data_of { scratch_state = current });
          }))
  ]

-- The condition of the inner loop, which goes on to wait.
abbrev pub waits : {D : Type 0} ⦃d : Double D⦄ → Bool → ℤ → HeartbeatRecord D → Bool
waits ⦃d = d⦄ err last_beat current =
    err || not (ltb_ℤ last_beat (pos current.beat)) || d.eq current.window_rate (d.of_int (pos 0))

-- The variables of `main` and what it steers.
pub record Service (W E : Type 0) : Type 0 where
  pub world : W
  pub memory : E
  pub controls : List Actuator
  pub last_beat : ℤ
  pub skip_until_beat : ℤ

module _ {W E D : Type 0} ⦃d : Double D⦄ (os : Platform W)
    (decide : E → HeartbeatRecord D → List Actuator → Outcome (List Actuator × E)) where
  -- The body of the outer loop, behind the wait for the record `current`.
  pub round : ℕ → ℕ → HeartbeatRecord D → Service W E → Outcome (Service W E)
  unfolding act_from refresh_speed
  round cores window_size current s =
      let seen = record s { last_beat = pos current.beat } in
      elim (ltb_ℤ (pos current.beat) s.skip_until_beat) [
        | true ↦ ok seen
        | false ↦ do
          (decided, memory) ← decide s.memory current s.controls
          (acted, world, done) ← act_from os cores (length decided) 0 false s.world decided
          refreshed ← refresh_speed cores done
          ok (record seen {
            world = world;
            memory = memory;
            controls = refreshed;
            skip_until_beat = pos current.beat +ℤ (if acted then pos window_size else pos 1);
          })
      ]

  -- The outer loop over what `hrm_get_current` returns, poll by poll: whether it failed, and the
  -- record. A poll that the inner loop does not take leaves everything as it is.
  pub rounds : ℕ → ℕ → ℕ → List (Bool × HeartbeatRecord D) → Service W E → Outcome (Service W E)
  unfolding round
  rounds cores window_size max_beats [] s = ok s
  rounds cores window_size max_beats ((err, current) ∷ polls) s =
      elim (waits err s.last_beat current) [
        | true ↦ rounds cores window_size max_beats polls s
        | false ↦ round cores window_size current s >>= λ s'. elim (ltb current.beat max_beats) [
          | true ↦ rounds cores window_size max_beats polls s'
          | false ↦ ok s'
        ]
      ]
