-- ===== src/FrequencyScaler2/Bounds.antt =====
-- The scaler stays inside its array, and only goes on to further cores.
use heartbeats.Base.{
  ℕ, ◌+◌, ◌-◌, ◌≤◌, ◌<◌, ◌≡◌, refl, true, false, ◌&&◌, some, List, [], ◌∷◌, ◌++◌, arith, length,
  ltb, ltb→lt, ◌==◌, get_elem?, get_elem?-some, get_elem?_lt, Bool-cases, inl, inr, pos,
  if◌then◌else◌,
}
use heartbeats.Double.{Double}
use heartbeats.FrequencyTable.{get_init_frequency}
use heartbeats.FrequencyTable.Laws.{get_init_frequency_finds}
use heartbeats.Adapt.{Pace, Reading}
use heartbeats.Adapt.Runs.{IsPaced, IsRising, HasRun, IsSafe, main_loop-HasRun}
use heartbeats.FrequencyScaler2.{
  Setting, Scaler, set_frequency, next_core, speed_up, slow_down, main_loop,
}

-- Each setting is of a core up to `cores`, at a frequency that the array has.
abbrev pub AreListed : List ℕ → ℕ → List Setting → Type 0
AreListed available_freqs cores [] = Unit {0}
AreListed available_freqs cores ((core, freq) ∷ settings) =
    (core ≤ cores)
    × ((k : ℕ) × (get_elem? available_freqs k ≡ some freq))
    × AreListed available_freqs cores settings

-- The kernel reports one of the frequencies that it has listed.
abbrev pub IsReported : List ℕ → (List Setting → ℕ → ℕ) → Type 0
IsReported available_freqs frequency_of =
    (settings : List Setting) (core : ℕ)
    → (k : ℕ) × (get_elem? available_freqs k ≡ some (frequency_of settings core))

module _ (available_freqs : List ℕ) (first cores : ℕ) where
  AreListed-append :
      (settings : List Setting) (core freq k : ℕ)
      → AreListed available_freqs cores settings
      → core ≤ cores
      → get_elem? available_freqs k ≡ some freq
      → AreListed available_freqs cores (settings ++ ((core, freq) ∷ []))
  AreListed-append [] core freq k listed few e = (few, (k, e), tt)
  AreListed-append ((c, f) ∷ settings) core freq k (low, there, listed) few e =
      (low, there, AreListed-append settings core freq k listed few e)

  -- The scaler stands inside the array and on a core from `first` to `cores`.
  pub record IsTuned (scaler : Scaler) : Type 0 where
    pub inside : scaler.current_counter < length available_freqs
    pub risen : first ≤ scaler.current_core
    pub few : scaler.current_core ≤ cores
    pub listed : AreListed available_freqs cores scaler.settings

  module _ (frequency_of : List Setting → ℕ → ℕ) where
    set_frequency_lem :
        (scaler : Scaler)
        → IsTuned scaler
        → (scaler' : Scaler) × (set_frequency frequency_of available_freqs scaler ≡ some scaler')
          × IsTuned scaler'
    set_frequency_lem scaler tuned =
        let (freq, e) = get_elem?-some available_freqs scaler.current_counter tuned.inside in
        (
          record scaler { settings = scaler.settings ++ ((scaler.current_core, freq) ∷ []) },
          rw (e) refl,
          record {
            inside = tuned.inside;
            risen = tuned.risen;
            few = tuned.few;
            listed =
                AreListed-append scaler.settings scaler.current_core freq scaler.current_counter
                  tuned.listed tuned.few e;
          },
        )

    module _ (reported : IsReported available_freqs frequency_of) where
      -- The search for the frequency of a core ends inside the array.
      pub init_lem :
          (settings : List Setting) (core : ℕ)
          → (i : ℕ) × (get_init_frequency available_freqs (frequency_of settings core) ≡ some i)
            × (i < length available_freqs)
      init_lem settings core =
          let (k, there) = reported settings core in
          let (i, found, at, up) =
            get_init_frequency_finds available_freqs (frequency_of settings core) k there in
          (i, found, get_elem?_lt available_freqs i (frequency_of settings core) at)

      next_core_lem :
          (scaler : Scaler)
          → IsTuned scaler
          → scaler.current_core < cores
          → (scaler' : Scaler) × (next_core frequency_of available_freqs scaler ≡ some scaler')
            × IsTuned scaler'
      next_core_lem scaler tuned less =
          let (i, found, inside) = init_lem scaler.settings (scaler.current_core + 1) in
          let moved : Scaler = record scaler {
            u_next = false;
            go_next = false;
            current_core = scaler.current_core + 1;
            current_counter = i;
          } in
          let there : IsTuned moved = record {
            inside = inside;
            risen = omega (arith, tuned);
            few = omega arith;
            listed = tuned.listed;
          } in
          elim (Bool-cases (ltb 0 i)) [
            | inr lowest ↦ (moved, rw (found, lowest) refl, there)
            | inl more ↦
                let (set, e, tuned') =
                  set_frequency_lem (record moved { current_counter = i - 1 })
                    (record {
                      inside = omega arith;
                      risen = there.risen;
                      few = there.few;
                      listed = there.listed;
                    }) in
                (set, rw (found, more) e, tuned')
          ]

      speed_up-IsSafe : IsSafe IsTuned (speed_up frequency_of available_freqs cores)
      unfolding speed_up
      speed_up-IsSafe scaler tuned =
          let scaler' : Scaler = record scaler {
            go_next = if scaler.u_next then true else scaler.go_next;
          } in
          let tuned' : IsTuned scaler' = record {
            inside = tuned.inside;
            risen = tuned.risen;
            few = tuned.few;
            listed = tuned.listed;
          } in
          elim (Bool-cases (ltb 0 scaler.current_counter)) [
            | inl more ↦
                let (set, e, tuned'') =
                  set_frequency_lem
                    (record scaler' { current_counter = scaler.current_counter - 1 })
                    (record {
                      inside = omega (arith, tuned);
                      risen = tuned.risen;
                      few = tuned.few;
                      listed = tuned.listed;
                    }) in
                (
                  record set {
                    u_next = if scaler.current_counter - 1 == 0 then true else set.u_next;
                  },
                  rw (more) rw (e) refl,
                  record {
                    inside = tuned''.inside;
                    risen = tuned''.risen;
                    few = tuned''.few;
                    listed = tuned''.listed;
                  },
                )
            | inr highest ↦ elim (Bool-cases (scaler'.go_next && ltb scaler'.current_core cores)) [
              | inl goes ↦
                  let (moved, e, tuned'') = next_core_lem scaler' tuned' (ground arith) in
                  (moved, rw (highest, goes) e, tuned'')
              | inr stays ↦ (scaler', rw (highest, stays) refl, tuned')
            ]
          ]

      slow_down-IsSafe :
          IsSafe IsTuned (slow_down frequency_of available_freqs (length available_freqs))
      unfolding slow_down
      slow_down-IsSafe scaler tuned =
          elim (Bool-cases (ltb scaler.current_counter (length available_freqs - 1))) [
            | inl more ↦
                let (set, e, tuned') =
                  set_frequency_lem (record scaler { current_counter = scaler.current_counter + 1 })
                    (record {
                      inside =
                          omega (
                            arith,
                            ltb→lt scaler.current_counter (length available_freqs - 1) more,
                          );
                      risen = tuned.risen;
                      few = tuned.few;
                      listed = tuned.listed;
                    }) in
                (set, rw (more) e, tuned')
            | inr lowest ↦
                let never : ltb (length available_freqs) scaler.current_counter ≡ false =
                  ground (arith, tuned.inside) in
                (scaler, rw (lowest, never) refl, tuned)
          ]

      -- The kernel reports frequencies that it has listed, and the scaler stands on a core from
      -- `first` to CORES, inside the array of `max_freq` frequencies. Over any readings whose beats do
      -- not fall and fit in an `int`, the run of `main_loop` returns. It has not left the array, sets
      -- only frequencies of the array on cores up to CORES, and keeps its records inside their block.
      -- It never goes back to a core before `first`, although `slow_down` has a branch for this.
      pub scaler2-HasRun :
          {D : Type 0} ⦃d : Double D⦄ (window_size : ℕ) (lo hi : D) (readings : List (Reading D))
          (max b c : ℕ) (pace : Pace D) (scaler : Scaler)
          → IsPaced max b pace
          → IsTuned scaler
          → b ≤ c
          → IsRising c readings
          → (last : ℕ) × HasRun IsTuned max last (
              main_loop frequency_of available_freqs cores
                (length available_freqs)
                window_size
                lo
                hi
                (pos max)
                readings
                (pace, scaler))
      unfolding main_loop
      scaler2-HasRun window_size lo hi readings max b c pace scaler paced tuned rise rising =
          main_loop-HasRun (speed_up frequency_of available_freqs cores)
            (slow_down frequency_of available_freqs (length available_freqs)) window_size lo hi
            IsTuned speed_up-IsSafe slow_down-IsSafe readings max b c pace scaler paced tuned rise
            rising
