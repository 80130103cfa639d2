-- ===== src/CoreAllocator/Bounds.antt =====
-- The cores and the commands stay within the processors of the machine.
use heartbeats.Base.{
  Bool, true, false, if◌then◌else◌, ◌*◌, ap₂, bind_some, subst, ap, sym, ◌∙◌, ℕ, suc, zero, ◌+◌,
  ◌-◌, ◌/◌, ◌%◌, ◌^◌, ◌≤◌, ◌<◌, ◌≡◌, refl, some, List, [], ◌∷◌, ◌++◌, arith, length, ltb, ltb→lt,
  ◌==◌, ℤ, pos, ◌-ℤ◌, ◌<ℤ◌, -ℤ_parts, Bool-cases, inl, inr,
}
use heartbeats.Double.{Double}
use heartbeats.Monitor.{HeartRateMonitor, hrm_get_window_size}
use heartbeats.Adapt.Start.{ready, attach, then_start-ready, ready-injective}
use heartbeats.Adapt.{Pace, HeartData, Reading, first_pace}
use heartbeats.Adapt.Runs.{IsPaced, IsRising, HasRun, IsSafe, main_loop-HasRun}
use heartbeats.CoreAllocator.{
  Cores, count_cores, get_current_cores_assigned, speed_up, slow_down, start, main_loop,
}

-- The number that bits stand for, the lowest first, and how many of them are set.
abbrev pub value_of : List Bool → ℕ
value_of [] = 0
value_of (bit ∷ bits) = (if bit then 1 else 0) + 2 * value_of bits

abbrev pub ones : List Bool → ℕ
ones [] = 0
ones (bit ∷ bits) = (if bit then 1 else 0) + ones bits

no_ones : (bits : List Bool) → value_of bits ≡ 0 → ones bits ≡ 0
no_ones [] e = refl
no_ones (true ∷ bits) e = absurd (ground arith)
no_ones (false ∷ bits) e = let none_left = no_ones bits (omega (arith, e)) in omega arith

-- Every number of `n` bits is the value of `n` bits.
bits_of : (n a : ℕ) → a < 2 ^ n → (bits : List Bool) × (length bits ≡ n) × (value_of bits ≡ a)
bits_of zero a small = ([], refl, omega arith)
bits_of (suc n) a small =
    let (bits, size, value) = bits_of n (a / 2) (omega arith) in
    elim (Bool-cases (a % 2 == 1)) [
      | inl odd ↦ (true ∷ bits, ap suc size, ground (arith, value))
      | inr even ↦ (false ∷ bits, ap suc size, ground (arith, value))
    ]

count_cores-ones :
    (bits : List Bool) (result : ℕ)
    → count_cores (length bits) (value_of bits) result ≡ some (result + ones bits)
unfolding count_cores
count_cores-ones [] result = ap some (omega arith)
count_cores-ones (true ∷ bits) result =
    let half : (1 + 2 * value_of bits) / 2 ≡ value_of bits = omega arith in
    let odd : (1 + 2 * value_of bits) % 2 ≡ 1 = omega arith in
    let more : (1 + 2 * value_of bits == 0) ≡ false = ground arith in
    rw (more, half, odd, count_cores-ones bits (result + 1)) (ap some (omega arith))
count_cores-ones (false ∷ bits) result =
    let half : (0 + 2 * value_of bits) / 2 ≡ value_of bits = omega arith in
    let even : (0 + 2 * value_of bits) % 2 ≡ 0 = omega arith in
    elim (Bool-cases (0 + 2 * value_of bits == 0)) [
      | inl done ↦ let left = no_ones bits (ground arith) in rw done (ap some (omega (arith, left)))
      | inr more ↦ rw (more, half, even, count_cores-ones bits (result + 0)) (ap some (omega arith))
    ]

-- Whatever 32 bits its variable holds, the loop on the affinity ends, and it has counted those that
-- are set.
pub get_current_cores_assigned-ones :
    (affinity : ℕ)
    → affinity < 2 ^ 32
    → (bits : List Bool) × (length bits ≡ 32)
      × (value_of bits ≡ affinity)
      × (get_current_cores_assigned affinity ≡ some (ones bits))
unfolding get_current_cores_assigned
get_current_cores_assigned-ones affinity small =
    let (bits, size, value) = bits_of 32 affinity small in
    (
      bits,
      size,
      value,
      ap₂ (λ n a. count_cores n a 0) (sym size) (sym value)
          ∙ (count_cores-ones bits 0 ∙ ap some (omega arith)),
    )

abbrev pub AreBelow : ℕ → List ℤ → Type 0
AreBelow ncpus [] = Unit {0}
AreBelow ncpus (command ∷ commands) = (command <ℤ pos ncpus) × AreBelow ncpus commands

AreBelow-append :
    (ncpus : ℕ) (commands : List ℤ) (command : ℤ)
    → AreBelow ncpus commands
    → command <ℤ pos ncpus
    → AreBelow ncpus (commands ++ (command ∷ []))
AreBelow-append ncpus [] command below less = (less, tt)
AreBelow-append ncpus (c ∷ commands) command (first, below) less =
    (first, AreBelow-append ncpus commands command below less)

-- At most all the processors are given, and each command names processors below their number.
pub record IsWithin (ncpus : ℕ) (cores : Cores) : Type 0 where
  pub few : cores.nprocs ≤ ncpus
  pub below : AreBelow ncpus cores.commands

module _ (ncpus : ℕ) where
  pub speed_up-IsSafe : IsSafe (IsWithin ncpus) (speed_up ncpus)
  unfolding speed_up ◌-ℤ◌
  speed_up-IsSafe cores within = elim (Bool-cases (ltb cores.nprocs ncpus)) [
    | inr full ↦ (cores, rw (full) refl, within)
    | inl more ↦ (
      record {
        nprocs = cores.nprocs + 1;
        commands = cores.commands ++ ((pos (cores.nprocs + 1) -ℤ pos 1) ∷ []);
      },
      rw (more) refl,
      record {
        few = omega (arith, ltb→lt cores.nprocs ncpus more);
        below =
            AreBelow-append ncpus cores.commands (pos (cores.nprocs + 1) -ℤ pos 1) within.below (
              omega
                (arith, ltb→lt cores.nprocs ncpus more, -ℤ_parts (pos (cores.nprocs + 1)) (pos 1)));
      },
    )
  ]

  pub slow_down-IsSafe : IsSafe (IsWithin ncpus) slow_down
  unfolding slow_down
  slow_down-IsSafe cores within = elim (Bool-cases (ltb 0 cores.nprocs)) [
    | inr empty ↦ (cores, rw (empty) refl, within)
    | inl more ↦ (
      record {
        nprocs = cores.nprocs - 1;
        commands = cores.commands ++ ((pos (cores.nprocs - 1) -ℤ pos 1) ∷ []);
      },
      rw (more) refl,
      record {
        few = omega (arith, within);
        below =
            AreBelow-append ncpus cores.commands (pos (cores.nprocs - 1) -ℤ pos 1) within.below (
              omega (
                arith,
                within,
                ltb→lt 0 cores.nprocs more,
                -ℤ_parts (pos (cores.nprocs - 1)) (pos 1),
              ));
      },
    )
  ]

module _ {D : Type 0} (enabled_dir : Bool) (listings : List (List ℤ))
    (init : ℤ → HeartRateMonitor D × ℕ) (block : List (HeartData D)) (affinity : ℕ) where
  start_lem :
      (pace : Pace D) (cores : Cores) (n : ℕ)
      → start enabled_dir listings init block affinity ≡ some (ready (pace, cores))
      → get_current_cores_assigned affinity ≡ some n
      → (window_size : ℕ) × (pace ≡ first_pace window_size block)
        × (cores ≡ record { nprocs = n; commands = [] })
  unfolding start
  start_lem pace cores n e counted =
      let ((app, heart), attached, e') =
        then_start-ready (attach enabled_dir listings init) _ (pace, cores) e in
      let (window_size, read, e'') =
        bind_some (hrm_get_window_size heart) _ (ready (pace, cores)) e' in
      let (m, counted', e3) =
        bind_some (get_current_cores_assigned affinity) _ (ready (pace, cores)) e'' in
      let same : m ≡ n = cc in
      let result =
        ready-injective (first_pace window_size block, record { nprocs = m; commands = [] })
          (pace, cores) e3 in
      (
        window_size,
        sym (ap (λ r. r.0) result),
        sym (ap (λ r. r.1) result) ∙ ap (λ k. record { nprocs = k; commands = [] }) same,
      )

module _ {D : Type 0} ⦃d : Double D⦄ (ncpus window_size : ℕ) (lo hi : D) (max : ℕ)
    (enabled_dir : Bool) (listings : List (List ℤ)) (init : ℤ → HeartRateMonitor D × ℕ)
    (block : List (HeartData D)) (affinity : ℕ) where
  -- `start` has come to the loop, with a block of `max` records and at most all the processors given.
  -- Over any readings whose beats do not fall and fit in an `int`, the run of `main_loop` returns, keeps
  -- its records inside the block, gives at most all the processors, and every command that it has
  -- executed names processors below their number.
  pub allocator-HasRun :
      (pace : Pace D) (cores : Cores) (nprocs : ℕ) (readings : List (Reading D))
      → start enabled_dir listings init block affinity ≡ some (ready (pace, cores))
      → get_current_cores_assigned affinity ≡ some nprocs
      → nprocs ≤ ncpus
      → length block ≡ max
      → IsRising 0 readings
      → (last : ℕ) × HasRun
          (IsWithin ncpus)
          max
          last
          (main_loop ncpus window_size lo hi (pos max) readings (pace, cores))
  unfolding main_loop
  allocator-HasRun pace cores nprocs readings started counted few room rising =
      let (w, first, fresh) =
        start_lem enabled_dir listings init block affinity pace cores nprocs started counted in
      let paced : IsPaced max 0 (first_pace w block) = record {
        here = refl;
        before = refl;
        few = omega arith;
        room = room;
      } in
      let within : IsWithin ncpus (record { nprocs = nprocs; commands = [] }) = record {
        few = few;
        below = tt;
      } in
      main_loop-HasRun (speed_up ncpus) slow_down window_size lo hi (IsWithin ncpus)
        (speed_up-IsSafe ncpus) (slow_down-IsSafe ncpus) readings max 0 0 pace cores
        (subst (IsPaced max 0) (sym first) paced) (subst (IsWithin ncpus) (sym fresh) within)
        (omega arith) rising
