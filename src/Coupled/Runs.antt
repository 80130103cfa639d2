-- ===== src/Coupled/Runs.antt =====
-- Every interleaving of the heartbeats and the readings goes through.
use mathlib.Core.List.{append-nil, append_assoc}
use heartbeats.Base.{
  ℕ, suc, ◌+◌, ◌^◌, ◌≤◌, ◌<◌, ◌≡◌, refl, sym, ◌⊎◌, inl, inr, true, Option, some, List, [], ◌∷◌,
  ◌++◌, ◌>>=◌, arith, length, length-append, ℤ, pos, ◌≤ℤ◌, subst,
}
use heartbeats.Double.{Double}
use heartbeats.Heartbeat.{HeartbeatRecord, hb_get_current}
use heartbeats.Heartbeat.Invariant.{IsLogging}
use heartbeats.Heartbeat.Beat.{heartbeat-HasLogged}
use heartbeats.Monitor.{hrm_get_min_rate, hrm_get_max_rate}
use heartbeats.Adapt.{next}
use heartbeats.Monitor.Reads.{hrm_get_current-latest, no_beat_yet}
use heartbeats.Adapt.Runs.{IsPaced, IsSafe, next_lem}
use heartbeats.Coupled.{Event, beat, poll, Coupled, take_reading, step, run}

-- The times are those of a clock after the epoch.
abbrev pub AreTimed : List Event → Type 0
AreTimed [] = Unit {0}
AreTimed (beat tag time ∷ events) = (pos 0 ≤ℤ time) × AreTimed events
AreTimed (poll ∷ events) = AreTimed events

abbrev pub beats : List Event → ℕ
beats [] = 0
beats (beat tag time ∷ events) = suc (beats events)
beats (poll ∷ events) = beats events

-- The application has logged `past`, its last record is the one that a monitor reads, and the program
-- stands at a beat that has been logged, with its records in their block and a sound knob.
pub record IsCoupled {D K : Type 0} (IsSound : K → Type 0) (max : ℕ)
    (past : List (HeartbeatRecord D)) (s : Coupled D K) : Type 0 where
  pub blocks : List (HeartbeatRecord D)
  pub logging : IsLogging past blocks s.application
  pub latest :
      (past ≡ [])
      ⊎ ((r : HeartbeatRecord D) × (hb_get_current s.application ≡ some r)
          × (r.beat + 1 ≡ length past))
  pub at : ℕ
  pub reached : (at ≡ 0) ⊎ (at < length past)
  pub paced : IsPaced max at s.pace
  pub sound : IsSound s.knob

further : (at n m : ℕ) → (at ≡ 0) ⊎ (at < n) → n ≤ m → (at ≡ 0) ⊎ (at < m)
further at n m (inl z) h = inl z
further at n m (inr low) h = inr (omega arith)

module _ {D : Type 0} ⦃d : Double D⦄ {K : Type 0} (IsSound : K → Type 0)
    (speed_up slow_down : K → Option K) (up_safe : IsSafe IsSound speed_up)
    (down_safe : IsSafe IsSound slow_down) (window_size max : ℕ) where
  -- The steps have returned, the application has logged `new` more, and the system is coupled still.
  pub record GoesOn (past : List (HeartbeatRecord D)) (more : ℕ) (out : Option (Coupled D K))
      : Type 0 where
    pub system : Coupled D K
    pub new : List (HeartbeatRecord D)
    pub returned : out ≡ some system
    pub counted : length new ≡ more
    pub coupled : IsCoupled IsSound max (past ++ new) system

  step-beat :
      (past : List (HeartbeatRecord D)) (s : Coupled D K) (tag time : ℤ)
      → IsCoupled IsSound max past s
      → pos 0 ≤ℤ time
      → GoesOn past 1 (step speed_up slow_down window_size (pos max) (beat tag time) s)
  unfolding step
  step-beat past s tag time c nonneg =
      let one = heartbeat-HasLogged past c.blocks s.application c.logging tag time nonneg in
      let longer = length-append past (one.entry ∷ []) in
      record {
        system = record s { application = one.next };
        new = one.entry ∷ [];
        returned = rw (one.returned) refl;
        counted = refl;
        coupled = record {
          blocks = one.blocks;
          logging = one.logging;
          latest = inr (one.entry, one.current, omega (arith, one.beat, longer));
          at = c.at;
          reached = further c.at (length past) _ c.reached (omega (arith, longer));
          paced = c.paced;
          sound = c.sound;
        };
      }

  -- Nothing has been read.
  idle :
      (past : List (HeartbeatRecord D)) (s : Coupled D K)
      → IsCoupled IsSound max past s
      → past ≡ []
      → GoesOn past 0 (take_reading speed_up slow_down window_size (pos max) s)
  unfolding take_reading next hrm_get_min_rate hrm_get_max_rate
  idle past s c e =
      let quiet =
        no_beat_yet c.blocks s.application
          (subst (λ xs. IsLogging xs c.blocks s.application) e c.logging) in
      record {
        system = s;
        new = [];
        returned = rw quiet refl;
        counted = refl;
        coupled = subst (λ xs. IsCoupled IsSound max xs s) (sym (append-nil past)) c;
      }

  step-poll :
      (past : List (HeartbeatRecord D)) (s : Coupled D K)
      → IsCoupled IsSound max past s
      → length past < 2 ^ 31
      → GoesOn past 0 (step speed_up slow_down window_size (pos max) poll s)
  unfolding step take_reading hrm_get_min_rate hrm_get_max_rate
  step-poll past s c few = elim c.latest [
    | inl none_past ↦ idle past s c none_past
    | inr (r, current, last) ↦
        let on : s.application.state.valid ≡ true =
          ground (arith, c.logging.started, c.logging.counted) in
        let (at, until, one) =
          next_lem speed_up slow_down window_size s.application.state.min_heartrate
            s.application.state.max_heartrate IsSound up_safe down_safe max c.at r s.pace s.knob
            c.paced c.sound (omega (arith, c.reached)) (omega arith) in
        record {
          system = record s { pace = one.pace; knob = one.knob };
          new = [];
          returned = rw (hrm_get_current-latest s.application r on current, one.returned) refl;
          counted = refl;
          coupled =
              subst (λ xs. IsCoupled IsSound max xs (record s { pace = one.pace; knob = one.knob }))
                (sym (append-nil past))
                (record {
                  blocks = c.blocks;
                  logging = c.logging;
                  latest = c.latest;
                  at = at;
                  reached = inr (omega arith);
                  paced = one.paced;
                  sound = one.sound;
                });
        }
  ]

  -- Steps that go on one after the other.
  chained :
      (past : List (HeartbeatRecord D)) (n m k : ℕ) (out : Option (Coupled D K))
      (more : Coupled D K → Option (Coupled D K)) (one : GoesOn past n out)
      → k ≡ n + m
      → GoesOn (past ++ one.new) m (more one.system)
      → GoesOn past k (out >>= more)
  chained past n m k out more one e rest = record {
    system = rest.system;
    new = one.new ++ rest.new;
    returned = rw (one.returned) rest.returned;
    counted = omega (arith, length-append one.new rest.new, one.counted, rest.counted);
    coupled =
        subst (λ xs. IsCoupled IsSound max xs rest.system) (append_assoc past one.new rest.new)
          rest.coupled;
  }

  -- However the heartbeats of an application and the readings of a program that watches it follow
  -- each other, each of them returns, if the times are not negative, fewer than 2^31 records
  -- are logged in all, and the two functions of the program's knob do not fault on sound settings: the application
  -- has then logged one record more for each heartbeat, the program stands at a beat that has been
  -- logged, its records fit in their block, and the setting is sound.
  pub run-GoesOn :
      (events : List Event) (past : List (HeartbeatRecord D)) (s : Coupled D K)
      → IsCoupled IsSound max past s
      → AreTimed events
      → length past + beats events < 2 ^ 31
      → GoesOn past (beats events) (run speed_up slow_down window_size (pos max) events s)
  unfolding run
  run-GoesOn [] past s c timed few = record {
    system = s;
    new = [];
    returned = refl;
    counted = refl;
    coupled = subst (λ xs. IsCoupled IsSound max xs s) (sym (append-nil past)) c;
  }
  run-GoesOn (beat tag time ∷ events) past s c (nonneg, timed) few =
      let one = step-beat past s tag time c nonneg in
      let few' : length (past ++ one.new) + beats events < 2 ^ 31 =
        omega (arith, length-append past one.new, one.counted) in
      chained past 1 (beats events) (beats (beat tag time ∷ events)) _ _ one (omega arith)
        (run-GoesOn events (past ++ one.new) one.system one.coupled timed few')
  run-GoesOn (poll ∷ events) past s c timed few =
      let one = step-poll past s c (omega arith) in
      let few' : length (past ++ one.new) + beats events < 2 ^ 31 =
        omega (arith, length-append past one.new, one.counted) in
      chained past 0 (beats events) (beats events) _ _ one (omega arith)
        (run-GoesOn events (past ++ one.new) one.system one.coupled timed few')
