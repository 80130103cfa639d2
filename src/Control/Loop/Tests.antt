-- ===== src/Control/Loop/Tests.antt =====
-- Each theorem about the loop of `main` at an input: a system that counts the calls of taskset, and
-- a decision for two cores.
use heartbeats.Base.{
  ℕ, zero, suc, ◌+◌, ◌≡◌, refl, Bool, true, false, some, List, [], ◌∷◌, arith, get_elem?, ℤ, pos,
  negsuc, ◌-ℤ◌, ◌<ℤ◌,
}
use heartbeats.Double.{whole}
use heartbeats.Heartbeat.{HeartbeatRecord}
use heartbeats.Heartbeat.Fixture.{blank}
use heartbeats.Control.Outcome.{Outcome, ok}
use heartbeats.Control.Actuators.{Actuator, core_count, no_data}
use heartbeats.Control.Loop.{Platform, Service, act_from, refresh_speed, round, rounds}
use heartbeats.Control.Loop.Rounds.{AllDone, seen, round-Settles, round-AllDone}

abbrev counting : Platform ℕ
counting = record {
  taskset = λ w last pid. (w + 1, pos 0);
  set_frequency = λ w core frequency. (w, pos 0);
  freq_kernel = λ w core. 1000;
}

abbrev cores_on : ℤ → ℤ → Actuator
cores_on value set_value = record {
  id = core_count;
  pid = pos 4;
  core = negsuc 0;
  value = value;
  set_value = set_value;
  min = pos 1;
  max = pos 4;
  data_of = no_data;
}

abbrev two_cores_please : Bool → HeartbeatRecord ℤ → List Actuator → Outcome (List Actuator × Bool)
two_cores_please memory current controls = ok (cores_on (pos 1) (pos 2) ∷ [], memory)

abbrev two_cores_on : Bool → HeartbeatRecord ℤ → List Actuator → Outcome (List Actuator × Bool)
two_cores_on memory current controls = ok (cores_on (pos 2) (pos 2) ∷ [], memory)

abbrev beat_at : ℕ → HeartbeatRecord ℤ
beat_at n = record blank { beat = n; window_rate = pos 10 }

abbrev service : Service ℕ Bool
service = record {
  world = 0;
  memory = true;
  controls = cores_on (pos 1) (pos 1) ∷ [];
  last_beat = pos 7;
  skip_until_beat = pos 8;
}

abbrev polls : List (Bool × HeartbeatRecord ℤ)
polls = (false, beat_at 9) ∷ (true, beat_at 9) ∷ []

polls_before :
    (i : ℕ) (poll : Bool × HeartbeatRecord ℤ)
    → get_elem? polls i ≡ some poll
    → pos (poll.1.beat) <ℤ pos 12
polls_before zero poll e = ground arith
polls_before (suc zero) poll e = ground arith
polls_before (suc (suc i)) poll e = ground arith

runs_taskset :
    act_from counting 4 1 0 false 0 (cores_on (pos 1) (pos 2) ∷ [])
    ≡ ok (true, 1, cores_on (pos 2) (pos 2) ∷ [])
unfolding act_from ◌-ℤ◌
runs_taskset = refl

keeps_speed : refresh_speed 4 (cores_on (pos 2) (pos 2) ∷ []) ≡ ok (cores_on (pos 2) (pos 2) ∷ [])
unfolding refresh_speed
keeps_speed = refl

round-Settles_example :
    (s1 s2 : Service ℕ Bool) × (round counting two_cores_please 4 2 (beat_at 10) service ≡ ok s1)
    × (rounds counting two_cores_please 4 2 100 polls s1 ≡ ok s2)
    × (s2.world ≡ 1)
    × (s2.memory ≡ true)
    × (s2.controls ≡ cores_on (pos 2) (pos 2) ∷ [])
round-Settles_example =
    round-Settles counting two_cores_please 4 2 100 (beat_at 10) service
      (cores_on (pos 1) (pos 2) ∷ []) true (omega arith) refl 1 (cores_on (pos 2) (pos 2) ∷ [])
      (cores_on (pos 2) (pos 2) ∷ []) runs_taskset keeps_speed polls polls_before

two_on : AllDone (cores_on (pos 2) (pos 2) ∷ [])
two_on zero act e = ground arith
two_on (suc i) act e = ground arith

quiet_round :
    round counting two_cores_on 4 2 (beat_at 10) service
    ≡ ok (record (seen (beat_at 10) service) {
      memory = true;
      controls = cores_on (pos 2) (pos 2) ∷ [];
      skip_until_beat = pos 11;
    })
quiet_round =
    round-AllDone counting two_cores_on 4 2 100 (beat_at 10) service (cores_on (pos 2) (pos 2) ∷ [])
      true (omega arith) refl two_on (omega arith)
