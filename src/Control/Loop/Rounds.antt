-- ===== src/Control/Loop/Rounds.antt =====
-- When the loop of `main` decides and acts, and when it leaves everything alone.
use heartbeats.Base.{
  ℕ, zero, suc, ◌+◌, ◌≤◌, ◌<◌, ◌≡◌, refl, Bool, true, false, some, List, [], ◌∷◌, arith, length,
  get_elem?, get_elem?-some, Bool-cases, inl, inr, ltb, ltb_ℤ, ℤ, pos, ◌<ℤ◌, ◌≤ℤ◌, pos-add,
}
use heartbeats.Double.{Double}
use heartbeats.Heartbeat.{HeartbeatRecord}
use heartbeats.Control.Outcome.{Outcome, ok}
use heartbeats.Control.Actuators.{Actuator}
use heartbeats.Control.Loop.{Platform, Service, act_from, refresh_speed, round, rounds, waits}

-- Every request has been carried out.
abbrev pub AllDone : List Actuator → Type 0
AllDone controls =
    (i : ℕ) (act : Actuator) → get_elem? controls i ≡ some act → act.set_value ≡ act.value

module _ {W : Type 0} (os : Platform W) (cores : ℕ) (controls : List Actuator)
    (done : AllDone controls) where
  act_from-AllDone :
      (n i : ℕ) (acted : Bool) (w : W)
      → i + n ≤ length controls
      → act_from os cores n i acted w controls ≡ ok (acted, w, controls)
  unfolding act_from
  act_from-AllDone zero i acted w h = refl
  act_from-AllDone (suc n) i acted w h =
      let (act, e) = get_elem?-some controls i (omega arith) in
      let same = done i act e in
      let rest = act_from-AllDone n (suc i) acted w (omega arith) in ground arith

  refresh_speed-AllDone : 0 < length controls → refresh_speed cores controls ≡ ok controls
  unfolding refresh_speed
  refresh_speed-AllDone h =
      let (act, e) = get_elem?-some controls 0 h in let same = done 0 act e in ground arith

-- The service once it has looked at `current`.
abbrev pub seen : {W E D : Type 0} → HeartbeatRecord D → Service W E → Service W E
seen current s = record s { last_beat = pos current.beat }

-- A service that has only looked at records.
pub record HasWaited {W E : Type 0} (s s' : Service W E) : Type 0 where
  pub world : s'.world ≡ s.world
  pub memory : s'.memory ≡ s.memory
  pub controls : s'.controls ≡ s.controls
  pub skip : s'.skip_until_beat ≡ s.skip_until_beat

module _ {W E D : Type 0} ⦃d : Double D⦄ (os : Platform W)
    (decide : E → HeartbeatRecord D → List Actuator → Outcome (List Actuator × E))
    (cores window_size max_beats : ℕ) where
  abbrev pub AllBefore : ℤ → List (Bool × HeartbeatRecord D) → Type 0
  AllBefore beat polls =
      (i : ℕ) (poll : Bool × HeartbeatRecord D)
      → get_elem? polls i ≡ some poll
      → pos (poll.1.beat) <ℤ beat

  round-early :
      (current : HeartbeatRecord D) (s : Service W E)
      → pos current.beat <ℤ s.skip_until_beat
      → round os decide cores window_size current s ≡ ok (seen current s)
  unfolding round
  round-early current s h =
      let test : ltb_ℤ (pos current.beat) s.skip_until_beat ≡ true = ground arith in
      rw (round, test) refl

  rounds-HasWaited :
      (polls : List (Bool × HeartbeatRecord D)) (s : Service W E)
      → AllBefore s.skip_until_beat polls
      → (s' : Service W E) × (rounds os decide cores window_size max_beats polls s ≡ ok s')
        × HasWaited s s'
  unfolding rounds
  rounds-HasWaited [] s before =
      (s, refl, record { world = refl; memory = refl; controls = refl; skip = refl })
  rounds-HasWaited ((err, current) ∷ polls) s before =
      let rest : AllBefore s.skip_until_beat polls = λ i poll e. before (suc i) poll e in
      let now = round-early current s (before 0 (err, current) refl) in
      elim (Bool-cases (waits err s.last_beat current)) [
        | inl wait ↦ rw (rounds, wait) (rounds-HasWaited polls s rest)
        | inr take ↦ elim (Bool-cases (ltb current.beat max_beats)) [
          | inl more ↦
              let (s', e, waited) = rounds-HasWaited polls (seen current s) rest in
              (
                s',
                rw (rounds, take, now, more) e,
                record {
                  world = waited.world;
                  memory = waited.memory;
                  controls = waited.controls;
                  skip = waited.skip;
                },
              )
          | inr last ↦ (
            seen current s,
            rw (rounds, take, now, last) refl,
            record { world = refl; memory = refl; controls = refl; skip = refl },
          )
        ]
      ]

  module _ (current : HeartbeatRecord D) (s : Service W E) (decided : List Actuator) (memory : E)
      (due : s.skip_until_beat ≤ℤ pos current.beat)
      (decides : decide s.memory current s.controls ≡ ok (decided, memory)) where
    -- A round that is due, whose decision and actions return, and which has acted, returns. After it,
    -- whatever is polled before
    -- `window_size` more beats have passed, the loop goes on without a decision and without an action:
    -- the state of the system, the memory of the decision function and the actuators stay as the
    -- round has left them.
    pub round-Settles :
        (world : W) (done refreshed : List Actuator)
        → act_from os cores (length decided) 0 false s.world decided ≡ ok (true, world, done)
        → refresh_speed cores done ≡ ok refreshed
        → (polls : List (Bool × HeartbeatRecord D))
        → AllBefore (pos (current.beat + window_size)) polls
        → (s1 s2 : Service W E) × (round os decide cores window_size current s ≡ ok s1)
          × (rounds os decide cores window_size max_beats polls s1 ≡ ok s2)
          × (s2.world ≡ world)
          × (s2.memory ≡ memory)
          × (s2.controls ≡ refreshed)
    unfolding round
    round-Settles world done refreshed acts writes polls before =
        let test : ltb_ℤ (pos current.beat) s.skip_until_beat ≡ false = ground arith in
        let s1 : Service W E = record {
          world = world;
          memory = memory;
          controls = refreshed;
          last_beat = pos current.beat;
          skip_until_beat = pos (current.beat + window_size);
        } in
        let (s2, e, waited) = rounds-HasWaited polls s1 before in
        (
          s1,
          s2,
          rw (round, test, decides, acts, writes, pos-add current.beat window_size) refl,
          e,
          waited.world,
          waited.memory,
          waited.controls,
        )

    -- A round that is due, whose decision returns a table that is not empty and asks for nothing that
    -- is not there already, returns. It leaves the state of the system alone, takes the decision's actuators as they are, and the next decision is due
    -- at the next beat.
    pub round-AllDone :
        AllDone decided
        → 0 < length decided
        → round os decide cores window_size current s
          ≡ ok (record (seen current s) {
            memory = memory;
            controls = decided;
            skip_until_beat = pos (current.beat + 1);
          })
    unfolding round
    round-AllDone done some_control =
        let test : ltb_ℤ (pos current.beat) s.skip_until_beat ≡ false = ground arith in
        let acts =
          act_from-AllDone os cores decided done (length decided) 0 false s.world (omega arith) in
        let writes = refresh_speed-AllDone os cores decided done some_control in
        rw (round, test, decides, acts, writes, pos-add current.beat 1) refl
