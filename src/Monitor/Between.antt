-- ===== src/Monitor/Between.antt =====
-- What a monitor reads between two stores of a heartbeat.
use heartbeats.Base.{
  ℕ, ◌+◌, ◌==◌, ◌⊎◌, ◌≡◌, ◌≢◌, ◌<◌, ◌≤◌, refl, ap, ap₂, subst, ◌∙◌, sym, inl, inr, true, false,
  Option, none, some, List, [], ◌∷◌, ◌++◌, map, arith, length, replicate, get_elem?, if◌then◌else◌,
  ◌>>=◌, Bool-cases, get_elem?-set_self, get_elem?-set_ne, get_elem?_fault, length-set, ℤ,
}
use heartbeats.Double.{Double}
use heartbeats.Heartbeat.{HeartbeatRecord, Heartbeat}
use heartbeats.Heartbeat.Invariant.{IsLogging}
use heartbeats.Heartbeat.Stores.{heartbeat_stores, advance, count, set_valid}
use heartbeats.Heartbeat.WrapShape.{rewound, rewound_read}
use heartbeats.Heartbeat.Stores.Fields.{partly, map_records, with_record}
use heartbeats.Heartbeat.Stores.States.{
  first_states, later_states, first_rest, later_rest, moved, rewound-Keeps, Keeps,
  rewound_read-depth, rewound_read-inside,
}
use heartbeats.Monitor.{hrm_get_current}
use heartbeats.Monitor.Reads.{monitor_of}

-- The answer of `hrm_get_current`: the record, if any, and the code; `none` is a read outside the ring.
abbrev pub Reading : Type 0 → Type 0
Reading D = Option (Option (HeartbeatRecord D) × ℕ)

module _ {D : Type 0} where
  abbrev pub read : Heartbeat D → Reading D
  read hb = hrm_get_current (monitor_of hb)

  -- The reading of a valid state.
  abbrev found : Option (HeartbeatRecord D) → Reading D
  found o = o >>= λ r. some (some r, 0)

  read_valid :
      (s : Heartbeat D) → s.state.valid ≡ true → read s ≡ found (get_elem? s.log s.state.read_index)
  unfolding hrm_get_current
  read_valid s on = rw on refl

  read_off : (s : Heartbeat D) → s.state.valid ≡ false → read s ≡ some (none, 1)
  unfolding hrm_get_current
  read_off s off = rw off refl

  -- Without `valid`, and with a record that is not the one read, no store of a field changes a reading.
  map_records-off :
      (s : Heartbeat D) (i : ℕ) (rs : List (HeartbeatRecord D))
      → s.state.valid ≡ false
      → map read (map_records s i rs) ≡ replicate (length rs) (some (none, 1))
  map_records-off s i [] off = refl
  map_records-off s i (r ∷ rs) off =
      rw (read_off (with_record s i r) off, map_records-off s i rs off) refl

  map_records-away :
      (s : Heartbeat D) (i : ℕ) (rs : List (HeartbeatRecord D))
      → s.state.valid ≡ true
      → i ≢ s.state.read_index
      → map read (map_records s i rs)
        ≡ replicate (length rs) (found (get_elem? s.log s.state.read_index))
  map_records-away s i [] on away = refl
  map_records-away s i (r ∷ rs) on away =
      rw
        (
          read_valid (with_record s i r) on,
          get_elem?-set_ne s.log i s.state.read_index r away,
          map_records-away s i rs on away,
        )
        refl

  -- What is read of `s` once its index to read has gone up, until it has been brought back.
  abbrev pub raised : Heartbeat D → HeartbeatRecord D → Reading D
  raised s entry =
      if s.state.read_index + 1 == s.state.buffer_depth then none else some (some entry, 0)

==-false : (a b : ℕ) → a ≢ b → (a == b) ≡ false
==-false a b h = ground arith

module _ {D : Type 0} (s : Heartbeat D) (i : ℕ) (entry : HeartbeatRecord D)
    (on : s.state.valid ≡ true) (deep : 2 ≤ s.state.buffer_depth)
    (inside : i < s.state.buffer_depth) (room : length s.log ≡ s.state.buffer_depth)
    (next : (s.state.read_index + 1 ≡ i)
      ⊎ ((i ≡ 0) × (s.state.read_index + 1 ≡ s.state.buffer_depth))) where
  abbrev w : Heartbeat D
  w = with_record s i entry

  away : i ≢ s.state.read_index
  away = omega (arith, next)

  abbrev back : Heartbeat D
  back = record (rewound (moved w)) { state = record (rewound (moved w)).state { read_index = 0 } }

  in_place : get_elem? w.log i ≡ some entry
  in_place = get_elem?-set_self s.log i entry (omega arith)

  moved_found : found (get_elem? w.log (s.state.read_index + 1)) ≡ raised s entry
  moved_found = elim next [
    | inl e ↦
        let low : (s.state.read_index + 1 == s.state.buffer_depth) ≡ false = ground arith in
        rw (low, e, in_place) refl
    | inr (z, e) ↦
        let full : (s.state.read_index + 1 == s.state.buffer_depth) ≡ true = ground arith in
        let outside : get_elem? w.log (s.state.read_index + 1) ≡ none =
          get_elem?_fault w.log _ (omega (arith, length-set s.log i entry)) in
        rw (full, outside) refl
  ]

  moved_raised : read (moved w) ≡ raised s entry
  moved_raised = read_valid (moved w) on ∙ moved_found

  same_reads : Keeps (moved w) (rewound (moved w))
  same_reads = rewound-Keeps (moved w)

  rewind_raised : read (rewound (moved w)) ≡ raised s entry
  rewind_raised =
      read_valid (rewound (moved w)) (same_reads.2 ∙ on)
      ∙ (ap₂ (λ log j. found (get_elem? log j)) same_reads.0 same_reads.1 ∙ moved_found)

  last_found : read (rewound_read (rewound (moved w))) ≡ some (some entry, 0)
  last_found = elim next [
    | inl e ↦
        rw
          (rewound_read-inside (rewound (moved w)) (omega (arith, same_reads.1))
            (omega (arith, same_reads.1, same_reads.3)))
          (rewind_raised
            ∙ rw ((==-false (s.state.read_index + 1) s.state.buffer_depth (omega arith))) refl)
    | inr (z, e) ↦
        rw (rewound_read-depth (rewound (moved w)) (omega (arith, same_reads.1, same_reads.3))) (
          read_valid back (same_reads.2 ∙ on)
          ∙ (ap (λ log. found (get_elem? log 0)) same_reads.0
              ∙ ap found (ap (get_elem? w.log) (sym z) ∙ in_place)))
  ]

  same_yet : found (get_elem? w.log s.state.read_index) ≡ read s
  same_yet =
      ap found (get_elem?-set_ne s.log i s.state.read_index entry away) ∙ sym (read_valid s on)

  -- The readings of a later beat, from the state in which its record is about to be written.
  later_from :
      (old : HeartbeatRecord D)
      → map read (map_records s i (partly old entry) ++ later_rest w)
        ≡ replicate 8 (read s) ++ (raised s entry ∷ raised s entry ∷ some (some entry, 0) ∷ [])
  later_from old =
      ap₂ (λ xs ys. xs ++ ys)
        (map_records-away s i (partly old entry) on away ∙ ap (replicate 6) (sym (read_valid s on)))
        (rw
          (
            read_valid (advance w) on ∙ same_yet,
            read_valid (count (advance w)) on ∙ same_yet,
            moved_raised,
            rewind_raised,
            last_found,
          )
          refl)

module _ {D : Type 0} ⦃d : Double D⦄ (past blocks : List (HeartbeatRecord D)) (hb : Heartbeat D)
    (logging : IsLogging past blocks hb) (tag time : ℤ) where
  -- The readings behind the eighth store.
  abbrev pub ends : HeartbeatRecord D → List (Reading D)
  ends entry =
      if hb.state.counter == 0
      then some (some entry, 0) ∷ []
      else raised hb entry ∷ raised hb entry ∷ some (some entry, 0) ∷ []

  -- The heartbeat's stores can all be done, and a monitor that reads after each of them has
  -- these readings.
  abbrev pub IsRead : (readings : HeartbeatRecord D → List (Reading D)) → Type 0
  IsRead readings =
      (states : List (Heartbeat D)) × (entry : HeartbeatRecord D) × (heartbeat_stores hb tag time
        ≡ some states)
      × (map read states ≡ readings entry)
      × (entry.beat ≡ length past)
      × (entry.tag ≡ tag)
      × (entry.timestamp ≡ time)

  first_readings :
      hb.state.counter ≡ 0 → IsRead (λ entry. replicate 8 (read hb) ++ (some (some entry, 0) ∷ []))
  first_readings none_past =
      let one = first_states past blocks hb logging tag time none_past in
      let off : hb.state.valid ≡ false = ground (arith, logging.started) in
      let mid_off : one.mid.state.valid ≡ false = ap (λ s. s.valid) one.same_state ∙ off in
      let w = with_record one.mid one.place one.entry in
      let at_place : one.mid.state.read_index ≡ one.place =
        ap (λ s. s.read_index) one.same_state
        ∙ ((logging.fresh none_past).1 ∙ sym (one.at_index ∙ (logging.fresh none_past).0)) in
      let inside : one.place < length one.mid.log =
        omega (arith, logging, one.at_index, ap length one.same_log) in
      (
        map_records one.mid one.place (partly one.old one.entry)
            ++ first_rest (with_record one.mid one.place one.entry),
        one.entry,
        one.states,
        rw (read_off hb off) (
            ap₂ (λ xs ys. xs ++ ys)
              (map_records-off one.mid one.place (partly one.old one.entry) mid_off)
              (rw
                (
                  read_off (count w) mid_off,
                  read_off (advance (count w)) mid_off,
                  read_valid (set_valid (advance (count w))) refl,
                  at_place,
                  get_elem?-set_self one.mid.log one.place one.entry inside,
                )
                refl)),
        one.beat,
        one.tagged,
        one.timed,
      )

  later_readings :
      hb.state.counter ≢ 0
      → IsRead (λ entry.
        replicate 8 (read hb) ++ (raised hb entry ∷ raised hb entry ∷ some (some entry, 0) ∷ []))
  later_readings some_past =
      let one = later_states past blocks hb logging tag time some_past in
      let on : hb.state.valid ≡ true = ground (arith, logging.started) in
      let by_state = ap (λ st. st.read_index) one.same_state in
      (
        map_records one.mid one.place (partly one.old one.entry)
            ++ later_rest (with_record one.mid one.place one.entry),
        one.entry,
        one.states,
        later_from one.mid one.place one.entry (ap (λ st. st.valid) one.same_state ∙ on)
              (omega (arith, ap (λ st. st.buffer_depth) one.same_state, logging))
              (omega (arith, ap (λ st. st.buffer_depth) one.same_state, logging, one.at_index))
              (ap length one.same_log
                ∙ (logging.room ∙ sym (ap (λ st. st.buffer_depth) one.same_state)))
              (subst
                (λ st.
                  (st.read_index + 1 ≡ one.place)
                  ⊎ ((one.place ≡ 0) × (st.read_index + 1 ≡ st.buffer_depth)))
                (sym one.same_state) (rw one.at_index (logging.reading some_past)))
              one.old
            ∙ ap₂
                (λ st log.
                  replicate 8 (read (record hb { state = st; log = log }))
                  ++ (raised (record hb { state = st }) one.entry
                      ∷ raised (record hb { state = st }) one.entry
                      ∷ some (some one.entry, 0)
                      ∷ []))
                one.same_state one.same_log,
        one.beat,
        one.tagged,
        one.timed,
      )

  -- The stores of a heartbeat of a registered application all hit its memory. A monitor that reads
  -- after each of them gets eight times the reading from before the heartbeat, and at the end the
  -- new record, with the number of the beat, the tag and the time. Between, of a beat that is not
  -- the first, it twice gets the new record too, unless the index to read was the last of the ring:
  -- then those two reads are outside the ring.
  pub hrm_get_current-heartbeat_stores : IsRead (λ entry. replicate 8 (read hb) ++ ends entry)
  hrm_get_current-heartbeat_stores = elim (Bool-cases (hb.state.counter == 0)) [
    | inl e ↦ rw e (first_readings (ground arith))
    | inr e ↦ rw e (later_readings (ground arith))
  ]
