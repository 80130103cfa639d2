-- ===== src/Heartbeat/Beat.antt =====
-- `heartbeat` keeps the invariant, on its first call and on every later one.
use mathlib.Core.List.{append_assoc}
use heartbeats.Base.{
  ℕ, suc, ◌+◌, ◌<◌, ◌≡◌, ◌≢◌, refl, ap, ◌∙◌, sym, inl, inr, Bool, true, Option, some, List, [], ◌∷◌,
  ◌++◌, arith, ◌==◌, length, set, take, ℤ, pos, ◌≤ℤ◌, Bool-cases, ◌>>=◌, int_of_u64-small,
  store-eq-set, length-set, take-set, get_elem?-set_self, length-append, ◌-ℤ◌,
}
use heartbeats.Double.{Double}
use heartbeats.Heartbeat.{
  HeartbeatRecord, Heartbeat, later_record, heartbeat, first_beat, hb_get_current, later_beat,
}
use heartbeats.Heartbeat.Invariant.{IsLogging, with_window, hb_window_average-returns}
use heartbeats.Heartbeat.Wrap.{HasWritten, blocks_after, wrapped-IsWrapped}
use heartbeats.Heartbeat.WrapShape.{wrapped, wrap_indices-wrapped}

module _ {D : Type 0} where
  -- The call has logged `entry` behind `past`, and left it where `hb_get_current` reads.
  pub record HasLogged (past : List (HeartbeatRecord D)) (tag time : ℤ)
      (out : Option (Heartbeat D × ℤ)) : Type 0 where
    pub next : Heartbeat D
    pub entry : HeartbeatRecord D
    pub blocks : List (HeartbeatRecord D)
    pub returned : out ≡ some (next, time)
    pub beat : entry.beat ≡ length past
    pub tagged : entry.tag ≡ tag
    pub timed : entry.timestamp ≡ time
    pub logging : IsLogging (past ++ (entry ∷ [])) blocks next
    pub current : hb_get_current next ≡ some entry

module _ {D : Type 0} ⦃d : Double D⦄ (past blocks : List (HeartbeatRecord D)) (hb : Heartbeat D)
    (logging : IsLogging past blocks hb) (tag time : ℤ) (nonneg : pos 0 ≤ℤ time) where
  open logging use {deep, int_depth, room, inside, counted, content}

  extended :
      (entry : HeartbeatRecord D)
      → blocks ++ take (hb.state.buffer_index + 1) (set hb.log hb.state.buffer_index entry)
        ≡ past ++ (entry ∷ [])
  extended entry =
      let next : hb.state.buffer_index + 1 ≡ suc hb.state.buffer_index = omega arith in
      rw (next, take-set hb.state.buffer_index hb.log entry (omega arith))
        (sym (append_assoc blocks (take hb.state.buffer_index hb.log) (entry ∷ []))
          ∙ ap (λ ys. ys ++ (entry ∷ [])) content)

  abbrev ticked : Heartbeat D
  ticked = record hb { last_timestamp = time }

  -- The structure before the wrap, at what the window average has returned.
  abbrev written : List ℤ → ℕ → Bool → D → HeartbeatRecord D → Heartbeat D
  written window i steady average entry = record (with_window ticked window i steady average) {
    log = set hb.log hb.state.buffer_index entry;
    state = record hb.state {
      buffer_index = hb.state.buffer_index + 1;
      counter = hb.state.counter + 1;
      read_index = hb.state.read_index + 1;
    };
  }

  written-HasWritten :
      (window : List ℤ) (i : ℕ) (steady : Bool) (average : D) (entry : HeartbeatRecord D)
      → hb.state.counter ≢ 0
      → length window ≡ hb.state.window_size
      → i < hb.state.window_size
      → HasWritten (past ++ (entry ∷ [])) blocks (written window i steady average entry)
  written-HasWritten window i steady average entry some_past wroom winside = record {
    deep = deep;
    int_depth = int_depth;
    room = length-set hb.log hb.state.buffer_index entry ∙ room;
    positive = omega arith;
    inside = omega arith;
    counted = omega (arith, length-append past (entry ∷ []));
    content = extended entry;
    printed = logging.printed;
    started = logging.started ∙ ground arith;
    stamped = logging.stamped ∙ ground arith;
    nonzero = omega arith;
    reading = ground (arith, logging.reading some_past);
    window_room = wroom;
    window_inside = winside;
  }

  later_beat-HasLogged :
      hb.state.counter ≢ 0
      → HasLogged past tag time (later_beat hb tag time >>= λ h. some (h, time))
  unfolding later_beat later_record hb_get_current
  later_beat-HasLogged some_past =
      let (window, i, steady, average, rate, e, wroom, winside) =
        hb_window_average-returns ticked (time -ℤ hb.last_timestamp) logging.window_room
          logging.window_inside in
      let entry =
        later_record (with_window ticked window i steady average) tag time rate hb.last_timestamp in
      let w = written-HasWritten window i steady average entry some_past wroom winside in
      let after =
        wrapped-IsWrapped (past ++ (entry ∷ [])) blocks (written window i steady average entry) w in
      record {
        next = wrapped (written window i steady average entry);
        entry = entry;
        blocks = blocks_after blocks (written window i steady average entry);
        returned = rw (
          e,
          int_of_u64-small hb.state.buffer_index (omega arith),
          store-eq-set hb.log hb.state.buffer_index entry (omega arith),
          wrap_indices-wrapped (written window i steady average entry) (omega (arith, w.deep))
              (omega (arith, w.room)),
        );
        beat = counted;
        tagged = refl;
        timed = refl;
        logging = after.0;
        current =
            let place : (wrapped (written window i steady average entry)).state.read_index
                ≡ hb.state.buffer_index =
              omega (arith, after.1) in
            rw (after.2, place)
              (get_elem?-set_self hb.log hb.state.buffer_index entry (omega arith));
      }

  abbrev first_record : HeartbeatRecord D
  first_record = record {
    beat = hb.state.counter;
    tag = tag;
    timestamp = time;
    global_rate = d.of_int (pos 0);
    window_rate = d.of_int (pos 0);
    instant_rate = d.of_int (pos 0);
  }

  abbrev begun : Heartbeat D
  begun = record hb {
    first_timestamp = time;
    last_timestamp = time;
    window = set hb.window 0 (pos 0);
    log = set hb.log 0 first_record;
    state = record hb.state {
      counter = hb.state.counter + 1;
      buffer_index = hb.state.buffer_index + 1;
      valid = true;
    };
  }

  module _ (none_past : hb.state.counter ≡ 0) where
    begun-IsLogging : IsLogging (past ++ (first_record ∷ [])) blocks begun
    begun-IsLogging = record {
      deep = deep;
      int_depth = int_depth;
      room = length-set hb.log 0 first_record ∙ room;
      inside = omega (arith, logging.fresh none_past);
      counted = omega (arith, length-append past (first_record ∷ []));
      content =
          ap (λ t. blocks ++ take (hb.state.buffer_index + 1) (set hb.log t first_record))
            (sym (logging.fresh none_past).0)
          ∙ extended first_record;
      printed = logging.printed;
      started = ground arith;
      stamped = ground arith;
      fresh = λ z. absurd (omega arith);
      reading = λ _. inl (omega (arith, logging.fresh none_past));
      window_room = length-set hb.window 0 (pos 0) ∙ logging.window_room;
      window_inside = logging.window_inside;
    }

    first_beat-HasLogged : HasLogged past tag time (first_beat hb tag time >>= λ h. some (h, time))
    unfolding first_beat hb_get_current
    first_beat-HasLogged = record {
      next = begun;
      entry = first_record;
      blocks = blocks;
      returned = rw (
        store-eq-set hb.window 0 (pos 0) (omega arith),
        store-eq-set hb.log 0 first_record (omega arith),
      );
      beat = counted;
      tagged = refl;
      timed = refl;
      logging = begun-IsLogging;
      current =
          rw ((logging.fresh none_past).1) (get_elem?-set_self hb.log 0 first_record (omega arith));
    }

  -- A heartbeat of a registered application returns. It logs a record with the number of the beat,
  -- the tag and the time behind all the records before, keeps the invariant, and leaves the record
  -- where `hb_get_current` reads.
  pub heartbeat-HasLogged : HasLogged past tag time (heartbeat hb tag time)
  unfolding heartbeat
  heartbeat-HasLogged = elim (Bool-cases (hb.state.counter == 0)) [
    | inl none_past ↦ rw (logging.stamped, none_past) (first_beat-HasLogged (ground arith))
    | inr some_past ↦ rw (logging.stamped, some_past) (later_beat-HasLogged (ground arith))
  ]
