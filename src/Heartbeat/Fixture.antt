-- ===== src/Heartbeat/Fixture.antt =====
-- Data for the runs: an application with a window of one and a ring of two records.
use heartbeats.Base.{inl, refl, true, false, none, some, List, [], ◌∷◌, arith, ℤ, pos, negsuc, inr}
use heartbeats.Heartbeat.{HeartbeatRecord, GlobalState, Heartbeat, Answers}
use heartbeats.Heartbeat.Invariant.{IsLogging}

abbrev pub blank : HeartbeatRecord ℤ
blank = record {
  beat = 0;
  tag = pos 0;
  timestamp = pos 0;
  global_rate = pos 0;
  window_rate = pos 0;
  instant_rate = pos 0;
}

abbrev pub stale : GlobalState ℤ
stale = record {
  pid = pos 1;
  min_heartrate = pos 0;
  max_heartrate = pos 0;
  window_size = 0;
  counter = 5;
  buffer_depth = 0;
  buffer_index = 0;
  read_index = 0;
  valid = true;
}

abbrev pub unset : Heartbeat ℤ
unset = record {
  first_timestamp = pos 0;
  last_timestamp = pos 0;
  window = [];
  current_index = 0;
  steady_state = false;
  last_average_time = pos 0;
  log = [];
  text_file = none;
  state = stale;
}

abbrev pub answers : Answers ℤ
answers = record {
  pid = pos 42;
  state_segment = some stale;
  log_segment = some (blank ∷ blank ∷ []);
  window_block = pos 0 ∷ [];
  enabled_dir = true;
  text_opens = true;
  file_opens = true;
}

-- A registered application with a window of one and a ring of two records, which prints.
abbrev pub ready : Heartbeat ℤ
ready = record {
  first_timestamp = negsuc 0;
  last_timestamp = negsuc 0;
  window = pos 0 ∷ [];
  current_index = 0;
  steady_state = false;
  last_average_time = pos 0;
  log = blank ∷ blank ∷ [];
  text_file = some [];
  state = record stale {
    pid = pos 42;
    min_heartrate = pos 10;
    max_heartrate = pos 20;
    window_size = 1;
    counter = 0;
    buffer_depth = 2;
    valid = false;
  };
}

pub ready-IsLogging : IsLogging [] [] ready
ready-IsLogging = record {
  deep = omega arith;
  int_depth = omega arith;
  room = refl;
  inside = omega arith;
  counted = refl;
  content = refl;
  printed = λ text e. ground arith;
  started = refl;
  stamped = refl;
  fresh = λ z. (refl, refl);
  reading = λ n. absurd (n refl);
  window_room = refl;
  window_inside = omega arith;
}

-- The same after one beat.
abbrev pub once : Heartbeat ℤ
once = record ready {
  first_timestamp = pos 0;
  last_timestamp = pos 0;
  state = record ready.state { counter = 1; buffer_index = 1; valid = true };
}

pub once-IsLogging : IsLogging (blank ∷ []) [] once
once-IsLogging = record {
  deep = omega arith;
  int_depth = omega arith;
  room = refl;
  inside = omega arith;
  counted = refl;
  content = refl;
  printed = λ text e. ground arith;
  started = refl;
  stamped = refl;
  fresh = λ z. absurd (omega arith);
  reading = λ n. inl refl;
  window_room = refl;
  window_inside = omega arith;
}

-- The same after two beats, which fill the ring.
abbrev pub full_ring : List (HeartbeatRecord ℤ)
full_ring = blank ∷ record blank { beat = 1; timestamp = pos 9 } ∷ []

abbrev pub full : Heartbeat ℤ
full = record ready {
  first_timestamp = pos 0;
  last_timestamp = pos 9;
  steady_state = true;
  log = full_ring;
  text_file = some full_ring;
  state = record ready.state { counter = 2; read_index = 1; valid = true };
}

pub full-IsLogging : IsLogging full_ring full_ring full
full-IsLogging = record {
  deep = omega arith;
  int_depth = omega arith;
  room = refl;
  inside = omega arith;
  counted = refl;
  content = refl;
  printed = λ text e. ground arith;
  started = refl;
  stamped = refl;
  fresh = λ z. absurd (omega arith);
  reading = λ n. inr (refl, refl);
  window_room = refl;
  window_inside = omega arith;
}
