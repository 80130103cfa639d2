-- ===== src/HeartbeatFile/Fixture.antt =====
-- Data for the runs: a process with a window of one and a ring of two records, and an empty file.
use heartbeats.Base.{refl, [], arith, ℤ, pos}
use heartbeats.Heartbeat.Fixture.{ready}
use heartbeats.HeartbeatFile.{BinaryFile, FileHeartbeat}
use heartbeats.HeartbeatFile.Session.{IsFiling}

abbrev pub empty_file : BinaryFile ℤ
empty_file = record {
  min_heartrate = pos 10;
  max_heartrate = pos 20;
  window_size = 0;
  records = [];
}

abbrev pub filing : FileHeartbeat ℤ
filing = record { shared = ready; window_size = 1; file = empty_file }

pub filing-IsFiling : IsFiling [] filing
filing-IsFiling = record {
  deep = omega arith;
  int_depth = omega arith;
  room = refl;
  inside = omega arith;
  counted = refl;
  stamped = refl;
  fresh = λ z. refl;
  filed = refl;
  window_room = refl;
  window_inside = omega arith;
}
