-- ===== src/HeartbeatFile/Tests.antt =====
-- Runs over whole numbers in place of `double`, and each theorem at an input.
use heartbeats.Base.{◌≡◌, refl, true, some, List, [], ◌∷◌, arith, ℤ, pos}
use heartbeats.Double.{whole}
use heartbeats.Heartbeat.Fixture.{blank, unset, answers}
use heartbeats.Heartbeat.Session.{Call, IsRoomy}
use heartbeats.HeartbeatFile.{FileHeartbeat, heartbeat_init, heartbeat}
use heartbeats.HeartbeatFile.Session.{IsFiling, HasFiled, heartbeat-HasFiled}
use heartbeats.HeartbeatFile.Beats.{
  HasFiledAll, file_beats, file_beats-HasFiledAll, heartbeat_init-IsFiling,
}
use heartbeats.HeartbeatFile.Fixture.{filing, filing-IsFiling}

one_filed : HasFiled [] (pos 7) (pos 1000) (heartbeat filing (pos 7) (pos 1000) true)
one_filed = heartbeat-HasFiled [] filing filing-IsFiling (pos 7) (pos 1000) (omega arith)

abbrev calls : List Call
calls = (pos 7, pos 1000) ∷ (pos 8, pos 2000) ∷ (pos 9, pos 4000) ∷ []

file_beats-HasFiledAll_example : HasFiledAll [] calls (file_beats filing calls)
file_beats-HasFiledAll_example =
    file_beats-HasFiledAll calls [] filing filing-IsFiling (omega arith)

abbrev before : FileHeartbeat ℤ
before = record filing { shared = unset }

-- The members `window_size` and `valid` of the state keep what the memory held.
abbrev begun : FileHeartbeat ℤ
begun = record filing {
  shared = record filing.shared {
    state = record filing.shared.state { window_size = 0; valid = true };
  };
}

init_runs : heartbeat_init before answers (pos 10) (pos 20) 1 2 true ≡ some (begun, 0)
unfolding heartbeat_init
init_runs = refl

roomy : IsRoomy answers 1 2
roomy = record { log_room = λ block e. ground arith; window_room = refl }

begun_files : IsFiling [] begun
begun_files =
    heartbeat_init-IsFiling before answers (pos 10) (pos 20) 1 2 true begun (blank ∷ blank ∷ [])
      refl roomy (omega arith) (omega arith) (omega arith) init_runs
