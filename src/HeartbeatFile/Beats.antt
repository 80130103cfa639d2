-- ===== src/HeartbeatFile/Beats.antt =====
-- From `heartbeat_init` through any number of heartbeats.
use mathlib.Core.List.{append-nil, append_assoc}
use heartbeats.Base.{
  ℕ, ◌^◌, ◌≤◌, ◌<◌, ◌≡◌, refl, ap₂, ◌∙◌, sym, subst, Bool, true, Option, some, List, [], ◌∷◌, ◌++◌,
  map, arith, ◌>>=◌,
}
use heartbeats.Double.{Double}
use heartbeats.Heartbeat.{HeartbeatRecord, Answers, open_text}
use heartbeats.Heartbeat.Session.{Call, AfterEpoch, IsRoomy, call_of}
use heartbeats.HeartbeatFile.{FileHeartbeat, heartbeat, heartbeat_init}
use heartbeats.HeartbeatFile.Session.{IsFiling, heartbeat-HasFiled}

module _ {D : Type 0} (hb : FileHeartbeat D) (answers : Answers D) (lo hi : D)
    (window_size buffer_depth : ℕ) (log_name : Bool) where
  -- Where `heartbeat_init` returns 0, the file is that of a process that has logged nothing, if the
  -- blocks that the system hands out are as large as the process asks for, its window is not empty
  -- and its ring holds at least two records and at most 2^31.
  pub heartbeat_init-IsFiling :
      (hb' : FileHeartbeat D) (block : List (HeartbeatRecord D))
      → answers.log_segment ≡ some block
      → IsRoomy answers window_size buffer_depth
      → 0 < window_size
      → 2 ≤ buffer_depth
      → buffer_depth ≤ 2 ^ 31
      → heartbeat_init hb answers lo hi window_size buffer_depth log_name ≡ some (hb', 0)
      → IsFiling [] hb'
  unfolding heartbeat_init open_text
  heartbeat_init-IsFiling hb' block attached roomy w deep int_depth e =
      let room = roomy.log_room block attached in
      record {
        deep = ground arith;
        int_depth = ground arith;
        room = ground (arith, room);
        inside = ground arith;
        counted = ground arith;
        stamped = ground arith;
        fresh = λ z. ground arith;
        filed = ground arith;
        window_room = ground (arith, roomy.window_room);
        window_inside = ground arith;
      }

-- The calls have returned: the file has all that was logged before, and a record for each call.
pub record HasFiledAll {D : Type 0} (past : List (HeartbeatRecord D)) (calls : List Call)
    (out : Option (FileHeartbeat D)) : Type 0 where
  pub next : FileHeartbeat D
  pub entries : List (HeartbeatRecord D)
  pub returned : out ≡ some next
  pub logged : map call_of entries ≡ calls
  pub all_filed : next.file.records ≡ past ++ entries
  pub filing : IsFiling (past ++ entries) next

module _ {D : Type 0} ⦃d : Double D⦄ where
  -- The heartbeats that an application registers, while its file can be opened.
  unfoldable pub file_beats : FileHeartbeat D → List Call → Option (FileHeartbeat D)
  file_beats hb [] = some hb
  file_beats hb ((tag, time) ∷ calls) = heartbeat hb tag time true >>= λ out. file_beats out.0 calls

  -- A registered process, whose file opens, can make any number of calls. Each of them returns, and
  -- the file then has the records before and one for each call, with its tag and time, in order.
  pub file_beats-HasFiledAll :
      (calls : List Call) (past : List (HeartbeatRecord D)) (hb : FileHeartbeat D)
      → IsFiling past hb
      → AfterEpoch calls
      → HasFiledAll past calls (file_beats hb calls)
  unfolding file_beats
  file_beats-HasFiledAll [] past hb filing after =
      let same : past ≡ past ++ [] = sym (append-nil past) in
      record {
        next = hb;
        entries = [];
        returned = refl;
        logged = refl;
        all_filed = filing.filed ∙ same;
        filing = subst (λ p. IsFiling p hb) same filing;
      }
  file_beats-HasFiledAll ((tag, time) ∷ calls) past hb filing (first, after) =
      let one = heartbeat-HasFiled past hb filing tag time first in
      let rest =
        file_beats-HasFiledAll calls (past ++ (one.entry ∷ [])) one.next one.filing after in
      let joined = append_assoc past (one.entry ∷ []) rest.entries in
      record {
        next = rest.next;
        entries = one.entry ∷ rest.entries;
        returned = rw (one.returned) rest.returned;
        logged = ap₂ ◌∷◌ (λ i. (one.tagged i, one.timed i)) rest.logged;
        all_filed = rest.all_filed ∙ joined;
        filing = subst (λ p. IsFiling p rest.next) joined rest.filing;
      }
