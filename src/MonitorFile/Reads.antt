-- ===== src/MonitorFile/Reads.antt =====
-- What a monitor reads of the file.
use heartbeats.Base.{
  ℕ, ◌+◌, ◌-◌, ◌≡◌, refl, none, some, List, [], ◌∷◌, ◌++◌, arith, length, drop, leb, true, ℤ, pos,
  ◌≤ℤ◌, length-append, Option,
}
use heartbeats.Double.{Double}
use heartbeats.Heartbeat.{HeartbeatRecord}
use heartbeats.HeartbeatFile.{FileHeartbeat, BinaryFile, heartbeat}
use heartbeats.HeartbeatFile.Session.{IsFiling, heartbeat-HasFiled}
use heartbeats.MonitorFile.{FileMonitor, hrm_get_current, hrm_get_history, last_records}

module _ {D : Type 0} where
  drop-append :
      (xs : List (HeartbeatRecord D)) (x : HeartbeatRecord D)
      → drop (length xs) (xs ++ (x ∷ [])) ≡ x ∷ []
  drop-append [] x = refl
  drop-append (y ∷ xs) x = drop-append xs x

  last_records_lem :
      (file : BinaryFile D) (past : List (HeartbeatRecord D)) (entry : HeartbeatRecord D)
      → file.records ≡ past ++ (entry ∷ [])
      → last_records 1 file ≡ some (entry ∷ [])
  last_records_lem file past entry e =
      let size : length (past ++ (entry ∷ [])) ≡ length past + 1 =
        length-append past (entry ∷ []) in
      let enough : leb 1 (length past + 1) ≡ true = ground arith in
      let place : length past + 1 - 1 ≡ length past = omega arith in
      rw (e, size, enough, place, drop-append past entry) refl

  hrm_get_current_lem :
      (hrm : FileMonitor D) (file : BinaryFile D) (entry : HeartbeatRecord D)
      → last_records 1 file ≡ some (entry ∷ [])
      → hrm_get_current (some file) hrm ≡ some (record hrm { file = none }, some entry, 0)
  unfolding hrm_get_current
  hrm_get_current_lem hrm file entry e = ground (arith, e)

module _ {D : Type 0} ⦃d : Double D⦄ (past : List (HeartbeatRecord D)) (hb : FileHeartbeat D)
    (filing : IsFiling past hb) (tag time : ℤ) (nonneg : pos 0 ≤ℤ time) (hrm : FileMonitor D) where
  -- A process that is registered, and whose file opens, registers a heartbeat. A monitor that then
  -- reads the file copies the record of this very heartbeat, with its number, its tag and its time,
  -- and returns 0. It leaves its file closed.
  pub hrm_get_current-newest :
      (next : FileHeartbeat D) × (entry : HeartbeatRecord D) × (heartbeat hb tag time true
        ≡ some (next, time))
      × (hrm_get_current (some next.file) hrm ≡ some (record hrm { file = none }, some entry, 0))
      × (entry.beat ≡ length past)
      × (entry.tag ≡ tag)
      × (entry.timestamp ≡ time)
  unfolding hrm_get_current
  hrm_get_current-newest =
      let one = heartbeat-HasFiled past hb filing tag time nonneg in
      let found = last_records_lem one.next.file past one.entry one.filing.filed in
      (
        one.next,
        one.entry,
        one.returned,
        hrm_get_current_lem hrm one.next.file one.entry found,
        one.beat,
        one.tagged,
        one.timed,
      )

module _ {D : Type 0} where
  -- Whatever the file holds, once `hrm_get_current` has returned, the file is closed, and
  -- `hrm_get_history` is a fault for any array and any number of records.
  pub hrm_get_history_after :
      (opened : Option (BinaryFile D)) (hrm hrm' : FileMonitor D)
      (found : Option (HeartbeatRecord D)) (code : ℕ) (records : List (HeartbeatRecord D)) (n : ℕ)
      → hrm_get_current opened hrm ≡ some (hrm', found, code)
      → hrm_get_history hrm' records n ≡ none
  unfolding hrm_get_current hrm_get_history
  hrm_get_history_after opened hrm hrm' found code records n e = ground (arith, e)
