-- ===== src/System/Tags.antt =====
-- What the loop of src/system.c keeps.
use mathlib.Core.List.{append-nil, append_assoc}
use heartbeats.Base.{
  ℕ, zero, suc, ◌+◌, ◌≤◌, ◌<◌, ◌≡◌, refl, ap, ◌∙◌, sym, true, false, Option, none, some, List, [],
  ◌∷◌, ◌++◌, arith, if◌then◌else◌, length, take, set, store-eq-set, length-set, take-set, ℤ, pos,
  negsuc, ◌-ℤ◌, ltb_ℤ, eqb_ℤ, Bool-cases, inl, inr,
}
use heartbeats.Heartbeat.{HeartbeatRecord}
use heartbeats.Adapt.{HeartData, Reading}
use heartbeats.System.{Watch, next, watch}

-- The tag before the first one that may follow.
abbrev pub tag_at : ℕ → ℤ
tag_at zero = negsuc 0
tag_at (suc t) = pos t

below :
    (from max : ℕ) (last : ℤ)
    → last ≡ tag_at from
    → ltb_ℤ last (pos max -ℤ pos 1) ≡ true
    → from < max
unfolding ◌-ℤ◌
below zero max last e more = ground arith
below (suc t) max last e more = ground arith

again :
    (from t : ℕ) (tag last : ℤ)
    → last ≡ tag_at from
    → tag ≡ pos t
    → eqb_ℤ tag last ≡ true
    → from ≡ suc t
again zero t tag last e e' same = absurd (ground arith)
again (suc s) t tag last e e' same = ground arith

fresh :
    (from t : ℕ) (tag last : ℤ)
    → last ≡ tag_at from
    → tag ≡ pos t
    → from ≤ suc t
    → eqb_ℤ tag last ≡ false
    → from ≤ t
fresh zero t tag last e e' up other = omega arith
fresh (suc s) t tag last e e' up other = ground arith

-- What is kept of a record.
abbrev pub kept : {D : Type 0} → HeartbeatRecord D → HeartData D
kept r = record { tag = r.tag; rate = r.window_rate }

module _ {D : Type 0} (max : ℕ) where
  -- The records with a tag that is not that of the one before, up to the first whose tag has come to
  -- `max - 1`. The first argument is the tag of the one before.
  abbrev pub new_tags : ℤ → List (Reading D) → List (HeartData D)
  new_tags last [] = []
  new_tags last (none ∷ readings) = new_tags last readings
  new_tags last (some r ∷ readings) =
      if ltb_ℤ last (pos max -ℤ pos 1)
      then (if eqb_ℤ r.tag last then new_tags last readings else kept r ∷ new_tags r.tag readings)
      else []

  -- Readings whose tags do not fall, from the number of the tags that may have been.
  abbrev pub AreRising : ℕ → List (Reading D) → Type 0
  AreRising from [] = Unit {0}
  AreRising from (none ∷ readings) = AreRising from readings
  AreRising from (some r ∷ readings) =
      (t : ℕ) × (r.tag ≡ pos t) × (from ≤ suc t) × AreRising (suc t) readings

  -- The loop stands at the tag before `from`, and has kept no more records than there were tags.
  record IsWatching (from : ℕ) (w : Watch D) : Type 0 where
    here : w.last_tag ≡ tag_at from
    few : w.i ≤ from
    room : length w.records ≡ max

  record HasWatched (w : Watch D) (news : List (HeartData D)) (out : Option (Watch D))
      : Type 0 where
    w' : Watch D
    returned : out ≡ some w'
    content : take w'.i w'.records ≡ take w.i w.records ++ news
    counted : w'.i ≡ w.i + length news
    room : length w'.records ≡ max

  stays : (w : Watch D) → length w.records ≡ max → HasWatched w [] (some w)
  stays w room = record {
    w' = w;
    returned = refl;
    content = sym (append-nil (take w.i w.records));
    counted = omega arith;
    room = room;
  }

  -- The loop's state after a record has been kept.
  abbrev put : Watch D → HeartData D → Watch D
  put w k = record { last_tag = k.tag; i = w.i + 1; records = set w.records w.i k }

  behind :
      (w : Watch D) (k : HeartData D) (news : List (HeartData D)) (out : Option (Watch D))
      → w.i < length w.records
      → HasWatched (put w k) news out
      → HasWatched w (k ∷ news) out
  behind w k news out low rest =
      let next_i : w.i + 1 ≡ suc w.i = omega arith in
      record {
        w' = rest.w';
        returned = rest.returned;
        content =
            rest.content
            ∙ (ap (λ ys. ys ++ news)
                  (ap (λ n. take n (set w.records w.i k)) next_i ∙ take-set w.i w.records k low)
                ∙ append_assoc (take w.i w.records) (k ∷ []) news);
        counted = omega (arith, rest.counted);
        room = rest.room;
      }

  over :
      (readings : List (Reading D)) (w : Watch D)
      → ltb_ℤ w.last_tag (pos max -ℤ pos 1) ≡ false
      → watch max readings w ≡ some w
  unfolding watch next
  over [] w h = refl
  over (none ∷ readings) w h = over readings w h
  over (some r ∷ readings) w h = rw (watch, next, h) (over readings w h)

  watch-HasWatched :
      (readings : List (Reading D)) (from : ℕ) (w : Watch D)
      → IsWatching from w
      → AreRising from readings
      → HasWatched w (new_tags w.last_tag readings) (watch max readings w)
  unfolding watch next
  watch-HasWatched [] from w at rising = stays w at.room
  watch-HasWatched (none ∷ readings) from w at rising = watch-HasWatched readings from w at rising
  watch-HasWatched (some r ∷ readings) from w at (t, e, up, rising) =
      elim (Bool-cases (ltb_ℤ w.last_tag (pos max -ℤ pos 1))) [
        | inr done ↦
            rw (new_tags, watch, next, done)
              (record {
                w' = w;
                returned = over readings w done;
                content = sym (append-nil (take w.i w.records));
                counted = omega arith;
                room = at.room;
              })
        | inl more ↦ elim (Bool-cases (eqb_ℤ r.tag w.last_tag)) [
          | inl same ↦
              let from' = again from t r.tag w.last_tag at.here e same in
              rw (new_tags, watch, next, more, same)
                (watch-HasWatched readings (suc t) w
                  (record {
                    here = at.here ∙ ap tag_at from';
                    few = omega (arith, at.few);
                    room = at.room;
                  })
                  rising)
          | inr new ↦
              let low = below from max w.last_tag at.here more in
              let stored = store-eq-set w.records w.i (kept r) (omega (arith, at.few, at.room)) in
              let rest =
                watch-HasWatched readings (suc t) (put w (kept r))
                  (record {
                    here = e;
                    few = omega (arith, at.few, fresh from t r.tag w.last_tag at.here e up new);
                    room = length-set w.records w.i (kept r) ∙ at.room;
                  })
                  rising in
              rw (new_tags, watch, next, more, new, stored)
                (behind w (kept r) (new_tags r.tag readings) _ (omega (arith, at.few, at.room))
                  rest)
        ]
      ]

  -- Over any readings whose tags are not negative and do not fall, and with a block of `max` places,
  -- the loop does not write behind the block. It has kept, in order, the tag and the rate of each
  -- record whose tag is not that of the record before, up to the first with a tag of `max - 1` or
  -- more.
  pub watch_lem :
      (readings : List (Reading D)) (block : List (HeartData D))
      → length block ≡ max
      → AreRising 0 readings
      → (w : Watch D) × (watch max readings (record { last_tag = negsuc 0; i = 0; records = block })
          ≡ some w)
        × (take w.i w.records ≡ new_tags (negsuc 0) readings)
        × (w.i ≡ length (new_tags (negsuc 0) readings))
        × (length w.records ≡ max)
  watch_lem readings block room rising =
      let start : Watch D = record { last_tag = negsuc 0; i = 0; records = block } in
      let all =
        watch-HasWatched readings 0 start (record { here = refl; few = omega arith; room = room })
          rising in
      (all.w', all.returned, all.content, omega (arith, all.counted), all.room)
