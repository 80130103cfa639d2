-- ===== src/System/Tests.antt =====
-- A run over five readings, of which three have a new tag.
use heartbeats.Base.{
  ℕ, ◌≡◌, refl, none, some, List, [], ◌∷◌, arith, length, take, ℤ, pos, negsuc, ◌-ℤ◌,
}
use heartbeats.Heartbeat.{HeartbeatRecord}
use heartbeats.Heartbeat.Fixture.{blank}
use heartbeats.Adapt.{HeartData, Reading}
use heartbeats.System.{Watch, watch}
use heartbeats.System.Tags.{new_tags, watch_lem}

abbrev tagged : ℕ → ℤ → HeartbeatRecord ℤ
tagged t rate = record blank { tag = pos t; window_rate = rate }

abbrev readings : List (Reading ℤ)
readings =
    none
    ∷ some (tagged 0 (pos 5))
    ∷ some (tagged 0 (pos 6))
    ∷ some (tagged 1 (pos 7))
    ∷ some (tagged 4 (pos 8))
    ∷ []

abbrev empty : HeartData ℤ
empty = record { tag = pos 0; rate = pos 0 }

abbrev block : List (HeartData ℤ)
block = empty ∷ empty ∷ empty ∷ empty ∷ []

watch_lem_example :
    (w : Watch ℤ) × (watch 4 readings (record { last_tag = negsuc 0; i = 0; records = block })
      ≡ some w)
    × (take w.i w.records ≡ new_tags 4 (negsuc 0) readings)
    × (w.i ≡ length (new_tags 4 (negsuc 0) readings))
    × (length w.records ≡ 4)
watch_lem_example = watch_lem 4 readings block refl (
  0,
  refl,
  omega arith,
  (0, refl, omega arith, (1, refl, omega arith, (4, refl, omega arith, tt))),
)

three_new :
    new_tags 4 (negsuc 0) readings
    ≡ record { tag = pos 0; rate = pos 5 }
      ∷ record { tag = pos 1; rate = pos 7 }
      ∷ record { tag = pos 4; rate = pos 8 }
      ∷ []
unfolding ◌-ℤ◌
three_new = refl
