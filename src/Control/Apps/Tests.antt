-- ===== src/Control/Apps/Tests.antt =====
-- A directory with one process in it.
use Prim.Native.String.{String}
use text.Mathlib.Text.{◌==◌}
use heartbeats.Base.{
  ℕ, ◌≡◌, refl, Bool, true, false, none, some, List, [], ◌∷◌, if◌then◌else◌, length, take, ℤ, pos,
  negsuc,
}
use heartbeats.Control.Apps.{get_heartbeat_apps}
use heartbeats.Control.Apps.Listing.{pids_named, get_heartbeat_apps_lem}

abbrev number_of : String → ℤ × Bool
number_of name = if name == "42" then (pos 42, true) else (pos 0, false)

abbrev names : List String
names = "." ∷ ".." ∷ "lock" ∷ "42" ∷ []

get_heartbeat_apps_lem_example :
    (get_heartbeat_apps number_of none (pos 0 ∷ pos 0 ∷ []) 2 ≡ some (pos 0 ∷ pos 0 ∷ [], negsuc 0))
    × (pids' : List ℤ) × (count : ℕ) × (get_heartbeat_apps number_of
          (some names)
          (pos 0 ∷ pos 0 ∷ [])
          2
        ≡ some (pids', pos count))
    × (take count pids' ≡ take 2 (pids_named number_of names))
    × (count ≡ length (take 2 (pids_named number_of names)))
    × (length pids' ≡ 2)
get_heartbeat_apps_lem_example = get_heartbeat_apps_lem number_of names (pos 0 ∷ pos 0 ∷ []) 2 refl

one_found :
    get_heartbeat_apps number_of (some names) (pos 0 ∷ pos 0 ∷ []) 2
    ≡ some (pos 42 ∷ pos 0 ∷ [], pos 1)
unfolding get_heartbeat_apps heartbeats.Base.int_of_u64 heartbeats.Base.u64_of_int
one_found = refl
