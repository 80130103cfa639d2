-- ===== src/Control/Apps.antt =====
-- The search for the application in src/combined.c: `get_heartbeat_apps` on a directory, and the loop
-- of `main` that calls it.
--
-- What `readdir` returns, entry by entry, and `strtol` are parameters: the latter gives a number,
-- and whether it has read the whole name.
pub mod Listing
mod Tests
use Prim.Native.String.{String}
use text.Mathlib.Text.{◌==◌}
use heartbeats.Base.{
  ℕ, suc, Bool, true, false, ◌||◌, Option, none, some, List, [], ◌∷◌, if◌then◌else◌, ltb, store, ℤ,
  pos, negsuc, to_int32, eqb_ℤ,
}
use heartbeats.Control.Outcome.{Outcome, ok, fault}

abbrev pub is_dots : String → Bool
is_dots name = name == "." || name == ".."

module _ (strtol : String → ℤ × Bool) where
  -- The loop over the entries that are left, with the array `pids` of which `count` are set.
  pub apps_from : ℕ → List String → List ℤ → ℕ → Option (List ℤ × ℕ)
  apps_from maxcount [] pids count = some (pids, count)
  apps_from maxcount (name ∷ names) pids count = elim (ltb count maxcount) [
    | false ↦ some (pids, count)
    | true ↦ elim (is_dots name) [
      | true ↦ apps_from maxcount names pids count
      | false ↦ elim ((strtol name).1) [
        | true ↦ elim (store pids count (to_int32 (strtol name).0)) [
          | none ↦ none
          | some pids' ↦ apps_from maxcount names pids' (suc count)
        ]
        | false ↦ apps_from maxcount names pids count
      ]
    ]
  ]

  -- The entries are `none` where the directory does not open.
  pub get_heartbeat_apps : Option (List String) → List ℤ → ℕ → Option (List ℤ × ℤ)
  unfolding apps_from
  get_heartbeat_apps none pids maxcount = some (pids, negsuc 0)
  get_heartbeat_apps (some names) pids maxcount = elim (apps_from maxcount names pids 0) [
    | none ↦ none
    | some (pids', count) ↦ some (pids', pos count)
  ]

  -- The loop that waits for an application, over what the directory has at each call, with the array
  -- of 16 that `main` has. While none has come, it waits on.
  pub wait_for_app : List (Option (List String)) → List ℤ → Outcome (Option (List ℤ × ℤ))
  unfolding get_heartbeat_apps
  wait_for_app [] apps = ok none
  wait_for_app (entries ∷ later) apps = elim (get_heartbeat_apps entries apps 16) [
    | none ↦ fault
    | some (apps', n_apps) ↦ elim (eqb_ℤ n_apps (pos 0)) [
      | true ↦ wait_for_app later apps'
      | false ↦ ok (some (apps', n_apps))
    ]
  ]
