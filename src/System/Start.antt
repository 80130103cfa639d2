-- ===== src/System/Start.antt =====
-- The start of src/system.c: the applications that `ls` lists through a pipe, and the monitor.
--
-- The output of `ls` is the list of its lines, and `atoi` a parameter. A failed assertion ends the
-- program, here as an exit.
use Prim.Native.String.{String}
use heartbeats.Base.{
  ℕ, ◌+◌, Bool, true, false, Option, none, some, List, [], ◌∷◌, ◌==◌, if◌then◌else◌, store,
  get_elem?, ℤ, negsuc,
}
use heartbeats.Monitor.{HeartRateMonitor}
use heartbeats.Adapt.{HeartData}
use heartbeats.Control.Outcome.{Outcome, ok, exit, need, ◌>>=◌}
use heartbeats.System.{Watch}

-- Why the program could not list the applications, if so.
pub record Pipe : Type 0 where
  pub pipe_opens : Bool
  pub forks : Bool
  pub lines : List String

module _ (atoi : String → ℤ) where
  -- The loop over the lines that are left, with the array `apps` and the count so far. Both arrays of
  -- the source have 1024 places.
  pub list_apps : List String → List ℤ → ℕ → Option (List ℤ × ℕ)
  list_apps [] apps count = some (apps, count)
  list_apps (line ∷ lines) apps count = elim (store apps count (atoi line)) [
    | none ↦ none
    | some apps' ↦ list_apps lines apps' (count + 1)
  ]

  pub get_heartbeat_apps : Pipe → List ℤ → Outcome (List ℤ × ℕ)
  unfolding list_apps
  get_heartbeat_apps pipe apps =
      if pipe.pipe_opens
      then (if pipe.forks then need (list_apps pipe.lines apps 0) else exit 1)
      else exit 1

  -- The loop that waits for an application, over what is there at each call; `none` while it waits.
  pub wait_for_apps : List Pipe → List ℤ → Outcome (Option (List ℤ × ℕ))
  unfolding get_heartbeat_apps
  wait_for_apps [] apps = ok none
  wait_for_apps (pipe ∷ pipes) apps = get_heartbeat_apps pipe apps >>= λ out. elim (out.1 == 0) [
    | true ↦ wait_for_apps pipes out.0
    | false ↦ ok (some out)
  ]

module _ {D : Type 0} (attach : ℤ → HeartRateMonitor D × ℕ) where
  -- From the applications found to the loop, with the block that `malloc` returns. A return code that
  -- is not 0 is only printed, but the state is looked at.
  pub begin : List (HeartData D) → List ℤ × ℕ → Outcome (HeartRateMonitor D × Watch D)
  begin block (apps, n) =
      if n == 1
      then (do
        app ← need (get_elem? apps 0)
        let (heart, rc) = attach app
        state ← need heart.state
        ok (heart, record { last_tag = negsuc 0; i = 0; records = block }))
      else exit 134

  -- `main` up to its loop; `none` while it waits for an application.
  pub set_up :
      (String → ℤ)
      → Bool
      → List Pipe
      → List ℤ
      → List (HeartData D)
      → Outcome (Option (HeartRateMonitor D × Watch D))
  unfolding begin
  set_up atoi enabled_dir pipes apps block =
      if enabled_dir
      then (wait_for_apps atoi pipes apps >>= λ found. elim found [
        | none ↦ ok none
        | some listed ↦ begin block listed >>= λ ready. ok (some ready)
      ])
      else exit 1
