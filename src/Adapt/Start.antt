-- ===== src/Adapt/Start.antt =====
-- How src/core-allocator.c, src/frequencyscaler1.c and src/frequencyscaler2.c come to their loop: the
-- environment, the list of the applications, and the monitor of the one application.
use heartbeats.Base.{
  ℕ, suc, Bool, not, Option, none, some, List, [], ◌∷◌, length, ltb, ℤ, if◌then◌else◌, ◌>>=◌, ◌≡◌,
  refl, arith,
}
use heartbeats.Monitor.{HeartRateMonitor}

-- `waiting`: no application has been listed yet. `exited` has the status of the process.
pub data Started (A : Type 0) : Type 0 where
  waiting : Started A
  exited : ℕ → Started A
  ready : A → Started A

abbrev pub then_start :
    {A B : Type 0} → Option (Started A) → (A → Option (Started B)) → Option (Started B)
then_start none f = none
then_start (some waiting) f = some waiting
then_start (some (exited code)) f = some (exited code)
then_start (some (ready a)) f = f a

-- What the loop on `n == 0` ends with: the first listing that is not empty, as its first process and
-- the others.
abbrev pub first_listing : List (List ℤ) → Option (ℤ × List ℤ)
first_listing [] = none
first_listing ([] ∷ listings) = first_listing listings
first_listing ((app ∷ apps) ∷ listings) = some (app, apps)

module _ {D : Type 0} where
  -- The listings are the answers of `get_heartbeat_apps`; `init` is `heart_rate_monitor_init`. Its
  -- return code is only printed, and the state is then read.
  unfoldable pub attach :
      Bool
      → List (List ℤ)
      → (ℤ → HeartRateMonitor D × ℕ)
      → Option (Started (ℤ × HeartRateMonitor D))
  attach enabled_dir listings init =
      if not enabled_dir then some (exited 1) else elim (first_listing listings) [
        | none ↦ some waiting
        | some (app, apps) ↦
            let (heart, rc) = init app in
            if ltb 1 (suc (length apps))
            then some (exited 2)
            else (heart.state >>= λ state. some (ready (app, heart)))
      ]

pub then_start-ready :
    {A B : Type 0} (m : Option (Started A)) (f : A → Option (Started B)) (b : B)
    → then_start m f ≡ some (ready b)
    → (a : A) × (m ≡ some (ready a)) × (f a ≡ some (ready b))
then_start-ready none f b e = absurd (ground arith)
then_start-ready (some waiting) f b e = absurd (ground arith)
then_start-ready (some (exited code)) f b e = absurd (ground arith)
then_start-ready (some (ready a)) f b e = (a, refl, e)

pub ready-injective : {A : Type 0} (a b : A) → some (ready a) ≡ some (ready b) → a ≡ b
ready-injective a b e = cc
