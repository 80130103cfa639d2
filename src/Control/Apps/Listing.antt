-- ===== src/Control/Apps/Listing.antt =====
-- Which processes `get_heartbeat_apps` lists.
use Prim.Native.String.{String}
use mathlib.Core.List.{append-nil, append_assoc}
use heartbeats.Base.{
  ℕ, zero, suc, ◌+◌, ◌≡◌, refl, ap, ◌∙◌, sym, Bool, true, false, Option, none, some, List, [], ◌∷◌,
  ◌++◌, arith, if◌then◌else◌, ltb, length, take, set, store-eq-set, length-set, take-set, ℤ, pos,
  negsuc, to_int32, Bool-cases, inl, inr,
}
use heartbeats.Control.Apps.{is_dots, apps_from, get_heartbeat_apps}

module _ (strtol : String → ℤ × Bool) where
  -- The processes that the names of a directory stand for, in order.
  abbrev pub pids_named : List String → List ℤ
  pids_named [] = []
  pids_named (name ∷ names) =
      if is_dots name
      then pids_named names
      else if (strtol name).1
      then to_int32 (strtol name).0 ∷ pids_named names
      else pids_named names

  -- The loop has put `left` more of `named` behind the `count` that were there, or all of them.
  record HasListed (maxcount count left : ℕ) (named pids : List ℤ) (out : Option (List ℤ × ℕ))
      : Type 0 where
    pids' : List ℤ
    total : ℕ
    returned : out ≡ some (pids', total)
    listed : take total pids' ≡ take count pids ++ take left named
    counted : total ≡ count + length (take left named)
    room : length pids' ≡ maxcount

  stops :
      (maxcount count left : ℕ) (named pids : List ℤ)
      → length pids ≡ maxcount
      → take left named ≡ []
      → HasListed maxcount count left named pids (some (pids, count))
  stops maxcount count left named pids room none_left = record {
    pids' = pids;
    total = count;
    returned = refl;
    listed = rw none_left (sym (append-nil (take count pids)));
    counted = rw none_left (omega arith);
    room = room;
  }

  apps_from-HasListed :
      (maxcount count left : ℕ) (names : List String) (pids : List ℤ)
      → count + left ≡ maxcount
      → length pids ≡ maxcount
      → HasListed maxcount count left
          (pids_named names)
          pids
          (apps_from strtol maxcount names pids count)
  unfolding apps_from
  apps_from-HasListed maxcount count zero [] pids sum room =
      stops maxcount count zero [] pids room refl
  apps_from-HasListed maxcount count zero (name ∷ names) pids sum room =
      let over : ltb count maxcount ≡ false = ground arith in
      rw (apps_from, over) (stops maxcount count zero (pids_named (name ∷ names)) pids room refl)
  apps_from-HasListed maxcount count (suc left) [] pids sum room =
      stops maxcount count (suc left) [] pids room refl
  apps_from-HasListed maxcount count (suc left) (name ∷ names) pids sum room =
      let more : ltb count maxcount ≡ true = ground arith in
      elim (Bool-cases (is_dots name)) [
        | inl dots ↦
            rw (apps_from, more, dots)
              (apps_from-HasListed maxcount count (suc left) names pids sum room)
        | inr other ↦ elim (Bool-cases ((strtol name).1)) [
          | inl number ↦
              let pid = to_int32 (strtol name).0 in
              let stored = store-eq-set pids count pid (omega arith) in
              let rest =
                apps_from-HasListed maxcount (suc count) left names (set pids count pid)
                  (omega arith) (length-set pids count pid ∙ room) in
              rw (apps_from, more, other, number, stored)
                (record {
                  pids' = rest.pids';
                  total = rest.total;
                  returned = rest.returned;
                  listed =
                      rest.listed
                      ∙ (ap (λ ys. ys ++ take left (pids_named names))
                            (take-set count pids pid (omega arith))
                          ∙ append_assoc (take count pids) (pid ∷ [])
                              (take left (pids_named names)));
                  counted = omega (arith, rest.counted);
                  room = rest.room;
                })
          | inr text ↦
              rw (apps_from, more, other, text)
                (apps_from-HasListed maxcount count (suc left) names pids sum room)
        ]
      ]

  -- In an array of `maxcount` places, `get_heartbeat_apps` puts the processes that the names of the
  -- directory stand for, in their order, the first `maxcount` of them if there are more, and returns
  -- how many it has put there. The names . and .. and those that are not a number do not count. If the
  -- directory does not open, it returns -1 and leaves the array.
  pub get_heartbeat_apps_lem :
      (names : List String) (pids : List ℤ) (maxcount : ℕ)
      → length pids ≡ maxcount
      → (get_heartbeat_apps strtol none pids maxcount ≡ some (pids, negsuc 0))
        × (pids' : List ℤ) × (count : ℕ) × (get_heartbeat_apps strtol (some names) pids maxcount
            ≡ some (pids', pos count))
        × (take count pids' ≡ take maxcount (pids_named names))
        × (count ≡ length (take maxcount (pids_named names)))
        × (length pids' ≡ maxcount)
  unfolding get_heartbeat_apps
  get_heartbeat_apps_lem names pids maxcount room =
      let all = apps_from-HasListed maxcount 0 maxcount names pids (omega arith) room in
      (
        refl,
        all.pids',
        all.total,
        rw (get_heartbeat_apps, all.returned) refl,
        all.listed,
        omega (arith, all.counted),
        all.room,
      )
