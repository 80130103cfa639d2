-- ===== src/Heartbeat/Stores/Fields.antt =====
-- The six stores that put a record in its place of the ring.
use heartbeats.Base.{
  ℕ, ◌<◌, ◌≤◌, ◌≡◌, refl, ap, Option, none, some, List, [], ◌∷◌, ◌++◌, length, get_elem?, set,
  ◌>>=◌, pos, get_elem?_fault, get_elem?-set_self, store-eq-set, length-set, suc, zero,
}
use heartbeats.Heartbeat.{HeartbeatRecord, Heartbeat}
use heartbeats.Heartbeat.Stores.{set_field, do_stores, record_stores}

set-set : {A : Type 0} (xs : List A) (i : ℕ) (a b : A) → set (set xs i a) i b ≡ set xs i b
set-set [] i a b = refl
set-set (x ∷ xs) zero a b = refl
set-set (x ∷ xs) (suc i) a b = ap (λ ys. x ∷ ys) (set-set xs i a b)

module _ {D : Type 0} where
  -- `hb` with `r` in place `i` of its ring.
  abbrev pub with_record : Heartbeat D → ℕ → HeartbeatRecord D → Heartbeat D
  with_record hb i r = record hb { log = set hb.log i r }

  set_field-first :
      (hb : Heartbeat D) (i : ℕ) (r : HeartbeatRecord D) (f : HeartbeatRecord D → HeartbeatRecord D)
      → i < length hb.log
      → get_elem? hb.log i ≡ some r
      → set_field (pos i) f hb ≡ some (with_record hb i (f r))
  unfolding set_field
  set_field-first hb i r f inside e = rw (e, store-eq-set hb.log i (f r) inside) refl

  set_field-again :
      (hb : Heartbeat D) (i : ℕ) (r : HeartbeatRecord D) (f : HeartbeatRecord D → HeartbeatRecord D)
      → i < length hb.log
      → set_field (pos i) f (with_record hb i r) ≡ some (with_record hb i (f r))
  unfolding set_field
  set_field-again hb i r f inside =
      rw
        (
          get_elem?-set_self hb.log i r inside,
          store-eq-set (set hb.log i r) i (f r) (rw (length-set hb.log i r) inside),
          set-set hb.log i r (f r),
        )
        refl

  -- The record in place after one store, after two, and so on up to five.
  abbrev pub partly : HeartbeatRecord D → HeartbeatRecord D → List (HeartbeatRecord D)
  partly old r =
      record old { beat = r.beat }
      ∷ record old { beat = r.beat; tag = r.tag }
      ∷ record old { beat = r.beat; tag = r.tag; timestamp = r.timestamp }
      ∷ record r { global_rate = old.global_rate; instant_rate = old.instant_rate }
      ∷ record r { global_rate = old.global_rate }
      ∷ r
      ∷ []

  abbrev pub map_records : Heartbeat D → ℕ → List (HeartbeatRecord D) → List (Heartbeat D)
  map_records hb i [] = []
  map_records hb i (r ∷ rs) = with_record hb i r ∷ map_records hb i rs

  -- Six stores put the record in its place.
  pub do_stores-record_stores :
      (hb : Heartbeat D) (i : ℕ) (old r : HeartbeatRecord D)
      (more : List (Heartbeat D → Option (Heartbeat D)))
      → i < length hb.log
      → get_elem? hb.log i ≡ some old
      → do_stores (record_stores (pos i) r ++ more) hb ≡ (
          do_stores more (with_record hb i r) >>= λ states.
          some (map_records hb i (partly old r) ++ states))
  unfolding do_stores
  do_stores-record_stores hb i old r more inside e =
      rw
        (
          set_field-first hb i old (λ x. record x { beat = r.beat }) inside e,
          set_field-again hb i (record old { beat = r.beat }) (λ x. record x { tag = r.tag })
              inside,
          set_field-again hb i (record old { beat = r.beat; tag = r.tag })
              (λ x. record x { timestamp = r.timestamp }) inside,
          set_field-again hb i (record old { beat = r.beat; tag = r.tag; timestamp = r.timestamp })
              (λ x. record x { window_rate = r.window_rate }) inside,
          set_field-again hb i
              (record r { global_rate = old.global_rate; instant_rate = old.instant_rate })
              (λ x. record x { instant_rate = r.instant_rate }) inside,
          set_field-again hb i (record r { global_rate = old.global_rate })
              (λ x. record x { global_rate = r.global_rate }) inside,
        )
        (six_more _ _ _ _ _ _ (do_stores more (with_record hb i r)))
    where
      six_more :
          (s₁ s₂ s₃ s₄ s₅ s₆ : Heartbeat D) (o : Option (List (Heartbeat D)))
          → ((((((o >>= λ z. some (s₆ ∷ z)) >>= λ z. some (s₅ ∷ z)) >>= λ z. some (s₄ ∷ z)) >>= λ z.
                  some (s₃ ∷ z))
                >>= λ z. some (s₂ ∷ z))
              >>= λ z. some (s₁ ∷ z))
            ≡ (o >>= λ z. some (s₁ ∷ s₂ ∷ s₃ ∷ s₄ ∷ s₅ ∷ s₆ ∷ z))
      six_more _ _ _ _ _ _ none = refl
      six_more _ _ _ _ _ _ (some z) = refl

  -- Outside the ring the first of them faults.
  pub do_stores_fault :
      (hb : Heartbeat D) (i : ℕ) (r : HeartbeatRecord D)
      (more : List (Heartbeat D → Option (Heartbeat D)))
      → length hb.log ≤ i
      → do_stores (record_stores (pos i) r ++ more) hb ≡ none
  unfolding do_stores set_field
  do_stores_fault hb i r more outside = rw (get_elem?_fault hb.log i outside) refl

  -- The state after the last store.
  abbrev pub last : Heartbeat D → List (Heartbeat D) → Heartbeat D
  last hb [] = hb
  last hb (s ∷ states) = last s states
