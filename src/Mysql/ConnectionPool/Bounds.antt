-- ===== src/Mysql/ConnectionPool/Bounds.antt =====
-- ConnectionPool.cc: how many connections there can be.
use myoj.Common.{
  ℕ, zero, suc, ◌+◌, ◌-◌, ◌*◌, ◌≤◌, ◌<◌, max, ◌≡◌, refl, ap, subst, ◌&&◌, if-cases, Option, none,
  some, List, [], ◌∷◌, length, length-append, ltb, leb, ◌==◌, arith,
}
use myoj.Mysql.ConnectionPool.{
  Config, Pool, add_connection, add_and_count, add_all, make_pool, produce_connection,
  recycle_queue, recycle_connection, take_front, get_connection, give_back,
}

module _ (c : Config) where
  -- A connection comes back only when one is out.
  pub data Reachable : Pool → Type 0 where
    made : (now : ℕ) → Reachable (make_pool c now)
    produced : (p : Pool) (now : ℕ) → Reachable p → Reachable (produce_connection c now p)
    recycled : (p : Pool) (now : ℕ) → Reachable p → Reachable (recycle_connection c now p)
    got : (p p' : Pool) → Reachable p → get_connection p ≡ some p' → Reachable p'
    returned : (p : Pool) (now : ℕ) → Reachable p → 0 < p.in_use → Reachable (give_back now p)

  -- All connections that exist.
  abbrev pub total : Pool → ℕ
  total p = length p.connection_queue + p.in_use

  -- Every connection is counted twice when it is made, and once when it is destroyed.
  pub record IsBounded (p : Pool) : Type 0 where
    pub counted_twice : 2 * total p ≤ p.current_size
    pub at_most_half : 2 * total p ≤ max (2 * c.min_size) (c.max_size + 1)

  total-add_and_count :
      (now : ℕ) (p : Pool)
      → (total (add_and_count now p) ≡ total p + 1)
        × ((add_and_count now p).current_size ≡ p.current_size + 2)
  unfolding add_and_count add_connection
  total-add_and_count now p =
      (omega (arith, length-append p.connection_queue (now ∷ [])), omega arith)

  add_all-twice :
      (n now : ℕ) (p : Pool)
      → p.current_size ≡ 2 * total p
      → ((add_all n now p).current_size ≡ 2 * total (add_all n now p))
        × (total (add_all n now p) ≡ total p + n)
  unfolding add_all
  add_all-twice zero now p e = (e, omega arith)
  add_all-twice (suc n) now p e =
      let (t, s) = total-add_and_count now p in
      let (a, b) = add_all-twice n now (add_and_count now p) (omega (arith, t, s, e)) in
      (a, omega (arith, b, t))

  recycle_queue-lengths :
      (now : ℕ) (ts : List ℕ)
      → length (recycle_queue c now ts).0 + (recycle_queue c now ts).1 ≡ length ts
  unfolding recycle_queue
  recycle_queue-lengths now [] = omega arith
  recycle_queue-lengths now (t ∷ ts) =
      if-cases (λ (r : List ℕ × ℕ). length r.0 + r.1 ≡ suc (length ts))
        (ltb c.min_size (length (t ∷ ts)) && leb c.max_idle_time (now - t)) _ _
        (λ e. omega (arith, recycle_queue-lengths now ts)) (λ e. omega arith)

  abbrev Fits : Option Pool → Type 0
  Fits none = Unit
  Fits (some p) = IsBounded p

  take_front-Fits :
      (q : List ℕ) (p : Pool) → q ≡ p.connection_queue → IsBounded p → Fits (take_front q p)
  unfolding take_front
  take_front-Fits [] p e h = tt
  take_front-Fits (t ∷ ts) p e h = record {
    counted_twice = omega (arith, ap length e, h.counted_twice);
    at_most_half = omega (arith, ap length e, h.at_most_half);
  }

  -- Whatever the threads do, the pool never has more than half of the connections it may have, rounded
  -- up, unless it starts with more: the current size is at least twice their number.
  pub Reachable-IsBounded : (p : Pool) → Reachable p → IsBounded p
  unfolding make_pool get_connection produce_connection recycle_connection give_back
  Reachable-IsBounded _ (made now) =
      let (a, b) =
        add_all-twice c.min_size now
          (record { connection_queue = []; current_size = 0; in_use = 0 }) (omega arith) in
      record { counted_twice = omega (arith, a); at_most_half = omega (arith, b) }
  Reachable-IsBounded _ (produced p now r) =
      let h = Reachable-IsBounded p r in
      let (t, s) = total-add_and_count now p in
      if-cases IsBounded (length p.connection_queue == 0 && ltb p.current_size c.max_size) _ p
        (λ e. record {
          counted_twice = omega (arith, t, s, h.counted_twice);
          at_most_half = ground (arith, e, t, h.counted_twice);
        })
        (λ e. h)
  Reachable-IsBounded _ (recycled p now r) =
      let h = Reachable-IsBounded p r in
      record {
        counted_twice =
            omega (arith, h.counted_twice, recycle_queue-lengths now p.connection_queue);
        at_most_half = omega (arith, h.at_most_half, recycle_queue-lengths now p.connection_queue);
      }
  Reachable-IsBounded _ (got p p' r e) =
      subst Fits e (take_front-Fits p.connection_queue p refl (Reachable-IsBounded p r))
  Reachable-IsBounded _ (returned p now r k) =
      let h = Reachable-IsBounded p r in
      record {
        counted_twice =
            omega (arith, h.counted_twice, length-append p.connection_queue (now ∷ []), k);
        at_most_half =
            omega (arith, h.at_most_half, length-append p.connection_queue (now ∷ []), k);
      }
