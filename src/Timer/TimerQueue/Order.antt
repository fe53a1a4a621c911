-- ===== src/Timer/TimerQueue/Order.antt =====
-- TimerQueue.cc: which timers are run, and for which one the descriptor is set.
use myoj.Common.{
  ℕ, ◌≤◌, ◌<◌, ◌≡◌, refl, sym, ap, ◌∙◌, ◌⊎◌, inl, inr, true, false, if-cases, some, List, [], ◌∷◌,
  ◌++◌, All, leb, arith,
}
use myoj.Timer.TimerQueue.{
  Entry, TimerQueue, before, insert_entry, earliest_changed, add_timer_in_loop, get_expired,
  first_expiration,
}

-- Every entry is at or behind the one in front, and all are at or behind `b`.
abbrev pub SortedFrom : ℕ → List Entry → Type 0
SortedFrom b [] = Unit
SortedFrom b (x ∷ xs) = (b ≤ x.expiration) × SortedFrom x.expiration xs

abbrev pub IsSorted : List Entry → Type 0
IsSorted xs = SortedFrom 0 xs

insert_entry-SortedFrom :
    (b : ℕ) (e : Entry) (xs : List Entry)
    → b ≤ e.expiration
    → SortedFrom b xs
    → SortedFrom b (insert_entry e xs)
unfolding insert_entry
insert_entry-SortedFrom b e [] h k = (h, tt)
insert_entry-SortedFrom b e (x ∷ xs) h k =
    if-cases (SortedFrom b) (before e x) _ _ (λ p. (h, (ground (arith, p), k.1)))
      (λ p.
        if-cases (SortedFrom b) (before x e) _ _
          (λ r. (k.0, insert_entry-SortedFrom x.expiration e xs (ground (arith, r)) k.1)) (λ r. k))

later-All :
    (b now : ℕ) (xs : List Entry)
    → now < b
    → SortedFrom b xs
    → All (λ (x : Entry). now < x.expiration) xs
later-All b now [] h k = tt
later-All b now (x ∷ xs) h k =
    (omega (arith, k.0), later-All x.expiration now xs (omega (arith, k.0)) k.1)

-- The parts of the queue that `getExpired` makes.
abbrev pub Splits : ℕ → List Entry → List Entry × List Entry → Type 0
Splits now xs (expired, rest) =
    (expired ++ rest ≡ xs)
    × All (λ (x : Entry). x.expiration ≤ now) expired
    × All (λ (x : Entry). now < x.expiration) rest

-- On a sorted queue the expired timers are those whose time has come, all of them and no other, and
-- they leave the queue in its order.
pub get_expired-Splits :
    (now b : ℕ) (xs : List Entry) → SortedFrom b xs → Splits now xs (get_expired now xs)
unfolding get_expired
get_expired-Splits now b [] h = (refl, tt, tt)
get_expired-Splits now b (x ∷ xs) h =
    let (e, k, l) = get_expired-Splits now x.expiration xs h.1 in
    if-cases (Splits now (x ∷ xs)) (leb x.expiration now) _ _
      (λ p. (ap (◌∷◌ x) e, (ground (arith, p), k), l))
      (λ p. (refl, tt, (ground (arith, p), later-All x.expiration now xs (ground (arith, p)) h.1)))

-- The descriptor is set for the first timer, if there is one.
abbrev pub IsArmed : TimerQueue → Type 0
IsArmed q = (q.timers ≡ []) ⊎ (q.armed ≡ first_expiration q.timers)

first-earliest :
    (e : Entry) (xs : List Entry)
    → earliest_changed e xs ≡ true
    → first_expiration (insert_entry e xs) ≡ some e.expiration
unfolding earliest_changed insert_entry
first-earliest e [] h = refl
first-earliest e (x ∷ xs) h =
    if-cases (λ (ys : List Entry). first_expiration ys ≡ some e.expiration) (before e x) _ _
      (λ p. refl) (λ p. absurd (ground (arith, h, p)))

first-later :
    (e : Entry) (xs : List Entry)
    → earliest_changed e xs ≡ false
    → first_expiration (insert_entry e xs) ≡ first_expiration xs
unfolding earliest_changed insert_entry
first-later e [] h = absurd (ground (arith, h))
first-later e (x ∷ xs) h =
    if-cases (λ (ys : List Entry). first_expiration ys ≡ some x.expiration) (before e x) _ _
      (λ p. ap some (ground (arith, h, p)))
      (λ p.
        if-cases (λ (ys : List Entry). first_expiration ys ≡ some x.expiration) (before x e) _ _
          (λ r. refl) (λ r. refl))

empty-earliest : (e : Entry) (xs : List Entry) → xs ≡ [] → earliest_changed e xs ≡ true
unfolding earliest_changed
empty-earliest e [] h = refl
empty-earliest e (x ∷ xs) h = absurd cc

-- Adding a timer keeps the queue sorted and the descriptor set for its first timer.
pub add_timer_in_loop-IsArmed :
    (e : Entry) (q : TimerQueue)
    → IsSorted q.timers
    → IsArmed q
    → IsSorted (add_timer_in_loop e q).timers × IsArmed (add_timer_in_loop e q)
unfolding add_timer_in_loop
add_timer_in_loop-IsArmed e q h k =
    let sorted : IsSorted (insert_entry e q.timers) =
      insert_entry-SortedFrom 0 e q.timers (omega arith) h in
    if-cases (λ (r : TimerQueue). IsSorted r.timers × IsArmed r) (earliest_changed e q.timers) _ _
      (λ p. (sorted, inr (sym (first-earliest e q.timers p))))
      (λ p. elim k [
        | inl none_there ↦ absurd (ground (arith, p, empty-earliest e q.timers none_there))
        | inr armed ↦ (sorted, inr (armed ∙ sym (first-later e q.timers p)))
      ])
