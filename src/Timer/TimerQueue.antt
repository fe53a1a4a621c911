-- ===== src/Timer/TimerQueue.antt =====
-- include/timer/Timer.h, src/timer/Timer.cc and src/timer/TimerQueue.cc: timers in the order of their
-- expiration. Times are microseconds. A timer is known by its address; the callbacks of the user are
-- recorded, and what they do to the queue are further calls. `armed` is the expiration for which the
-- timer descriptor was set; it counts from the time of the setting, and at least 100 microseconds.
pub mod Order
pub mod Tests
use myoj.Common.{
  ℕ, zero, suc, ◌+◌, Bool, true, false, ◌&&◌, ◌||◌, Option, none, some, List, [], ◌∷◌, ◌++◌, map,
  ltb, leb, ◌==◌, if◌then◌else◌,
}

-- An entry of the set with its timer. Whether it repeats is decided by the
-- interval in seconds, a `double`, which may be positive and less than a microsecond.
pub record Entry : Type 0 where
  pub expiration : ℕ
  pub address : ℕ
  pub interval : ℕ
  pub repeats : Bool

pub record TimerQueue : Type 0 where
  pub timers : List Entry
  pub armed : Option ℕ
  pub calls : List ℕ

abbrev pub repeat : Entry → Bool
repeat e = e.repeats

-- `Timer::restart` of a repeating timer.
abbrev pub restart : ℕ → Entry → Entry
restart now e = record e { expiration = now + e.interval }

-- The order of pairs of a time and an address.
abbrev pub before : Entry → Entry → Bool
before a b =
    ltb a.expiration b.expiration || (a.expiration == b.expiration && ltb a.address b.address)

-- `std::set::insert`: an entry that is there already is not inserted again.
unfoldable pub insert_entry : Entry → List Entry → List Entry
insert_entry e [] = e ∷ []
insert_entry e (x ∷ xs) =
    if before e x then e ∷ x ∷ xs else (if before x e then x ∷ insert_entry e xs else x ∷ xs)

-- `TimerQueue::insert` says whether the entry is the earliest one now.
unfoldable pub earliest_changed : Entry → List Entry → Bool
earliest_changed e [] = true
earliest_changed e (x ∷ xs) = ltb e.expiration x.expiration

unfoldable pub add_timer_in_loop : Entry → TimerQueue → TimerQueue
add_timer_in_loop e q =
    let inserted = record q { timers = insert_entry e q.timers } in
    if earliest_changed e q.timers then record inserted { armed = some e.expiration } else inserted

-- `getExpired`: the entries in front of the sentry, which stands behind all entries of its time, and
-- the others.
unfoldable pub get_expired : ℕ → List Entry → List Entry × List Entry
get_expired now [] = ([], [])
get_expired now (x ∷ xs) =
    let (expired, rest) = get_expired now xs in
    if leb x.expiration now then (x ∷ expired, rest) else ([], x ∷ xs)

abbrev pub first_expiration : List Entry → Option ℕ
first_expiration [] = none
first_expiration (x ∷ xs) = some x.expiration

unfoldable pub arm : Option ℕ → TimerQueue → TimerQueue
arm none q = q
arm (some t) q = record q { armed = some t }

-- One round of `reset`, at the time `now`.
unfoldable pub reset_one : ℕ → Entry → TimerQueue → TimerQueue
reset_one now e q =
    let again = if repeat e then insert_entry (restart now e) q.timers else q.timers in
    arm (first_expiration again) (record q { timers = again })

-- The `i`-th reading of the clock restarts the `i`-th timer.
unfoldable pub reset : (ℕ → ℕ) → ℕ → List Entry → TimerQueue → TimerQueue
reset clock i [] q = q
reset clock i (e ∷ es) q = reset clock (suc i) es (reset_one (clock i) e q)

-- The descriptor has fired, and is not armed any more.
unfoldable pub handle_read : ℕ → (ℕ → ℕ) → TimerQueue → TimerQueue
handle_read now clock q =
    let (expired, rest) = get_expired now q.timers in
    reset clock 0 expired (record {
      timers = rest;
      armed = none;
      calls = q.calls ++ map (λ (e : Entry). e.address) expired;
    })
