-- ===== src/Net/LoadCounter/Bounds.antt =====
-- ThreadLoadCounter.cpp: the load is a percentage, and the list of times does not grow.
use myoj.Common.{
  ℕ, ◌+◌, ◌*◌, ◌/◌, ◌%◌, ◌^◌, ◌≤◌, ◌<◌, ◌≡◌, sym, ◌∙◌, subst, true, false, Bool-cases, if-cases,
  inl, inr, if◌then◌else◌, List, [], ◌∷◌, ◌++◌, All, All-append, length, length-append, ltb, ◌==◌,
  ◌||◌, arith,
}
use native.Mathlib.Nat.{div-le_of_le-mul}
use myoj.Net.LoadCounter.{
  TimeRecord, LoadCounter, make_load_counter, u64_add, pop_front, keep, start_sleep, sleep_wake_up,
  Totals, sum_up, add_current, leave_out, drop_old, share, load,
}

-- 2 ^ 52 microseconds after 1970 lies in the year 2112.
abbrev pub horizon : ℕ
horizon = 2 ^ 52

abbrev IsShort : TimeRecord → Type 0
IsShort r = r.time ≤ horizon

abbrev runs : List TimeRecord → ℕ
runs [] = 0
runs (r ∷ rs) = (if r.sleep then 0 else r.time) + runs rs

abbrev sleeps : List TimeRecord → ℕ
sleeps [] = 0
sleeps (r ∷ rs) = (if r.sleep then r.time else 0) + sleeps rs

record IsTimely (c : LoadCounter) (now : ℕ) : Type 0 where
  few : c.max_size ≤ 32
  size : length c.time_list ≤ c.max_size
  short : All IsShort c.time_list
  slept_before : c.last_sleep_time ≤ now
  woke_before : c.last_wake_time ≤ now

-- A clock that does not run backwards.
pub data Reachable : LoadCounter → ℕ → Type 0 where
  created : (size usec now : ℕ) → size ≤ 32 → Reachable (make_load_counter size usec now) now
  later : {c : LoadCounter} {now : ℕ} (now' : ℕ) → now ≤ now' → Reachable c now → Reachable c now'
  fell_asleep : {c : LoadCounter} {now : ℕ} → Reachable c now → Reachable (start_sleep now c) now
  woke_up : {c : LoadCounter} {now : ℕ} → Reachable c now → Reachable (sleep_wake_up now c) now
  measured : {c : LoadCounter} {now : ℕ} → Reachable c now → Reachable (load now c).1 now

sums-le : (rs : List TimeRecord) → All IsShort rs → runs rs + sleeps rs ≤ length rs * horizon
sums-le [] h = omega arith
sums-le (r ∷ rs) (k, h) = ground (arith, k, sums-le rs h)

pair_eq : {a b c d : ℕ} → a ≡ c → b ≡ d → ◌≡◌ {A = ℕ × ℕ} (a, b) (c, d)
pair_eq e f = cc

sum_up-exact :
    (rs : List TimeRecord) (run slept : ℕ)
    → All IsShort rs
    → run + slept + length rs * horizon < 2 ^ 64
    → sum_up rs run slept ≡ (run + runs rs, slept + sleeps rs)
unfolding sum_up
sum_up-exact [] run slept h k = pair_eq (omega arith) (omega arith)
sum_up-exact (r ∷ rs) run slept (s, h) k = elim (Bool-cases r.sleep) [
  | inl e ↦
      let same : u64_add slept r.time ≡ slept + r.time = omega (arith, k, s) in
      simp (e, same)
        (sum_up-exact rs run (slept + r.time) h (omega (arith, k, s))
          ∙ pair_eq (omega arith) (omega arith))
  | inr e ↦
      let same : u64_add run r.time ≡ run + r.time = omega (arith, k, s) in
      simp (e, same)
        (sum_up-exact rs (run + r.time) slept h (omega (arith, k, s))
          ∙ pair_eq (omega arith) (omega arith))
]

-- What is left of the totals covers what is left of the list.
record IsBalanced (rs : List TimeRecord) (t : Totals) : Type 0 where
  run_covers : runs rs ≤ t.run
  slept_covers : sleeps rs ≤ t.slept
  whole : t.total ≡ t.run + t.slept
  bounded : t.total ≤ 33 * horizon

leave_out-IsBalanced :
    (r : TimeRecord) (rs : List TimeRecord) (t : Totals)
    → IsBalanced (r ∷ rs) t
    → IsBalanced rs (leave_out r t)
unfolding leave_out
leave_out-IsBalanced r rs t h = elim (Bool-cases r.sleep) [
  | inl e ↦
      let run_left : runs rs ≤ t.run = ground (arith, h.run_covers, e) in
      let slept_left : r.time + sleeps rs ≤ t.slept = ground (arith, h.slept_covers, e) in
      simp e (record {
        run_covers = run_left;
        slept_covers = omega (arith, slept_left, h.whole, h.bounded);
        whole = omega (arith, slept_left, h.whole, h.bounded);
        bounded = omega (arith, slept_left, h.whole, h.bounded);
      })
  | inr e ↦
      let run_left : r.time + runs rs ≤ t.run = ground (arith, h.run_covers, e) in
      let slept_left : sleeps rs ≤ t.slept = ground (arith, h.slept_covers, e) in
      simp e (record {
        run_covers = omega (arith, run_left, h.whole, h.bounded);
        slept_covers = slept_left;
        whole = omega (arith, run_left, h.whole, h.bounded);
        bounded = omega (arith, run_left, h.whole, h.bounded);
      })
]

drop_old-IsBalanced :
    (size usec : ℕ) (rs : List TimeRecord) (t : Totals)
    → IsBalanced rs t
    → IsBalanced (drop_old size usec rs t).0 (drop_old size usec rs t).1
unfolding drop_old
drop_old-IsBalanced size usec [] t h = h
drop_old-IsBalanced size usec (r ∷ rs) t h =
    if-cases (λ (p : List TimeRecord × Totals). IsBalanced p.0 p.1)
      (ltb usec t.total || ltb size (length (r ∷ rs))) _ _
      (λ e. drop_old-IsBalanced size usec rs (leave_out r t) (leave_out-IsBalanced r rs t h))
      (λ e. h)

-- What stays in the list is an end of it.
drop_old-keeps :
    (size usec : ℕ) (rs : List TimeRecord) (t : Totals)
    → All IsShort rs
    → (length (drop_old size usec rs t).0 ≤ length rs) × All IsShort (drop_old size usec rs t).0
unfolding drop_old
drop_old-keeps size usec [] t h = (omega arith, h)
drop_old-keeps size usec (r ∷ rs) t h =
    if-cases (λ (p : List TimeRecord × Totals). (length p.0 ≤ length (r ∷ rs)) × All IsShort p.0)
      (ltb usec t.total || ltb size (length (r ∷ rs))) _ _
      (λ e.
        let (shorter, short) = drop_old-keeps size usec rs (leave_out r t) h.1 in
        (omega (arith, shorter), short))
      (λ e. (omega arith, h))

small_rest : (x : ℕ) → x ≤ 100 → x % 2 ^ 32 ≤ 100
small_rest x h = omega arith

share-le : (rs : List TimeRecord) (t : Totals) → IsBalanced rs t → share t ≤ 100
unfolding share
share-le rs t h =
    if-cases (λ (x : ℕ). x ≤ 100) (t.total == 0) _ _ (λ e. omega arith)
      (λ e.
        let exact : t.run * 100 % 2 ^ 64 ≡ t.run * 100 = omega (arith, h.whole, h.bounded) in
        let part : t.run * 100 / t.total ≤ 100 =
          div-le_of_le-mul t.total (omega (arith, h.whole)) in
        rw exact (small_rest _ part))

current-IsBalanced :
    (now : ℕ) (c : LoadCounter)
    → IsTimely c now
    → now ≤ horizon
    → IsBalanced c.time_list (add_current now c (runs c.time_list, sleeps c.time_list))
unfolding add_current
current-IsBalanced now c h k =
    let sums = sums-le c.time_list h.short in
    elim (Bool-cases c.sleeping) [
      | inl e ↦ simp e (record {
        run_covers = omega arith;
        slept_covers = omega (arith, sums, h.size, h.few, h.slept_before, k);
        whole = omega (arith, sums, h.size, h.few, h.slept_before, k);
        bounded = omega (arith, sums, h.size, h.few, h.slept_before, k);
      })
      | inr e ↦ simp e (record {
        run_covers = omega (arith, sums, h.size, h.few, h.woke_before, k);
        slept_covers = omega arith;
        whole = omega (arith, sums, h.size, h.few, h.woke_before, k);
        bounded = omega (arith, sums, h.size, h.few, h.woke_before, k);
      })
    ]

add_current-IsBalanced :
    (now : ℕ) (c : LoadCounter)
    → IsTimely c now
    → now ≤ horizon
    → IsBalanced c.time_list (add_current now c (sum_up c.time_list 0 0))
add_current-IsBalanced now c h k =
    let exact : sum_up c.time_list 0 0 ≡ (runs c.time_list, sleeps c.time_list) =
      sum_up-exact c.time_list 0 0 h.short (omega (arith, h.size, h.few))
      ∙ pair_eq (omega arith) (omega arith) in
    subst (λ s. IsBalanced c.time_list (add_current now c s)) (sym exact)
      (current-IsBalanced now c h k)

kept-IsTimely :
    (now : ℕ) (r : TimeRecord) (c : LoadCounter)
    → IsTimely c now
    → IsShort r
    → IsTimely (keep r c) now
unfolding keep
kept-IsTimely now r c h k =
    let longer = length-append {0} c.time_list (r ∷ []) in
    let all = All-append IsShort c.time_list (r ∷ []) h.short (k, tt) in
    let (size, short) =
      if-cases (λ (rs : List TimeRecord). (length rs ≤ c.max_size) × All IsShort rs)
        (ltb c.max_size (length (c.time_list ++ r ∷ []))) _ _
        (λ e. popped (c.time_list ++ r ∷ []) c.max_size (omega (arith, longer, h.size)) all)
        (λ e. (ground (arith, e), all)) in
    record {
      few = h.few;
      size = size;
      short = short;
      slept_before = h.slept_before;
      woke_before = h.woke_before;
    }
  where
    popped :
        (rs : List TimeRecord) (n : ℕ)
        → length rs ≤ n + 1
        → All IsShort rs
        → (length (pop_front rs) ≤ n) × All IsShort (pop_front rs)
    popped [] n h k = (omega arith, k)
    popped (r ∷ rs) n h k = (omega (arith, h), k.1)

module _ (c : LoadCounter) (now : ℕ) (h : IsTimely c now) (k : now ≤ horizon) where
  start_sleep-IsTimely : IsTimely (start_sleep now c) now
  unfolding start_sleep
  start_sleep-IsTimely =
      kept-IsTimely now _ (record c { sleeping = true; last_sleep_time = now })
        (record {
          few = h.few;
          size = h.size;
          short = h.short;
          slept_before = omega arith;
          woke_before = h.woke_before;
        })
        (omega (arith, h.woke_before, k))

  sleep_wake_up-IsTimely : IsTimely (sleep_wake_up now c) now
  unfolding sleep_wake_up
  sleep_wake_up-IsTimely =
      kept-IsTimely now _ (record c { sleeping = false; last_wake_time = now })
        (record {
          few = h.few;
          size = h.size;
          short = h.short;
          slept_before = h.slept_before;
          woke_before = omega arith;
        })
        (omega (arith, h.slept_before, k))

  load-IsTimely : IsTimely (load now c).1 now
  unfolding load
  load-IsTimely =
      let (shorter, short) =
        drop_old-keeps c.max_size c.max_usec c.time_list
          (add_current now c (sum_up c.time_list 0 0)) h.short in
      record {
        few = h.few;
        size = omega (arith, shorter, h.size);
        short = short;
        slept_before = h.slept_before;
        woke_before = h.woke_before;
      }

Reachable-IsTimely : {c : LoadCounter} {now : ℕ} → Reachable c now → now ≤ horizon → IsTimely c now
Reachable-IsTimely (created size usec now h) k = record {
  few = h;
  size = omega arith;
  short = tt;
  slept_before = omega arith;
  woke_before = omega arith;
}
Reachable-IsTimely (later now' h r) k =
    let t = Reachable-IsTimely r (omega (arith, h, k)) in
    record {
      few = t.few;
      size = t.size;
      short = t.short;
      slept_before = omega (arith, h, t.slept_before);
      woke_before = omega (arith, h, t.woke_before);
    }
Reachable-IsTimely {c} {now} (fell_asleep r) k =
    start_sleep-IsTimely _ now (Reachable-IsTimely r k) k
Reachable-IsTimely {c} {now} (woke_up r) k = sleep_wake_up-IsTimely _ now (Reachable-IsTimely r k) k
Reachable-IsTimely {c} {now} (measured r) k = load-IsTimely _ now (Reachable-IsTimely r k) k

-- However `startSleep`, `sleepWakeUp` and `load` are called, with a window of at most 32 records and a
-- clock that does not run backwards and has not passed the year 2112: the load is at most 100, and the
-- list of times stays within the window.
pub load-le :
    (c : LoadCounter) (now : ℕ)
    → Reachable c now
    → now ≤ horizon
    → ((load now c).0 ≤ 100) × (length c.time_list ≤ c.max_size)
unfolding load
load-le c now r k =
    let t = Reachable-IsTimely r k in
    (
      share-le _ _ (
          drop_old-IsBalanced c.max_size c.max_usec c.time_list _
            (add_current-IsBalanced now c t k)),
      t.size,
    )
