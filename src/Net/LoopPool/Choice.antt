-- ===== src/Net/LoopPool/Choice.antt =====
-- EventLoopThreadPool.cc: the choice by load takes a loop with the least load.
use myoj.Common.{
  ℕ, zero, suc, ◌+◌, ◌-◌, ◌≤◌, ◌<◌, ◌≡◌, refl, sym, ap, subst, ◌⊎◌, inl, inr, false, if-cases, some,
  List, length, ltb, ◌==◌, arith,
}
use myoj.Net.LoopPool.{
  LoopPool, load_at, wrap, better, min_load_loop, get_next_loop_by_min_load, get_next_loop_by_rb,
}

-- The positions that are looked at in `left` rounds from `p` on.
abbrev Visits : (n left p j : ℕ) → Type 0
Visits n left p j = ((p ≤ j) × (j < p + left)) ⊎ ((n < p + left) × (j < p + left - n))

wrap_lt : (n pos : ℕ) → 0 < n → wrap n pos < n
wrap_lt n pos h = ground arith

Visits-forward :
    (n left p j : ℕ)
    → suc left ≤ n
    → p < n
    → j < n
    → Visits n (suc left) p j
    → (j ≡ p) ⊎ Visits n left (wrap n (suc p)) j
Visits-forward n left p j h k l v = ground arith

Visits-every : (n p j : ℕ) → p < n → j < n → Visits n n p j
Visits-every n p j h k = ground arith

better-least :
    (loads : List ℕ) (p least best : ℕ)
    → p < length loads
    → best < length loads
    → load_at loads best ≡ least
    → ((better loads p least best).1 < length loads)
      × (load_at loads (better loads p least best).1 ≡ (better loads p least best).0)
      × ((better loads p least best).0 ≤ least)
      × ((better loads p least best).0 ≤ load_at loads p)
better-least loads p least best h k e =
    if-cases
      (λ (r : ℕ × ℕ).
        (r.1 < length loads) × (load_at loads r.1 ≡ r.0) × (r.0 ≤ least) × (r.0 ≤ load_at loads p))
      (ltb (load_at loads p) least) _ _ (λ x. (h, refl, ground (arith, x), omega arith))
      (λ x. (k, e, omega arith, ground (arith, x)))

abbrev Improves : List ℕ → (least : ℕ) → ℕ × ℕ → Type 0
Improves loads least (pos, best) = (best < length loads) × (load_at loads best ≤ least)

min_load_loop-Improves :
    (loads : List ℕ) (left pos least best : ℕ)
    → best < length loads
    → load_at loads best ≡ least
    → Improves loads least (min_load_loop loads left pos least best)
unfolding min_load_loop
min_load_loop-Improves loads zero pos least best k e = (k, omega arith)
min_load_loop-Improves loads (suc left) pos least best k e =
    let p : ℕ = wrap (length loads) pos in
    let (lt, same, le, lp) =
      better-least loads p least best (wrap_lt (length loads) pos (omega arith)) k e in
    if-cases (Improves loads least) ((better loads p least best).0 == 0) _ _
      (λ z. (lt, omega (arith, same, le)))
      (λ z.
        let (lt', le') = min_load_loop-Improves loads left (suc p) _ _ lt same in
        (lt', omega (arith, le', le)))

min_load_loop-least :
    (loads : List ℕ) (left pos least best j : ℕ)
    → left ≤ length loads
    → j < length loads
    → best < length loads
    → load_at loads best ≡ least
    → Visits (length loads) left (wrap (length loads) pos) j
    → load_at loads (min_load_loop loads left pos least best).1 ≤ load_at loads j
unfolding min_load_loop
min_load_loop-least loads zero pos least best j h l k e v =
    absurd (omega (arith, v, wrap_lt (length loads) pos))
min_load_loop-least loads (suc left) pos least best j h l k e v =
    let p : ℕ = wrap (length loads) pos in
    let p_lt : p < length loads = wrap_lt (length loads) pos (omega arith) in
    let (lt, same, le, lp) = better-least loads p least best p_lt k e in
    let (lt', le') = min_load_loop-Improves loads left (suc p) _ _ lt same in
    if-cases (λ (r : ℕ × ℕ). load_at loads r.1 ≤ load_at loads j)
      ((better loads p least best).0 == 0) _ _ (λ z. ground (arith, z, same))
      (λ z. elim (Visits-forward (length loads) left p j h p_lt l v) [
        | inl here ↦ omega (arith, le', lp, ap (load_at loads) here)
        | inr later ↦ min_load_loop-least loads left (suc p) _ _ j (omega arith) l lt same later
      ])

-- Where there are loops, the choice by load takes one of them, and no loop has a smaller load.
pub get_next_loop_by_min_load-least :
    (loads : List ℕ) (p : LoopPool) (j : ℕ)
    → j < length loads
    → (best : ℕ) × ((get_next_loop_by_min_load loads p).0 ≡ some best)
      × (best < length loads)
      × (load_at loads best ≤ load_at loads j)
unfolding get_next_loop_by_min_load
get_next_loop_by_min_load-least loads p j h =
    let start : ℕ = wrap (length loads) p.thread_pos in
    let start_lt : start < length loads = wrap_lt (length loads) p.thread_pos (omega arith) in
    let there : (length loads == 0) ≡ false = ground arith in
    let same : wrap (length loads) start ≡ start = ground arith in
    let found : ℕ × ℕ = min_load_loop loads (length loads) start (load_at loads start) start in
    (
      found.1,
      rw there refl,
      (min_load_loop-Improves loads (length loads) start (load_at loads start) start start_lt
          refl).0,
      min_load_loop-least loads (length loads) start (load_at loads start) start j (omega arith) h
          start_lt refl
          (subst (λ q. Visits (length loads) (length loads) q j) (sym same)
            (Visits-every (length loads) start j start_lt h)),
    )

-- The rotation stays within the loops.
pub get_next_loop_by_rb-within :
    (n : ℕ) (p : LoopPool)
    → p.next < n
    → ((get_next_loop_by_rb n p).0 ≡ some p.next) × ((get_next_loop_by_rb n p).1.next < n)
unfolding get_next_loop_by_rb
get_next_loop_by_rb-within n p h =
    let there : (n == 0) ≡ false = ground arith in
    rw there (refl, wrap_lt n (suc p.next) (omega arith))
