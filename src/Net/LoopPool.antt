-- ===== src/Net/LoopPool.antt =====
-- src/net/EventLoopThreadPool.cc: which loop gets the next connection. A loop is its index; none is the
-- base loop. The loads are what `load()` gives during the call.
pub mod Choice
pub mod Start
pub mod Tests
use myoj.Common.{
  ℕ, zero, suc, ◌+◌, Bool, true, false, Option, none, some, List, [], ◌∷◌, length, get_elem?, ltb,
  leb, ◌==◌, if◌then◌else◌,
}

-- `next_` and `_thread_pos`.
pub record LoopPool : Type 0 where
  pub next : ℕ
  pub thread_pos : ℕ

-- The rotation over `n` loops.
unfoldable pub get_next_loop_by_rb : ℕ → LoopPool → Option ℕ × LoopPool
get_next_loop_by_rb n p =
    if n == 0
    then (none, p)
    else (some p.next, record p { next = if leb n (suc p.next) then 0 else suc p.next })

abbrev pub load_or : Option ℕ → ℕ
load_or none = 0
load_or (some l) = l

abbrev pub load_at : List ℕ → ℕ → ℕ
load_at loads i = load_or (get_elem? loads i)

abbrev pub wrap : ℕ → ℕ → ℕ
wrap n pos = if leb n pos then 0 else pos

-- The least load so far and its loop, after a look at the loop `p`.
abbrev pub better : List ℕ → (p least best : ℕ) → ℕ × ℕ
better loads p least best =
    if ltb (load_at loads p) least then (load_at loads p, p) else (least, best)

-- The loop over all positions, `left` of them; the position where it ends, and the loop found. A load
-- of 0 ends it.
unfoldable pub min_load_loop : List ℕ → (left pos least best : ℕ) → ℕ × ℕ
min_load_loop loads zero pos least best = (pos, best)
min_load_loop loads (suc left) pos least best =
    let p = wrap (length loads) pos in
    let seen = better loads p least best in
    let rest = min_load_loop loads left (suc p) seen.0 seen.1 in
    if seen.0 == 0 then (p, seen.1) else rest

unfoldable pub get_next_loop_by_min_load : List ℕ → LoopPool → Option ℕ × LoopPool
get_next_loop_by_min_load loads p =
    if length loads == 0
    then (none, p)
    else (let start = wrap (length loads) p.thread_pos in
        let (pos, best) = min_load_loop loads (length loads) start (load_at loads start) start in
        (some best, record p { thread_pos = pos }))
