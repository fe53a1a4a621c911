-- ===== src/Net/EventLoop/Wakeups.antt =====
-- EventLoop.cc: no functor is lost, and none waits while the loop sleeps.
use myoj.Common.{
  ℕ, ◌<◌, ◌≡◌, ◌≢◌, refl, sym, ap, ◌∙◌, subst, Bool, true, false, not, ◌||◌, if-cases, List, [],
  ◌∷◌, ◌++◌, append-nil, append_assoc, arith,
}
use myoj.Net.EventLoop.{
  Phase, stopped, waiting, handling, calling, EventLoop, make_event_loop, handle_read,
  queue_in_loop, run_in_loop, quit_loop, next_iteration, start, poll_returns, take_functors,
  call_functor, end_functors, call_functors, iteration,
}

abbrev is_calling : Phase → Bool
is_calling calling = true
is_calling p = false

-- A functor that is queued, or a wish to quit, is not slept over.
abbrev IsHeard : Phase → EventLoop → Type 0
IsHeard stopped l = l.pending_functors ≢ [] → 0 < l.wakeups
IsHeard waiting l = (l.pending_functors ≢ [] → 0 < l.wakeups) × (l.quit ≡ true → 0 < l.wakeups)
IsHeard handling l = Unit
IsHeard calling l = l.pending_functors ≢ [] → 0 < l.wakeups

pub record IsAwake (l : EventLoop) : Type 0 where
  pub in_order : l.called ++ (l.functors ++ l.pending_functors) ≡ l.queued
  pub flagged : l.calling_pending_functors ≡ is_calling l.phase
  pub taken : is_calling l.phase ≡ false → l.functors ≡ []
  pub heard : IsHeard l.phase l

-- Other threads call `queueInLoop`, `runInLoop` and `quit` at any time; in the loop's thread they are
-- called by the callbacks of channels and by functors.
pub data Step (l : EventLoop) : EventLoop → Type 0 where
  queued_elsewhere : (cb : ℕ) → Step l (queue_in_loop false cb l)
  run_elsewhere : (cb : ℕ) → Step l (run_in_loop false cb l)
  quit_elsewhere : Step l (quit_loop false l)
  queued_in_callback : (cb : ℕ) → l.phase ≡ handling → Step l (queue_in_loop true cb l)
  queued_in_functor : (cb : ℕ) → l.phase ≡ calling → Step l (queue_in_loop true cb l)
  run_here : (cb : ℕ) → Step l (run_in_loop true cb l)
  quit_in_callback : l.phase ≡ handling → Step l (quit_loop true l)
  quit_in_functor : l.phase ≡ calling → Step l (quit_loop true l)
  started : l.phase ≡ stopped → Step l (start l)
  polled : l.phase ≡ waiting → Step l (poll_returns l)
  woken : l.phase ≡ handling → Step l (handle_read l)
  took : l.phase ≡ handling → Step l (take_functors l)
  called_one :
      (cb : ℕ) (rest : List ℕ)
      → l.phase ≡ calling
      → l.functors ≡ cb ∷ rest
      → Step l (call_functor cb rest l)
  ended : l.phase ≡ calling → l.functors ≡ [] → Step l (end_functors l)

pub data Reachable : EventLoop → Type 0 where
  here : Reachable make_event_loop
  next : {l l' : EventLoop} → Reachable l → Step l l' → Reachable l'

-- A readable descriptor is enough.
readable_enough : (p : Phase) (l : EventLoop) → 0 < l.wakeups → IsHeard p l
readable_enough stopped l h = λ e. h
readable_enough waiting l h = (λ e. h, λ e. h)
readable_enough handling l h = tt
readable_enough calling l h = λ e. h

queued_order :
    (cb : ℕ) (l : EventLoop)
    → IsAwake l
    → l.called ++ (l.functors ++ (l.pending_functors ++ cb ∷ [])) ≡ l.queued ++ cb ∷ []
queued_order cb l h =
    ap (λ s. l.called ++ s) (sym (append_assoc l.functors l.pending_functors (cb ∷ [])))
    ∙ sym (append_assoc l.called (l.functors ++ l.pending_functors) (cb ∷ []))
    ∙ ap (λ s. s ++ cb ∷ []) h.in_order

queue_in_loop-IsAwake :
    (b : Bool) (cb : ℕ) (l : EventLoop)
    → IsAwake l
    → (b ≡ true
        → l.calling_pending_functors ≡ false
        → IsHeard l.phase (record l {
          pending_functors = l.pending_functors ++ cb ∷ [];
          queued = l.queued ++ cb ∷ [];
        }))
    → IsAwake (queue_in_loop b cb l)
unfolding queue_in_loop
queue_in_loop-IsAwake b cb l h k =
    if-cases IsAwake (not b || l.calling_pending_functors) _ _
      (λ e. record {
        in_order = queued_order cb l h;
        flagged = h.flagged;
        taken = h.taken;
        heard = readable_enough l.phase _ (omega arith);
      })
      (λ e. record {
        in_order = queued_order cb l h;
        flagged = h.flagged;
        taken = h.taken;
        heard = k (ground (arith, e)) (ground (arith, e));
      })

module _ (l : EventLoop) (p : Phase) (h : IsAwake l) (e : l.phase ≡ p) where
  at_phase : IsHeard p l
  at_phase = subst (λ q. IsHeard q l) e h.heard

  flagged_at : l.calling_pending_functors ≡ is_calling p
  flagged_at = h.flagged ∙ ap is_calling e

  taken_at : is_calling p ≡ false → l.functors ≡ []
  taken_at i = h.taken (ap is_calling e ∙ i)

at_once_aside :
    (p : Phase) (calls : List ℕ) (l : EventLoop)
    → IsHeard p l
    → IsHeard p (record l { called_at_once = calls })
at_once_aside stopped calls l h = h
at_once_aside waiting calls l h = h
at_once_aside handling calls l h = h
at_once_aside calling calls l h = h

run_in_loop-IsAwake : (cb : ℕ) (l : EventLoop) → IsAwake l → IsAwake (run_in_loop true cb l)
unfolding run_in_loop
run_in_loop-IsAwake cb l h = record {
  in_order = h.in_order;
  flagged = h.flagged;
  taken = h.taken;
  heard = at_once_aside l.phase _ l h.heard;
}

next_iteration-IsAwake :
    (l : EventLoop)
    → l.called ++ (l.functors ++ l.pending_functors) ≡ l.queued
    → l.calling_pending_functors ≡ false
    → l.functors ≡ []
    → (l.pending_functors ≢ [] → 0 < l.wakeups)
    → IsAwake (next_iteration l)
unfolding next_iteration
next_iteration-IsAwake l order flag none heard =
    if-cases IsAwake l.quit _ _
      (λ e. record { in_order = order; flagged = flag; taken = λ i. none; heard = heard })
      (λ e. record {
        in_order = order;
        flagged = flag;
        taken = λ i. none;
        heard = (heard, λ q. ground (arith, e, q));
      })

Step-IsAwake : {l l' : EventLoop} → Step l l' → IsAwake l → IsAwake l'
unfolding run_in_loop quit_loop start take_functors call_functor end_functors
Step-IsAwake {l} (queued_elsewhere cb) h = queue_in_loop-IsAwake false cb l h (λ e. absurd (cc))
Step-IsAwake {l} (run_elsewhere cb) h = queue_in_loop-IsAwake false cb l h (λ e. absurd (cc))
Step-IsAwake {l} quit_elsewhere h = record {
  in_order = h.in_order;
  flagged = h.flagged;
  taken = h.taken;
  heard = readable_enough l.phase _ (omega arith);
}
Step-IsAwake {l} (queued_in_callback cb e) h = queue_in_loop-IsAwake true cb l h (λ i f. rw e tt)
Step-IsAwake {l} (queued_in_functor cb e) h =
    queue_in_loop-IsAwake true cb l h (λ i f. absurd (ground (arith, e, f, h.flagged)))
Step-IsAwake {l} (run_here cb) h = run_in_loop-IsAwake cb l h
Step-IsAwake {l} (quit_in_callback e) h = record {
  in_order = h.in_order;
  flagged = h.flagged;
  taken = h.taken;
  heard = rw e tt;
}
Step-IsAwake {l} (quit_in_functor e) h = record {
  in_order = h.in_order;
  flagged = h.flagged;
  taken = h.taken;
  heard = rw e (at_phase l calling h e);
}
Step-IsAwake {l} (started e) h =
    next_iteration-IsAwake _ h.in_order (flagged_at l stopped h e) (taken_at l stopped h e refl)
      (at_phase l stopped h e)
Step-IsAwake {l} (polled e) h = record {
  in_order = h.in_order;
  flagged = flagged_at l waiting h e;
  taken = λ i. taken_at l waiting h e refl;
  heard = tt;
}
Step-IsAwake {l} (woken e) h = record {
  in_order = h.in_order;
  flagged = h.flagged;
  taken = h.taken;
  heard = rw e tt;
}
Step-IsAwake {l} (took e) h = record {
  in_order =
      ap (λ s. l.called ++ s)
        (append-nil l.pending_functors
          ∙ sym (ap (λ s. s ++ l.pending_functors) (taken_at l handling h e refl)))
      ∙ h.in_order;
  flagged = refl;
  taken = λ i. absurd (cc);
  heard = λ i. absurd (i refl);
}
Step-IsAwake {l} (called_one cb rest e f) h = record {
  in_order =
      append_assoc l.called (cb ∷ []) (rest ++ l.pending_functors)
      ∙ sym (ap (λ s. l.called ++ (s ++ l.pending_functors)) f)
      ∙ h.in_order;
  flagged = h.flagged;
  taken = λ i. absurd (ground (arith, ap is_calling e, i));
  heard = rw e (at_phase l calling h e);
}
Step-IsAwake {l} (ended e f) h =
    next_iteration-IsAwake (record l { calling_pending_functors = false }) h.in_order refl f
      (at_phase l calling h e)

make_event_loop-IsAwake : IsAwake make_event_loop
make_event_loop-IsAwake = record {
  in_order = refl;
  flagged = refl;
  taken = λ e. refl;
  heard = λ e. absurd (e refl);
}

pub Reachable-IsAwake : {l : EventLoop} → Reachable l → IsAwake l
Reachable-IsAwake here = make_event_loop-IsAwake
Reachable-IsAwake (next r st) = Step-IsAwake st (Reachable-IsAwake r)

-- What one run of the queue leaves.
abbrev Leaves : List ℕ → List ℕ → EventLoop → Type 0
Leaves called pending l = (l.called ≡ called) × (l.pending_functors ≡ pending)

call_functors-Leaves :
    (fs : List ℕ) (l : EventLoop) → Leaves (l.called ++ fs) l.pending_functors (call_functors fs l)
unfolding call_functors end_functors next_iteration call_functor
call_functors-Leaves [] l =
    if-cases (Leaves (l.called ++ []) l.pending_functors) l.quit _ _
      (λ e. (sym (append-nil l.called), refl)) (λ e. (sym (append-nil l.called), refl))
call_functors-Leaves (cb ∷ fs) l =
    let (calls, same) = call_functors-Leaves fs (call_functor cb fs l) in
    (calls ∙ append_assoc l.called (cb ∷ []) fs, same)

-- Whatever other threads, the callbacks and the functors do in whatever order: while the loop is in
-- `poll`, a functor in the queue or a wish to quit has made the wake-up descriptor readable; and an
-- iteration that is not disturbed has then called every functor that was ever queued, in the order in
-- which they were queued and each once, and leaves the queue empty.
pub Reachable-heard :
    {l : EventLoop}
    → Reachable l
    → l.phase ≡ waiting
    → (l.pending_functors ≢ [] → 0 < l.wakeups)
      × (l.quit ≡ true → 0 < l.wakeups)
      × ((iteration l).called ≡ l.queued)
      × ((iteration l).pending_functors ≡ [])
unfolding iteration take_functors
Reachable-heard {l} r e =
    let h = Reachable-IsAwake r in
    let (functor, quits) = at_phase l waiting h e in
    let taken : EventLoop = take_functors (handle_read (poll_returns l)) in
    let (calls, left) = call_functors-Leaves l.pending_functors taken in
    (
      functor,
      quits,
      calls
          ∙ sym (ap (λ s. l.called ++ (s ++ l.pending_functors)) (taken_at l waiting h e refl))
          ∙ h.in_order,
      left,
    )
