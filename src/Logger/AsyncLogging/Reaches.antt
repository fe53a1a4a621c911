-- ===== src/Logger/AsyncLogging/Reaches.antt =====
-- AsyncLogging.cpp: no line is lost or put out of order while the thread runs, and no empty pointer is
-- gone through.
use myoj.Common.{◌≡◌, inl, refl, sym, ◌∙◌, subst, Option, some, [], ◌++◌, arith}
use mathlib.Core.Option.{some-injective}
use myoj.Common.Bytes.{Bytes}
use myoj.Logger.AsyncLogging.{
  new_buffer, idle, AsyncLogging, make_async_logging, start, stop, append_line, thread_step,
}
use myoj.Logger.AsyncLogging.Kept.{kept, all_text, IsKept, append_line-IsKept}
use myoj.Logger.AsyncLogging.Rounds.{phase-IsOwn, step_from-IsKept}

pub data Reachable : AsyncLogging → Bytes → Type 0 where
  made : Reachable make_async_logging []
  starts :
      {s : AsyncLogging} {log : Bytes} → Reachable s log → s.phase ≡ idle → Reachable (start s) log
  stops : {s : AsyncLogging} {log : Bytes} → Reachable s log → Reachable (stop s) log
  appends :
      {s t : AsyncLogging} {log : Bytes} (log_line : Bytes)
      → Reachable s log
      → append_line log_line s ≡ some t
      → Reachable t (log ++ kept log_line)
  works :
      {s t : AsyncLogging} {log : Bytes}
      → Reachable s log
      → thread_step s ≡ some t
      → Reachable t log

-- A result that is `some t` is that `t`.
given :
    {A : Type 0} (P : A → Type 0) (o : Option A) (t : A)
    → (u : A) × (o ≡ some u) × P u
    → o ≡ some t
    → P t
given P o t r e = subst P (some-injective r.0 t (sym r.1 ∙ e)) r.2

Reachable-IsKept : {s : AsyncLogging} {log : Bytes} → Reachable s log → IsKept log s
unfolding thread_step
Reachable-IsKept made = record {
  current = (new_buffer, refl, (refl, omega arith));
  waiting = inl refl;
  large = tt;
  own = (refl, refl, refl);
  text = refl;
}
Reachable-IsKept (starts {s} {log} r e) =
    let h = Reachable-IsKept r in
    record {
      current = h.current;
      waiting = h.waiting;
      large = h.large;
      text = h.text;
      own = phase-IsOwn idle log s e h;
    }
Reachable-IsKept (stops r) =
    let h = Reachable-IsKept r in
    record { current = h.current; waiting = h.waiting; large = h.large; text = h.text; own = h.own }
Reachable-IsKept (appends {s} {t} {log} l r e) =
    given (IsKept (log ++ kept l)) (append_line l s) t
      (append_line-IsKept l log s (Reachable-IsKept r)) e
Reachable-IsKept (works {s} {t} {log} r e) =
    given (IsKept log) (thread_step s) t (step_from-IsKept s.phase log s refl (Reachable-IsKept r))
      e

-- Whatever lines are appended, started and stopped, and however the thread's steps fall in between: what
-- was given to the file, what is being written and what waits in the buffers are together all the lines of
-- less than 4000000 bytes, in their order and each once; and neither the next append nor the next step of
-- the thread goes through an empty pointer.
pub Reachable-all_text :
    {s : AsyncLogging} {log : Bytes}
    → Reachable s log
    → (all_text s ≡ log)
      × ((l : Bytes) → (t : AsyncLogging) × (append_line l s ≡ some t))
      × ((t : AsyncLogging) × (thread_step s ≡ some t))
unfolding thread_step
Reachable-all_text {s} {log} r =
    let h = Reachable-IsKept r in
    let step = step_from-IsKept s.phase log s refl h in
    (h.text, λ l. let a = append_line-IsKept l log s h in (a.0, a.1), (step.0, step.1))
