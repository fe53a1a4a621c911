-- ===== src/Logger/AsyncLogging/Kept.antt =====
-- AsyncLogging.cpp: what holds of the buffers between two calls, and that `append` keeps it.
use myoj.Common.{
  ◌≤◌, ◌<◌, ◌≡◌, ◌⊎◌, inl, inr, refl, sym, ap, ◌∙◌, subst, ltb, if◌then◌else◌, if-cases, dec_lt,
  Option, none, some, List, [], ◌∷◌, ◌++◌, append-nil, append_assoc, length, length-append, All,
  All-append, arith,
}
use myoj.Common.Bytes.{Bytes}
use myoj.Logger.FixedBuffer.{FixedBuffer, avail, append}
use myoj.Logger.AsyncLogging.{
  k_large_buffer, new_buffer, Phase, behind_lock, AsyncLogging, or_new, append_at, append_line,
  texts,
}

-- A line of 4000000 bytes or more fits no buffer.
abbrev pub kept : Bytes → Bytes
kept log_line = if ltb (length log_line) k_large_buffer then log_line else []

abbrev pub IsLarge : FixedBuffer → Type 0
IsLarge b = (b.size ≡ k_large_buffer) × (length b.text ≤ b.size)

abbrev pub text_at : Option FixedBuffer → Bytes
text_at none = []
text_at (some b) = b.text

-- The thread's own buffers, by where it is.
abbrev pub IsOwn : Phase → Option FixedBuffer → Option FixedBuffer → List FixedBuffer → Type 0
IsOwn behind_lock b1 b2 bs =
    (b1 ≡ none)
    × All IsLarge bs
    × (((b2 ≡ some new_buffer) × (1 ≤ length bs)) ⊎ ((b2 ≡ none) × (2 ≤ length bs)))
IsOwn p b1 b2 bs = (b1 ≡ some new_buffer) × (b2 ≡ some new_buffer) × (bs ≡ [])

-- What was given to the file, is being written and is waiting, in this order.
abbrev pub all_text : AsyncLogging → Bytes
all_text s = s.output ++ (texts s.buffers_to_write ++ (texts s.buffers ++ text_at s.current_buffer))

pub record IsKept (log : Bytes) (s : AsyncLogging) : Type 0 where
  pub current : (b : FixedBuffer) × (s.current_buffer ≡ some b) × IsLarge b
  pub waiting :
      (s.next_buffer ≡ some new_buffer) ⊎ ((s.next_buffer ≡ none) × (1 ≤ length s.buffers))
  pub large : All IsLarge s.buffers
  pub own : IsOwn s.phase s.new_buffer1 s.new_buffer2 s.buffers_to_write
  pub text : all_text s ≡ log

pub texts-append : (bs cs : List FixedBuffer) → texts (bs ++ cs) ≡ texts bs ++ texts cs
texts-append [] cs = refl
texts-append (b ∷ bs) cs =
    ap (λ xs. b.text ++ xs) (texts-append bs cs) ∙ sym (append_assoc b.text (texts bs) (texts cs))

append-fits :
    (l : Bytes) (b : FixedBuffer)
    → length l < avail b
    → append l b ≡ record { size = b.size; text = b.text ++ l }
unfolding append
append-fits l b h = ground (arith, h)

append-new_buffer :
    (l : Bytes) → append l new_buffer ≡ record { size = k_large_buffer; text = kept l }
unfolding append
append-new_buffer l = elim (dec_lt (length l) k_large_buffer) [
  | yes h ↦ ground (arith, h)
  | no h ↦ ground (arith, h)
]

length-kept-le : (l : Bytes) → length (kept l) ≤ k_large_buffer
length-kept-le l = elim (dec_lt (length l) k_large_buffer) [
  | yes h ↦ ground (arith, h)
  | no h ↦ ground (arith, h)
]

-- What is written behind the current buffer is behind all text.
extended :
    (s : AsyncLogging) (b : FixedBuffer) (log x : Bytes)
    → s.current_buffer ≡ some b
    → all_text s ≡ log
    → s.output ++ (texts s.buffers_to_write ++ (texts s.buffers ++ (b.text ++ x))) ≡ log ++ x
extended s b log x e h =
    simp append_assoc refl
    ∙ ap (λ c. (s.output ++ (texts s.buffers_to_write ++ (texts s.buffers ++ text_at c))) ++ x)
        (sym e)
    ∙ ap (λ y. y ++ x) h

-- Where the line fits behind the text of the current buffer.
fits-IsKept :
    (l log : Bytes) (s : AsyncLogging) (b : FixedBuffer)
    → s.current_buffer ≡ some b
    → IsLarge b
    → length l < avail b
    → IsKept log s
    → IsKept (log ++ kept l) (record s { current_buffer = some (append l b) })
fits-IsKept l log s b e v r h =
    let fitted = append-fits l b r in
    let kept_whole : kept l ≡ l = ground (arith, v.0, v.1, r) in
    record {
      current = (
        append l b,
        refl,
        subst IsLarge (sym fitted) (v.0, omega (arith, length-append {0} b.text l, r)),
      );
      waiting = h.waiting;
      large = h.large;
      own = h.own;
      text =
          ap
            (λ (c : FixedBuffer).
              s.output ++ (texts s.buffers_to_write ++ (texts s.buffers ++ c.text)))
            fitted
          ∙ extended s b log l e h.text
          ∙ ap (λ x. log ++ x) (sym kept_whole);
    }

-- Where it does not.
full-IsKept :
    (l log : Bytes) (s : AsyncLogging) (b : FixedBuffer)
    → s.current_buffer ≡ some b
    → IsLarge b
    → IsKept log s
    → IsKept (log ++ kept l) (record s {
      buffers = s.buffers ++ b ∷ [];
      current_buffer = some (append l (or_new s.next_buffer));
      next_buffer = none;
    })
full-IsKept l log s b e v h =
    let fresh : or_new s.next_buffer ≡ new_buffer = elim h.waiting [
      | inl some_next ↦ ap or_new some_next
      | inr no_next ↦ ap or_new (no_next.0)
    ] in
    let stored = ap (append l) fresh ∙ append-new_buffer l in
    record {
      current = (
        append l (or_new s.next_buffer),
        refl,
        subst IsLarge (sym stored) (refl, length-kept-le l),
      );
      waiting = inr (refl, omega (arith, length-append {0} s.buffers (b ∷ [])));
      large = All-append IsLarge s.buffers (b ∷ []) h.large (v, tt);
      own = h.own;
      text =
          ap
            (λ (c : FixedBuffer).
              s.output ++ (texts s.buffers_to_write ++ (texts (s.buffers ++ b ∷ []) ++ c.text)))
            stored
          ∙ ap (λ xs. s.output ++ (texts s.buffers_to_write ++ (xs ++ kept l)))
              (texts-append s.buffers (b ∷ []))
          ∙ simp (append_assoc, append-nil) refl
          ∙ extended s b log (kept l) e h.text;
    }

pub append_line-IsKept :
    (l log : Bytes) (s : AsyncLogging)
    → IsKept log s
    → (t : AsyncLogging) × (append_line l s ≡ some t) × IsKept (log ++ kept l) t
unfolding append_line append_at
append_line-IsKept l log s h =
    let b = h.current.0 in
    let fits = record s { current_buffer = some (append l b) } in
    let full = record s {
      buffers = s.buffers ++ b ∷ [];
      current_buffer = some (append l (or_new s.next_buffer));
      next_buffer = none;
    } in
    (
      _,
      ap (λ o. append_at o l s) h.current.1,
      if-cases (IsKept (log ++ kept l)) (ltb (length l) (avail b)) fits full
          (λ e. fits-IsKept l log s b h.current.1 h.current.2 (ground (arith, e)) h)
          (λ e. full-IsKept l log s b h.current.1 h.current.2 h),
    )
