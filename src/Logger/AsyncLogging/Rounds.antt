-- ===== src/Logger/AsyncLogging/Rounds.antt =====
-- AsyncLogging.cpp: what the rounds of `threadFunc` keep.
use myoj.Common.{
  ◌≤◌, ◌≡◌, inl, inr, refl, sym, ap, ◌∙◌, subst, if-cases, none, some, List, [], ◌∷◌, ◌++◌,
  append-nil, append_assoc, length, length-append, All, All-append, arith,
}
use myoj.Common.Bytes.{Bytes}
use myoj.Logger.FixedBuffer.{FixedBuffer, make_fixed_buffer, reset}
use myoj.Logger.AsyncLogging.{
  new_buffer, Phase, idle, at_head, behind_lock, ended, AsyncLogging, fill_next, swap_at, texts,
  recycle, resized, recycled1, recycled2, finish_round, step_from,
}
use myoj.Logger.AsyncLogging.Kept.{IsLarge, IsOwn, text_at, IsKept, texts-append}

-- The block under the lock.
swap_at-IsKept :
    (log : Bytes) (s : AsyncLogging)
    → IsKept log s
    → IsOwn at_head s.new_buffer1 s.new_buffer2 s.buffers_to_write
    → (t : AsyncLogging) × (swap_at s.current_buffer s ≡ some t) × IsKept log t
unfolding swap_at fill_next
swap_at-IsKept log s h own =
    let b = h.current.0 in
    (
      _,
      ap (λ o. swap_at o s) h.current.1,
      record {
        current = (new_buffer, own.0, (refl, omega arith));
        waiting = elim h.waiting [
          | inl e ↦ inl (ap (λ o. (fill_next o s.new_buffer2).0) e)
          | inr e ↦ inl (ap (λ o. (fill_next o s.new_buffer2).0) e.0 ∙ own.1)
        ];
        large = subst (All IsLarge) (sym own.2) tt;
        own = (
          refl,
          All-append IsLarge s.buffers (b ∷ []) h.large (h.current.2, tt),
          elim h.waiting [
            | inl e ↦ inl (
              ap (λ o. (fill_next o s.new_buffer2).1) e ∙ own.1,
              omega (arith, length-append {0} s.buffers (b ∷ [])),
            )
            | inr e ↦ inr (
              ap (λ o. (fill_next o s.new_buffer2).1) e.0,
              omega (arith, e.1, length-append {0} s.buffers (b ∷ [])),
            )
          ],
        );
        text =
            ap
              (λ o.
                s.output
                ++ (texts (s.buffers ++ b ∷ []) ++ (texts s.buffers_to_write ++ text_at o)))
              own.0
            ∙ ap (λ ws. s.output ++ (texts (s.buffers ++ b ∷ []) ++ (texts ws ++ []))) own.2
            ∙ ap (λ xs. s.output ++ (xs ++ [])) (texts-append s.buffers (b ∷ []))
            ∙ simp append-nil refl
            ∙ ap (λ ws. s.output ++ (texts ws ++ (texts s.buffers ++ b.text))) (sym own.2)
            ∙ ap (λ c. s.output ++ (texts s.buffers_to_write ++ (texts s.buffers ++ text_at c)))
                (sym h.current.1)
            ∙ h.text;
      },
    )

resized-pair : (b c : FixedBuffer) (ds : List FixedBuffer) → resized (b ∷ c ∷ ds) ≡ b ∷ c ∷ []
unfolding resized
resized-pair b c [] = refl
resized-pair b c (d ∷ ds) = ground arith

reset-large : (b : FixedBuffer) → IsLarge b → reset b ≡ new_buffer
reset-large b v = ap make_fixed_buffer v.0

-- A buffer that is taken from the end of what was written.
recycle_one :
    (bs : List FixedBuffer)
    → All IsLarge bs
    → 1 ≤ length bs
    → (rest : List FixedBuffer) × (recycle none (resized bs) ≡ some (new_buffer, rest))
unfolding recycle resized
recycle_one [] h k = absurd (omega (arith, k))
recycle_one (b ∷ []) h k = ([], ap (λ c. some (c, [])) (reset-large b h.0))
recycle_one (b ∷ c ∷ ds) h k = (
  b ∷ [],
  ap (recycle none) (resized-pair b c ds) ∙ ap (λ d. some (d, b ∷ [])) (reset-large c h.1.0),
)

-- Two of them.
recycle_two :
    (bs : List FixedBuffer)
    → All IsLarge bs
    → 2 ≤ length bs
    → (rest : List FixedBuffer) × (recycle none (resized bs) ≡ some (new_buffer, rest))
      × (recycle none rest ≡ some (new_buffer, []))
unfolding recycle
recycle_two [] h k = absurd (omega (arith, k))
recycle_two (b ∷ []) h k = absurd (omega (arith, k))
recycle_two (b ∷ c ∷ ds) h k = (
  b ∷ [],
  ap (recycle none) (resized-pair b c ds) ∙ ap (λ d. some (d, b ∷ [])) (reset-large c h.1.0),
  ap (λ d. some (d, [])) (reset-large b h.0),
)

abbrev round_done : AsyncLogging → AsyncLogging
round_done s = record s {
  phase = at_head;
  output = s.output ++ texts s.buffers_to_write;
  new_buffer1 = some new_buffer;
  new_buffer2 = some new_buffer;
  buffers_to_write = [];
}

round_done-IsKept : (log : Bytes) (s : AsyncLogging) → IsKept log s → IsKept log (round_done s)
round_done-IsKept log s h = record {
  current = h.current;
  waiting = h.waiting;
  large = h.large;
  own = (refl, refl, refl);
  text = append_assoc s.output (texts s.buffers_to_write) _ ∙ h.text;
}

-- The rest of a round finds the two buffers that it needs.
finish_round-round_done :
    (s : AsyncLogging)
    → IsOwn behind_lock s.new_buffer1 s.new_buffer2 s.buffers_to_write
    → finish_round s ≡ some (round_done s)
unfolding finish_round recycled1 recycled2 recycle
finish_round-round_done s own = elim own.2 [
  | inl one ↦
      let r = recycle_one s.buffers_to_write own.1 one.1 in
      ap (recycled1 s) (ap (λ o. recycle o (resized s.buffers_to_write)) own.0 ∙ r.1)
      ∙ ap (λ o. recycled2 s new_buffer (recycle o r.0)) one.0
  | inr two ↦
      let r = recycle_two s.buffers_to_write own.1 two.1 in
      ap (recycled1 s) (ap (λ o. recycle o (resized s.buffers_to_write)) own.0 ∙ r.1)
      ∙ ap (λ o. recycled2 s new_buffer (recycle o r.0)) two.0
      ∙ ap (recycled2 s new_buffer) r.2
]

pub phase-IsOwn :
    (p : Phase) (log : Bytes) (s : AsyncLogging)
    → s.phase ≡ p
    → IsKept log s
    → IsOwn p s.new_buffer1 s.new_buffer2 s.buffers_to_write
phase-IsOwn p log s e h =
    subst (λ q. IsOwn q s.new_buffer1 s.new_buffer2 s.buffers_to_write) e h.own

pub step_from-IsKept :
    (p : Phase) (log : Bytes) (s : AsyncLogging)
    → s.phase ≡ p
    → IsKept log s
    → (t : AsyncLogging) × (step_from p s ≡ some t) × IsKept log t
unfolding step_from
step_from-IsKept idle log s e h = (s, refl, h)
step_from-IsKept ended log s e h = (s, refl, h)
step_from-IsKept at_head log s e h =
    if-cases (λ o. (t : AsyncLogging) × (o ≡ some t) × IsKept log t) s.running _ _
      (λ r. swap_at-IsKept log s h (phase-IsOwn at_head log s e h))
      (λ r. (
        _,
        refl,
        record {
          current = h.current;
          waiting = h.waiting;
          large = h.large;
          text = h.text;
          own = phase-IsOwn at_head log s e h;
        },
      ))
step_from-IsKept behind_lock log s e h = (
  round_done s,
  finish_round-round_done s (phase-IsOwn behind_lock log s e h),
  round_done-IsKept log s h,
)
