-- ===== src/Oj/Snowflake/Step.antt =====
-- snowflake.hpp: the fields of an identifier, and one call of `nextid`.
use Prim.Native.Nat.{bit_and, bit_or}
use myoj.Common.{
  ℕ, ◌+◌, ◌-◌, ◌*◌, ◌^◌, ◌≤◌, ◌<◌, ◌≡◌, ◌≢◌, refl, sym, ap, ◌∙◌, ◌⊎◌, inl, inr, true, false,
  Bool-cases, Option-cases, if-cases, subst, Option, none, some, List, [], ◌∷◌, leb, ◌==◌, ==_iff,
  if◌then◌else◌, arith, dec_lt,
}
use myoj.Oj.Snowflake.{
  Snowflake, twepoch, compose, since_epoch, ◌<<<◌, next_sequence, next_id, next_id_at, issue,
  issue_later, Issued, wait_next_millis, is_same, sequence_mask,
}
use myoj.Oj.Snowflake.Bits.{or_of_fields, and_of_mask}

pub record IsSound (s : Snowflake) : Type 0 where
  pub worker_fits : s.worker_id < 32
  pub datacenter_fits : s.datacenter_id < 32
  pub sequence_fits : s.sequence < 4096

-- The times that fit the 41 bits of an identifier.
abbrev pub InEpoch : ℕ → Type 0
InEpoch t = (twepoch ≤ t) × (t < twepoch + 2 ^ 41)

-- The fields of an identifier: 12 bits of sequence, 5 of worker, 5 of datacenter, and the time.
pub compose_fields :
    (t : ℕ) (s : Snowflake)
    → IsSound s
    → InEpoch t
    → compose t s
      ≡ ((t - twepoch) * 2 ^ 22 + s.datacenter_id * 2 ^ 17 + s.worker_id * 2 ^ 12 + s.sequence)
unfolding compose
compose_fields t s h r =
    let e : ℕ = t - twepoch in
    let time : since_epoch t <<< 22 ≡ e * 2 ^ 22 = omega (arith, r) in
    let center : s.datacenter_id <<< 17 ≡ s.datacenter_id * 2 ^ 17 =
      omega (arith, h.datacenter_fits) in
    let worker : s.worker_id <<< 12 ≡ s.worker_id * 2 ^ 12 = omega (arith, h.worker_fits) in
    let x : ℕ = e * 2 ^ 22 + s.datacenter_id * 2 ^ 17 in
    let y : ℕ = x + s.worker_id * 2 ^ 12 in
    let one : bit_or (e * 2 ^ 22) (s.datacenter_id * 2 ^ 17) ≡ x =
      or_of_fields 22 e (s.datacenter_id * 2 ^ 17) (omega (arith, h.datacenter_fits)) in
    let two : bit_or x (s.worker_id * 2 ^ 12) ≡ y =
      ap (λ z. bit_or z (s.worker_id * 2 ^ 12)) (omega arith)
      ∙ or_of_fields 17 (e * 2 ^ 5 + s.datacenter_id) (s.worker_id * 2 ^ 12)
          (omega (arith, h.worker_fits))
      ∙ omega arith in
    let three : bit_or y s.sequence ≡ y + s.sequence =
      ap (λ z. bit_or z s.sequence) (omega arith)
      ∙ or_of_fields 12 (e * 2 ^ 10 + s.datacenter_id * 2 ^ 5 + s.worker_id) s.sequence
          h.sequence_fits
      ∙ omega arith in
    rw (time, center, worker, one, two, three) refl

pub compose_fits : (t : ℕ) (s : Snowflake) → IsSound s → InEpoch t → compose t s < 2 ^ 63
compose_fits t s h r =
    omega (arith, compose_fields t s h r, r, h.worker_fits, h.datacenter_fits, h.sequence_fits)

pub next_sequence_value :
    (n : ℕ)
    → n < 4096
    → ((n ≡ 4095) × (bit_and (n + 1) sequence_mask ≡ 0))
      ⊎ ((n < 4095) × (bit_and (n + 1) sequence_mask ≡ n + 1))
next_sequence_value n h = elim (dec_lt n 4095) [
  | yes low ↦ inr (
    low,
    ap (λ k. bit_and k sequence_mask) (omega arith) ∙ and_of_mask 12 0 (n + 1) (omega arith),
  )
  | no top ↦
      let full : n + 1 ≡ 1 * 2 ^ 12 + 0 = omega arith in
      inl (omega arith, ap (λ k. bit_and k sequence_mask) full ∙ and_of_mask 12 1 0 (omega arith))
]

-- A clock that shows `l` and then never goes back, nor past the 41 bits.
abbrev pub IsSteady : ℕ → List ℕ → Type 0
IsSteady l [] = Unit
IsSteady l (t ∷ clock) = ((l ≤ t) × (t < twepoch + 2 ^ 41)) × IsSteady t clock

-- The identifier that was issued last, if there was one, is less than `id`.
abbrev pub Above : Option ℕ → Snowflake → ℕ → Type 0
Above none s id = Unit
Above (some l) s id = compose l s < id

-- The state behind a call at the time `t`.
abbrev pub Ready : ℕ → Snowflake → List ℕ → Type 0
Ready t s clock = IsSound s × (s.last_timestamp ≡ some t) × InEpoch t × IsSteady t clock

abbrev pub Later : Snowflake → Issued → Type 0
Later s none = Unit
Later s (some (id, s', clock)) =
    (t : ℕ) × (id ≡ compose t s') × Above s.last_timestamp s id × Ready t s' clock

pub compose_grows :
    (l t : ℕ) (s s' : Snowflake)
    → IsSound s
    → IsSound s'
    → InEpoch l
    → InEpoch t
    → l < t
    → compose l s < compose t s'
compose_grows l t s s' h h' e e' k = omega (
  arith,
  compose_fields l s h e,
  compose_fields t s' h' e',
  e,
  k,
  h.worker_fits,
  h.datacenter_fits,
  h.sequence_fits,
)

pub issue-Later :
    (s s' : Snowflake) (t : ℕ) (clock : List ℕ)
    → Above s.last_timestamp s (compose t s')
    → IsSound s'
    → InEpoch t
    → IsSteady t clock
    → Later s (issue s' t clock)
unfolding issue compose
issue-Later s s' t clock a h e k = (
  t,
  refl,
  a,
  (
    record {
      worker_fits = h.worker_fits;
      datacenter_fits = h.datacenter_fits;
      sequence_fits = h.sequence_fits;
    },
    refl,
    e,
    k,
  ),
)

-- What the waiting returns is past the last time and on the same clock.
abbrev pub Past : ℕ → Option (ℕ × List ℕ) → Type 0
Past l none = Unit
Past l (some (t, clock)) = ((l < t) × (t < twepoch + 2 ^ 41)) × IsSteady t clock

pub wait_next_millis-Past :
    (l now : ℕ) (clock : List ℕ) → IsSteady now clock → Past l (wait_next_millis l clock)
unfolding wait_next_millis
wait_next_millis-Past l now [] h = tt
wait_next_millis-Past l now (t ∷ clock) h =
    if-cases (Past l) (leb t l) _ _ (λ e. wait_next_millis-Past l t clock h.1)
      (λ e. ((ground (arith, e), h.0.1), h.1))

pub issue_later-Later :
    (s s' : Snowflake) (l : ℕ) (o : Option (ℕ × List ℕ))
    → IsSound s
    → IsSound s'
    → s.last_timestamp ≡ some l
    → InEpoch l
    → Past l o
    → Later s (issue_later s' o)
unfolding issue_later
issue_later-Later s s' l none h h' e k p = tt
issue_later-Later s s' l (some (t, clock)) h h' e k p =
    issue-Later s s' t clock
      (simp e (compose_grows l t s s' h h' k (omega (arith, k, p.0.0), p.0.1) p.0.0)) h'
      (omega (arith, k, p.0.0), p.0.1) p.1

-- The clock goes on from the last call, or from the beginning of the epoch.
abbrev pub Follows : Option ℕ → List ℕ → Type 0
Follows none clock = IsSteady twepoch clock
Follows (some l) clock = InEpoch l × IsSteady l clock

pub next_sequence-IsSound : (s : Snowflake) → IsSound s → IsSound (next_sequence s)
unfolding next_sequence
next_sequence-IsSound s h = record {
  worker_fits = h.worker_fits;
  datacenter_fits = h.datacenter_fits;
  sequence_fits = omega (arith, next_sequence_value s.sequence h.sequence_fits);
}

-- Within a millisecond the sequence number counts.
pub compose-next_sequence :
    (l : ℕ) (s : Snowflake)
    → IsSound s
    → InEpoch l
    → (next_sequence s).sequence ≢ 0
    → compose l s < compose l (next_sequence s)
unfolding next_sequence
compose-next_sequence l s h e k = omega (
  arith,
  compose_fields l s h e,
  compose_fields l (next_sequence s) (next_sequence-IsSound s h) e,
  next_sequence_value s.sequence h.sequence_fits,
  k,
)

pub again-Later :
    (l : ℕ) (clock : List ℕ) (s : Snowflake)
    → IsSound s
    → s.last_timestamp ≡ some l
    → InEpoch l
    → IsSteady l clock
    → Later s (
        if (next_sequence s).sequence == 0
        then issue_later (next_sequence s) (wait_next_millis l clock)
        else issue (next_sequence s) l clock)
again-Later l clock s h e k p =
    if-cases (Later s) ((next_sequence s).sequence == 0) _ _
      (λ z.
        issue_later-Later s (next_sequence s) l (wait_next_millis l clock) h
          (next_sequence-IsSound s h) e k (wait_next_millis-Past l l clock p))
      (λ z.
        issue-Later s (next_sequence s) l clock
          (simp e (compose-next_sequence l s h k (ground (arith, z)))) (next_sequence-IsSound s h) k
          p)

pub restarted-IsSound : (s : Snowflake) → IsSound s → IsSound (record s { sequence = 0 })
restarted-IsSound s h = record {
  worker_fits = h.worker_fits;
  datacenter_fits = h.datacenter_fits;
  sequence_fits = omega arith;
}

-- On a steady clock an identifier is greater than the one issued before, and the generator is ready
-- for the next call.
pub next_id-Later :
    (clock : List ℕ) (s : Snowflake)
    → IsSound s
    → Follows s.last_timestamp clock
    → Later s (next_id clock s)
unfolding next_id next_id_at is_same
next_id-Later [] s h k = tt
next_id-Later (t ∷ clock) s h k = elim (Option-cases s.last_timestamp) [
  | inl e ↦
      let first : IsSteady twepoch (t ∷ clock) = subst (λ o. Follows o (t ∷ clock)) e k in
      let other : is_same s.last_timestamp t ≡ false = ap (λ o. is_same o t) e in
      simp other (
        issue-Later s (record s { sequence = 0 }) t clock (simp e tt) (restarted-IsSound s h)
          first.0 first.1)
  | inr (l, e) ↦
      let later : Follows (some l) (t ∷ clock) = subst (λ o. Follows o (t ∷ clock)) e k in
      let now_in : InEpoch t = (omega (arith, later.0.0, later.1.0.0), later.1.0.1) in
      elim (Bool-cases (l == t)) [
        | inl same ↦
            let now : is_same s.last_timestamp t ≡ true = ap (λ o. is_same o t) e ∙ same in
            let at_once : l ≡ t = (==_iff l t).0 same in
            simp now (again-Later t clock s h (e ∙ ap some at_once) now_in later.1.1)
        | inr other ↦
            let past : is_same s.last_timestamp t ≡ false = ap (λ o. is_same o t) e ∙ other in
            simp past (
              issue-Later s (record s { sequence = 0 }) t clock
                (subst (λ o. Above o s (compose t (record s { sequence = 0 }))) (sym e)
                  (compose_grows l t s (record s { sequence = 0 }) h (restarted-IsSound s h) later.0
                    now_in (ground (arith, other, later.1.0.0))))
                (restarted-IsSound s h) now_in later.1.1)
      ]
]
