-- ===== src/Net/Connection/Phase.antt =====
-- TcpConnection.cc: the phases of a connection, and the calls that send nothing.
use myoj.Common.{
  ◌<◌, ◌≡◌, refl, ap, ◌⊎◌, inl, inr, Bool, true, false, if-cases, Option, none, some, [], ◌∷◌,
  arith,
}
use myoj.Common.Bytes.{Bytes}
use myoj.Net.Buffer.{Buffer, readable_bytes}
use myoj.Net.Buffer.Contents.{IsValid}
use myoj.Net.Buffer.Space.{read_fd-IsValid}
use myoj.Net.Connection.{
  Connection, StateE, disconnected, connecting, connected, disconnecting, is_disconnected,
  is_connected, Task, Callback, Setter, set_connection_callback, set_message_callback,
  set_write_complete_callback, set_close_callback, set_high_water_mark_callback, set, queue_task,
  shutdown_in_loop, shutdown, call, connect_established, connect_destroyed, handle_close,
  handle_read,
}

-- The three phases: closed, with no events; open with output waiting for a write event; open with
-- nothing to write.
abbrev pub Phase : StateE → (reading writing : Bool) → Buffer → Type 0
Phase s reading writing output =
    ((is_disconnected s ≡ true) × (reading ≡ false) × (writing ≡ false))
    ⊎ (((is_disconnected s ≡ false) × (writing ≡ true) × (0 < readable_bytes output))
        ⊎ ((is_disconnected s ≡ false) × (writing ≡ false) × (readable_bytes output ≡ 0)))

pub record IsSound (c : Connection) : Type 0 where
  pub input_valid : IsValid c.input_buffer
  pub output_valid : IsValid c.output_buffer
  pub phase : Phase c.state c.is_reading c.is_writing c.output_buffer

-- An open connection stays in its phase when the state changes to another open one.
pub still_open :
    (s s' : StateE) (reading reading' writing : Bool) (output : Buffer)
    → is_disconnected s ≡ false
    → is_disconnected s' ≡ false
    → Phase s reading writing output
    → Phase s' reading' writing output
still_open s s' reading reading' writing output e e' (inl (d, h, k)) = absurd (ground (arith, e, d))
still_open s s' reading reading' writing output e e' (inr (inl (d, h, k))) = inr (inl (e', h, k))
still_open s s' reading reading' writing output e e' (inr (inr (d, h, k))) = inr (inr (e', h, k))

pub queue_task-IsSound :
    (b : Bool) (t : Task) (c : Connection) → IsSound c → IsSound (queue_task b t c)
unfolding queue_task
queue_task-IsSound true t c h = record {
  input_valid = h.input_valid;
  output_valid = h.output_valid;
  phase = h.phase;
}
queue_task-IsSound false t c h = h

pub state-queue_task : (b : Bool) (t : Task) (c : Connection) → (queue_task b t c).state ≡ c.state
unfolding queue_task
state-queue_task true t c = refl
state-queue_task false t c = refl

pub call-IsSound : (b : Bool) (k : Callback) (c : Connection) → IsSound c → IsSound (call b k c)
unfolding call
call-IsSound true k c h = record {
  input_valid = h.input_valid;
  output_valid = h.output_valid;
  phase = h.phase;
}
call-IsSound false k c h = h

pub set-IsSound : (s : Setter) (c : Connection) → IsSound c → IsSound (set s c)
unfolding set
set-IsSound (set_connection_callback b) c h = record {
  input_valid = h.input_valid;
  output_valid = h.output_valid;
  phase = h.phase;
}
set-IsSound (set_message_callback b) c h = record {
  input_valid = h.input_valid;
  output_valid = h.output_valid;
  phase = h.phase;
}
set-IsSound (set_write_complete_callback b) c h = record {
  input_valid = h.input_valid;
  output_valid = h.output_valid;
  phase = h.phase;
}
set-IsSound (set_close_callback b) c h = record {
  input_valid = h.input_valid;
  output_valid = h.output_valid;
  phase = h.phase;
}
set-IsSound (set_high_water_mark_callback b n) c h = record {
  input_valid = h.input_valid;
  output_valid = h.output_valid;
  phase = h.phase;
}

pub closed-IsSound :
    (c : Connection)
    → IsSound c
    → IsSound (record c { state = disconnected; is_reading = false; is_writing = false })
closed-IsSound c h = record {
  input_valid = h.input_valid;
  output_valid = h.output_valid;
  phase = inl (refl, refl, refl);
}

pub handle_close-IsSound : (c : Connection) → IsSound c → IsSound (handle_close c)
unfolding handle_close
handle_close-IsSound c h = call-IsSound _ _ _ (call-IsSound _ _ _ (closed-IsSound c h))

pub connect_destroyed-IsSound : (c : Connection) → IsSound c → IsSound (connect_destroyed c)
unfolding connect_destroyed
connect_destroyed-IsSound c h =
    if-cases IsSound (is_connected c.state) _ c (λ e. call-IsSound _ _ _ (closed-IsSound c h))
      (λ e. h)

pub connect_established-IsSound :
    (c : Connection) → c.state ≡ connecting → IsSound c → IsSound (connect_established c)
unfolding connect_established
connect_established-IsSound c e h = call-IsSound _ _ _ (record {
  input_valid = h.input_valid;
  output_valid = h.output_valid;
  phase = still_open c.state connected _ _ _ c.output_buffer (ap is_disconnected e) refl h.phase;
})

pub handle_read-IsSound :
    (o : Option Bytes) (c : Connection) → IsSound c → IsSound (handle_read o c)
unfolding handle_read
handle_read-IsSound none c h = h
handle_read-IsSound (some []) c h = handle_close-IsSound c h
handle_read-IsSound (some (x ∷ xs)) c h = call-IsSound _ _ _ (record {
  input_valid = read_fd-IsValid (x ∷ xs) c.input_buffer h.input_valid;
  output_valid = h.output_valid;
  phase = h.phase;
})

pub shutdown_in_loop-IsSound : (c : Connection) → IsSound c → IsSound (shutdown_in_loop c)
unfolding shutdown_in_loop
shutdown_in_loop-IsSound c h =
    if-cases IsSound c.is_writing c _ (λ e. h)
      (λ e. record { input_valid = h.input_valid; output_valid = h.output_valid; phase = h.phase })

pub open_when_connected : (s : StateE) → is_connected s ≡ true → is_disconnected s ≡ false
open_when_connected connected e = refl
open_when_connected disconnecting e = refl
open_when_connected connecting e = refl
open_when_connected disconnected e = absurd (ground (arith, e))

pub shutdown-IsSound : (in_loop : Bool) (c : Connection) → IsSound c → IsSound (shutdown in_loop c)
unfolding shutdown
shutdown-IsSound in_loop c h =
    if-cases IsSound (is_connected c.state) _ c
      (λ e.
        let down : IsSound (record c { state = disconnecting }) = record {
          input_valid = h.input_valid;
          output_valid = h.output_valid;
          phase =
              still_open c.state disconnecting c.is_reading c.is_reading c.is_writing
                c.output_buffer (open_when_connected c.state e) refl h.phase;
        } in
        if-cases IsSound in_loop _ _ (λ i. shutdown_in_loop-IsSound _ down)
          (λ i. queue_task-IsSound true _ _ down))
      (λ e. h)
