-- ===== src/Net/Channel.antt =====
-- include/net/Channel.h and src/net/Channel.cc: the events that a channel wants, its state in the poller, and
-- the callbacks that an event calls. `events_` is a set of the two kinds of events; `revents_` is the
-- bit set that the kernel returned.
use myoj.Common.{
  ℕ, ◌+◌, ◌/◌, ◌%◌, ◌^◌, Bool, true, false, not, ◌&&◌, ◌||◌, Option, none, some, List, [], ◌∷◌,
  ◌++◌, ◌==◌, if◌then◌else◌,
}

pub record Events : Type 0 where
  pub reading : Bool
  pub writing : Bool

abbrev pub none_event : Events
none_event = record { reading = false; writing = false }

-- `EPOLLIN | EPOLLPRI` is 3 and `EPOLLOUT` is 4.
unfoldable pub event_bits : Events → ℕ
event_bits e = (if e.reading then 3 else 0) + (if e.writing then 4 else 0)

-- `kNew`, `kAdded` and `kDeleted` of the poller.
pub data Index : Type 0 where
  new added deleted : Index

pub data EventCallback : Type 0 where
  close_callback error_callback read_callback write_callback : EventCallback

-- A tie is to an object that is alive or gone. The fields that start with `has` say whether a callback is
-- set.
pub record Channel : Type 0 where
  pub fd : ℕ
  pub events : Events
  pub revents : ℕ
  pub index : Index
  pub tie : Option Bool
  pub has_read_callback : Bool
  pub has_write_callback : Bool
  pub has_close_callback : Bool
  pub has_error_callback : Bool

abbrev pub make_channel : ℕ → Channel
make_channel fd = record {
  fd = fd;
  events = none_event;
  revents = 0;
  index = new;
  tie = none;
  has_read_callback = false;
  has_write_callback = false;
  has_close_callback = false;
  has_error_callback = false;
}

abbrev pub is_none_event : Channel → Bool
is_none_event c = not c.events.reading && not c.events.writing

-- The changes of `events_` before `update()`.
pub data Change : Type 0 where
  enable_reading disable_reading enable_writing disable_writing disable_all : Change

unfoldable pub changed : Change → Events → Events
changed enable_reading e = record e { reading = true }
changed disable_reading e = record e { reading = false }
changed enable_writing e = record e { writing = true }
changed disable_writing e = record e { writing = false }
changed disable_all e = none_event

-- Bit `k` of `revents_`: 0 is EPOLLIN, 1 EPOLLPRI, 2 EPOLLOUT, 3 EPOLLERR and 4 EPOLLHUP.
abbrev pub bit : ℕ → ℕ → Bool
bit n k = n / 2 ^ k % 2 == 1

abbrev pub call_if : Bool → Bool → EventCallback → List EventCallback
call_if event is_set cb = if event && is_set then cb ∷ [] else []

unfoldable pub handle_event_with_guard : Channel → List EventCallback
handle_event_with_guard c =
    call_if (bit c.revents 4 && not (bit c.revents 0)) c.has_close_callback close_callback
    ++ call_if (bit c.revents 3) c.has_error_callback error_callback
    ++ call_if (bit c.revents 0 || bit c.revents 1) c.has_read_callback read_callback
    ++ call_if (bit c.revents 2) c.has_write_callback write_callback

unfoldable pub handle_event : Channel → List EventCallback
handle_event c = elim c.tie [
  | none ↦ handle_event_with_guard c
  | some alive ↦ if alive then handle_event_with_guard c else []
]
