-- ===== src/Net/EpollPoller/Tests.antt =====
-- An epoll that behaves as documented, runs of the poller on it, and the theorem on one.
use mathlib.Core.Option.{some-injective}
use myoj.Common.{sym, ◌∙◌, ◌⊎◌, ℕ, ◌≡◌, refl, ap, if-cases, ◌==◌, Option, none, some, [], ◌∷◌, true}
use myoj.Net.Channel.{
  Channel, added, make_channel, enable_reading, disable_all, changed, handle_event,
  handle_event_with_guard, read_callback, event_bits,
}
use myoj.Net.EpollPoller.{
  Operation, epoll_ctl_add, epoll_ctl_mod, epoll_ctl_del, EpollEvent, Epoll, EpollPoller, write_to,
  updated, update, update_added, update_by, update_channel, remove_by, remove_channel,
  change_events,
}
use myoj.Net.EpollPoller.Registered.{IsEpoll, IsRegistered, IsAlone}
use myoj.Net.EpollPoller.Calls.{
  Refuses, changes_events, call, opened, created, Reachable, at_start, creates, call-IsRegistered,
}

abbrev Watched : Type 0
Watched = ℕ → Option EpollEvent

abbrev ctl_at : Operation → ℕ → EpollEvent → Watched → Option EpollEvent → Option Watched
ctl_at epoll_ctl_add fd e k none = some (write_to fd (some e) k)
ctl_at epoll_ctl_add fd e k (some old) = none
ctl_at epoll_ctl_mod fd e k (some old) = some (write_to fd (some e) k)
ctl_at epoll_ctl_mod fd e k none = none
ctl_at epoll_ctl_del fd e k (some old) = some (write_to fd none k)
ctl_at epoll_ctl_del fd e k none = none

abbrev small : Epoll Watched
small = record {
  epoll_create = λ fd. none;
  interest = λ k fd. k fd;
  epoll_ctl = λ op fd e k. ctl_at op fd e k (k fd);
}

gives : (o : Option Watched) (w k' : Watched) → o ≡ some w → o ≡ some k' → (g : ℕ) → k' g ≡ w g
gives o w k' e f g = ap (λ k. k g) (some-injective k' w (sym f ∙ e))

small-IsEpoll : IsEpoll small
small-IsEpoll = record {
  empty = λ fd. refl;
  add = λ k k' fd e h f. gives _ (write_to fd (some e) k) k' (ap (ctl_at epoll_ctl_add fd e k) h) f;
  mod_ = λ k k' fd e old h f.
      gives _ (write_to fd (some e) k) k' (ap (ctl_at epoll_ctl_mod fd e k) h) f;
  del = λ k fd e old h. (write_to fd none k, ap (ctl_at epoll_ctl_del fd e k) h, λ g. refl);
}

-- One channel at the address 5, for the descriptor 3.
abbrev one : EpollPoller Watched
one = created small 5 3 (opened small)

one-IsAlone : IsAlone small 5 one
one-IsAlone q h e =
    if-cases (λ (c : Channel). c.index ≡ added → q ≡ 5) (q == 5) (make_channel 3) (make_channel 0)
      (λ i m. absurd (cc)) (λ i m. absurd (cc)) h

one-Reachable : Reachable small one
one-Reachable = creates 5 3 at_start (λ e. cc)

call-IsRegistered_example :
    IsRegistered small one
    × (((call small (changes_events enable_reading) 5 one ≡ none) × Refuses small 5 one)
        ⊎ ((p' : EpollPoller Watched) × (call small (changes_events enable_reading) 5 one ≡ some p')
            × IsRegistered small p'))
call-IsRegistered_example =
    call-IsRegistered small small-IsEpoll one (changes_events enable_reading) 5 one-Reachable
      one-IsAlone

poller_code : Unit {0}
unfolding updated update update_added update_by update_channel remove_by remove_channel
    change_events changed call handle_event handle_event_with_guard event_bits
poller_code = tt

abbrev then_do :
    Option (EpollPoller Watched)
    → (EpollPoller Watched → Option (EpollPoller Watched))
    → Option (EpollPoller Watched)
then_do none f = none
then_do (some p) f = f p

abbrev channel_of : ℕ → Option (EpollPoller Watched) → Option ℕ
channel_of fd none = none
channel_of fd (some p) = p.channels fd

-- A channel that is enabled again is watched, and the map of the poller does not have it.
enabled_again :
    channel_of 3 (
      then_do
        (then_do (change_events small enable_reading 5 one) (change_events small disable_all 5))
        (change_events small enable_reading 5))
    ≡ none
unfolding poller_code
enabled_again = refl

enabled_once : channel_of 3 (change_events small enable_reading 5 one) ≡ some 5
unfolding poller_code
enabled_once = refl

-- A hang-up with something left to read calls the read callback only.
hang_up_with_data :
    handle_event (record (make_channel 3) {
      revents = 17;
      has_read_callback = true;
      has_close_callback = true;
    })
    ≡ read_callback ∷ []
unfolding poller_code
hang_up_with_data = refl
