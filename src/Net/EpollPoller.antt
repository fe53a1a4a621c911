-- ===== src/Net/EpollPoller.antt =====
-- src/net/poller/EpollPoller.cc: which channels the kernel watches. Channels are objects that the poller
-- shares with their owners, so they stand in a store, known by their address. `LOG_FATAL` aborts, which
-- is none here.
pub mod Registered
pub mod Calls
pub mod Poll
pub mod Tests
use myoj.Common.{ℕ, Bool, Option, none, some, ◌==◌, if◌then◌else◌}
use myoj.Net.Channel.{
  Channel, Events, Index, new, added, deleted, make_channel, is_none_event, Change, changed,
}

pub data Operation : Type 0 where
  epoll_ctl_add epoll_ctl_mod epoll_ctl_del : Operation

-- `epoll_event`: the events, and the address of the channel.
abbrev pub EpollEvent : Type 0
EpollEvent = Events × ℕ

-- What the code uses of epoll: a new instance, what it watches, and `epoll_ctl`, which is none for -1.
pub record Epoll (K : Type 0) : Type 0 where
  pub epoll_create : K
  pub interest : K → ℕ → Option EpollEvent
  pub epoll_ctl : Operation → ℕ → EpollEvent → K → Option K

pub record EpollPoller (K : Type 0) : Type 0 where
  pub store : ℕ → Channel
  pub channels : ℕ → Option ℕ
  pub kernel : K

abbrev pub write_to {ℓ} : {A : Type ℓ} → ℕ → A → (ℕ → A) → ℕ → A
write_to i a f j = if j == i then a else f j

module _ {K : Type 0} (epoll : Epoll K) where
  -- What the kernel's answer means for `update`.
  unfoldable pub updated : Operation → EpollPoller K → Option K → Option (EpollPoller K)
  updated op p (some k) = some (record p { kernel = k })
  updated epoll_ctl_del p none = some p
  updated op p none = none

  unfoldable pub update : Operation → ℕ → EpollPoller K → Option (EpollPoller K)
  update op ptr p =
      let c = p.store ptr in updated op p (epoll.epoll_ctl op c.fd (c.events, ptr) p.kernel)

  abbrev pub set_index : ℕ → Index → EpollPoller K → EpollPoller K
  set_index ptr i p = record p { store = write_to ptr (record (p.store ptr) { index = i }) p.store }

  abbrev pub erase : ℕ → EpollPoller K → EpollPoller K
  erase fd p = record p { channels = write_to fd none p.channels }

  abbrev pub mark :
      Option (EpollPoller K) → (EpollPoller K → EpollPoller K) → Option (EpollPoller K)
  mark none f = none
  mark (some p) f = some (f p)

  unfoldable pub update_added : ℕ → Channel → EpollPoller K → Option (EpollPoller K)
  update_added ptr c p =
      if is_none_event c
      then mark (update epoll_ctl_del ptr p) (λ q. set_index ptr deleted (erase c.fd q))
      else update epoll_ctl_mod ptr p

  -- `updateChannel`, by the channel's index.
  unfoldable pub update_by : Index → ℕ → EpollPoller K → Option (EpollPoller K)
  update_by new ptr p = update epoll_ctl_add ptr (
      set_index ptr added (record p { channels = write_to (p.store ptr).fd (some ptr) p.channels }))
  update_by deleted ptr p = update epoll_ctl_add ptr (set_index ptr added p)
  update_by added ptr p = update_added ptr (p.store ptr) p

  unfoldable pub update_channel : ℕ → EpollPoller K → Option (EpollPoller K)
  update_channel ptr p = update_by (p.store ptr).index ptr p

  unfoldable pub remove_by : Index → ℕ → EpollPoller K → Option (EpollPoller K)
  remove_by added ptr p = mark (update epoll_ctl_del ptr p) (set_index ptr new)
  remove_by i ptr p = some (set_index ptr new p)

  unfoldable pub remove_channel : ℕ → EpollPoller K → Option (EpollPoller K)
  remove_channel ptr p = remove_by (p.store ptr).index ptr (erase (p.store ptr).fd p)

  -- `enableReading` to `disableAll` of the channel.
  unfoldable pub change_events : Change → ℕ → EpollPoller K → Option (EpollPoller K)
  change_events ch ptr p =
      let c = p.store ptr in
      update_channel ptr
        (record p { store = write_to ptr (record c { events = changed ch c.events }) p.store })
