-- ===== src/Net/EpollPoller/Poll.antt =====
-- EpollPoller.cc: `poll`, after `epoll_wait` has filled `events_`. The result of `epoll_wait` is an
-- argument: the events that are ready, each with the address of its channel.
use myoj.Common.{
  ℕ, ◌*◌, ◌≡◌, refl, sym, ==_iff, ap, ◌∙◌, ◌==◌, if◌then◌else◌, Option, none, some, List, [], ◌∷◌,
  ◌++◌, map, length, append-nil, append_assoc, if-cases,
}
use myoj.Net.Channel.{Channel}
use myoj.Net.EpollPoller.{EpollPoller, write_to}

-- `revents`, and the address of the channel.
abbrev pub ReadyEvent : Type 0
ReadyEvent = ℕ × ℕ

module _ {K : Type 0} where
  abbrev pub set_revents : ℕ → ℕ → EpollPoller K → EpollPoller K
  set_revents ptr revents p = record p {
    store = write_to ptr (record (p.store ptr) { revents = revents }) p.store;
  }

  -- The channels' returned events are set, and the channels are added to the active ones.
  unfoldable pub fill_active_channels :
      List ReadyEvent → List ℕ → EpollPoller K → List ℕ × EpollPoller K
  fill_active_channels [] active p = (active, p)
  fill_active_channels ((revents, ptr) ∷ ready) active p =
      fill_active_channels ready (active ++ ptr ∷ []) (set_revents ptr revents p)

  -- `poll`, with the size of `events_`; none is an error of `epoll_wait`, which leaves all as it is.
  unfoldable pub poll :
      Option (List ReadyEvent) → ℕ → List ℕ → EpollPoller K → ℕ × List ℕ × EpollPoller K
  poll none size active p = (size, active, p)
  poll (some ready) size active p =
      let filled = fill_active_channels ready active p in
      (
        if length ready == 0 then size else (if length ready == size then 2 * size else size),
        filled.0,
        filled.1,
      )

  -- The active channels are those of the ready events, in order, and no channel changes but in what it
  -- was returned.
  pub fill_active_channels_lem :
      (ready : List ReadyEvent) (active : List ℕ) (p : EpollPoller K)
      → ((fill_active_channels ready active p).0 ≡ active ++ map (λ r. r.1) ready)
        × ((ptr : ℕ)
            → ((fill_active_channels ready active p).1.store ptr).events ≡ (p.store ptr).events)
  unfolding fill_active_channels
  fill_active_channels_lem [] active p = (sym (append-nil active), λ ptr. refl)
  fill_active_channels_lem ((revents, ptr) ∷ ready) active p =
      let (a, s) =
        fill_active_channels_lem ready (active ++ ptr ∷ []) (set_revents ptr revents p) in
      (
        a ∙ append_assoc active (ptr ∷ []) _,
        λ q.
            s q
            ∙ if-cases (λ (c : Channel). c.events ≡ (p.store q).events) (q == ptr) _ (p.store q)
                (λ e. ap (λ i. (p.store i).events) (sym ((==_iff q ptr).0 e))) (λ e. refl),
      )
