-- ===== src/Net/EpollPoller/Calls.antt =====
-- EpollPoller.cc: every call of a channel keeps the kernel in step, or aborts because the kernel refuses.
use myoj.Common.{
  Option-cases, inl, inr, ◌⊎◌, ℕ, ◌≡◌, ◌≢◌, refl, sym, ap, ◌∙◌, subst, if-cases, ◌==◌, ==_iff,
  Option, none, some, ℕ_discrete, arith,
}
use myoj.Net.Channel.{
  Channel, Events, Index, new, added, deleted, make_channel, is_none_event, Change, changed,
}
use myoj.Net.EpollPoller.{
  epoll_ctl_add, epoll_ctl_mod, epoll_ctl_del, Epoll, EpollPoller, write_to, update, updated,
  EpollEvent, set_index, erase, mark, update_added, update_by, update_channel, remove_by,
  remove_channel, change_events,
}
use myoj.Net.EpollPoller.Registered.{
  IsEpoll, IsRegistered, IsAlone, Differs, if_same, if_other, unwatched, put-IsRegistered,
  drop-IsRegistered, update-updated,
}

some_inj {ℓ} : {A : Type ℓ} {x y : A} → some x ≡ some y → x ≡ y
some_inj e = cc

module _ {K : Type 0} (epoll : Epoll K) where
  -- The kernel refuses to add or to change the descriptor of a channel.
  abbrev pub Refuses : ℕ → EpollPoller K → Type 0
  Refuses ptr p =
      (e : EpollEvent) × ((epoll.epoll_ctl epoll_ctl_add (p.store ptr).fd e p.kernel ≡ none)
        ⊎ (epoll.epoll_ctl epoll_ctl_mod (p.store ptr).fd e p.kernel ≡ none))

  -- What a call of the channel `ptr` owes: the poller is in order afterwards, unless the call aborts
  -- because the kernel refuses.
  abbrev pub IsFine : EpollPoller K → ℕ → Option (EpollPoller K) → Type 0
  IsFine p ptr o =
      ((o ≡ none) × Refuses ptr p) ⊎ ((p' : EpollPoller K) × (o ≡ some p') × IsRegistered epoll p')

  module _ (laws : IsEpoll epoll) (p : EpollPoller K) (ptr : ℕ) (reg : IsRegistered epoll p)
      (alone : IsAlone epoll ptr p) where
    wanted : Change → Channel
    wanted ch = record (p.store ptr) { events = changed ch (p.store ptr).events }

    wanting : Change → EpollPoller K
    wanting ch = record p { store = write_to ptr (wanted ch) p.store }

    -- Written twice at `ptr`.
    twice_here : (c : Channel) (st : ℕ → Channel) → write_to ptr c st ptr ≡ c
    twice_here c st = if_same ptr _ _

    once_there : (c : Channel) (q : ℕ) → q ≢ ptr → write_to ptr c p.store q ≡ p.store q
    once_there c q e = if_other q ptr _ _ e

    twice_there :
        (c d : Channel) (q : ℕ) → q ≢ ptr → write_to ptr c (write_to ptr d p.store) q ≡ p.store q
    twice_there c d q e = if_other q ptr _ _ e ∙ if_other q ptr _ _ e

    -- Adding the channel, with whatever the map of channels becomes.
    adds :
        (ch : Change) (chans : ℕ → Option ℕ)
        → (p.store ptr).index ≢ added
        → IsFine p ptr (
            update epoll epoll_ctl_add ptr
              (set_index epoll ptr added (record (wanting ch) { channels = chans })))
    unfolding wanting wanted updated
    adds ch chans out =
        let c : Channel = record (wanted ch) { index = added } in
        let at : (set_index epoll ptr added (record (wanting ch) { channels = chans })).store ptr
            ≡ c =
          twice_here _ (wanting ch).store
          ∙ ap (λ (x : Channel). record x { index = added }) (twice_here (wanted ch) p.store) in
        let out_there = unwatched epoll p ptr reg alone out in
        elim (Option-cases (epoll.epoll_ctl epoll_ctl_add c.fd (c.events, ptr) p.kernel)) [
          | inl e ↦ inl (
            update-updated epoll p ptr reg alone epoll_ctl_add _ c none at e,
            ((c.events, ptr), inl e),
          )
          | inr (k, e) ↦ inr (
            _,
            update-updated epoll p ptr reg alone epoll_ctl_add _ c (some k) at e,
            put-IsRegistered epoll p ptr reg alone c k _ chans at (twice_there _ _) refl refl
                (laws.add p.kernel k c.fd (c.events, ptr) out_there e),
          )
        ]

    -- A channel that is watched and wants something, and one that wants nothing any more.
    changes :
        (ch : Change)
        → (p.store ptr).index ≡ added
        → IsFine p ptr (update epoll epoll_ctl_mod ptr (wanting ch))
    unfolding wanting wanted updated
    changes ch marked =
        let at = twice_here (wanted ch) p.store in
        let c : Channel = wanted ch in
        elim (Option-cases (epoll.epoll_ctl epoll_ctl_mod c.fd (c.events, ptr) p.kernel)) [
          | inl e ↦ inl (
            update-updated epoll p ptr reg alone epoll_ctl_mod (wanting ch) c none at e,
            ((c.events, ptr), inr e),
          )
          | inr (k, e) ↦ inr (
            _,
            update-updated epoll p ptr reg alone epoll_ctl_mod (wanting ch) c (some k) at e,
            put-IsRegistered epoll p ptr reg alone c k _ p.channels at (once_there _) refl marked
                (laws.mod_ p.kernel k c.fd (c.events, ptr) _ (reg.known ptr marked) e),
          )
        ]

    deletes :
        (ch : Change)
        → (p.store ptr).index ≡ added
        → IsFine p ptr (
            mark epoll
              (update epoll epoll_ctl_del ptr (wanting ch))
              (λ q. set_index epoll ptr deleted (erase epoll ((wanting ch).store ptr).fd q)))
    unfolding wanting wanted updated
    deletes ch marked =
        let at = twice_here (wanted ch) p.store in
        let (k, e, differs) =
          laws.del p.kernel (p.store ptr).fd ((wanted ch).events, ptr) _ (reg.known ptr marked) in
        let out : deleted ≢ added = λ i. cc in
        inr (
          _,
          ap
              (λ o.
                mark epoll o
                  (λ q. set_index epoll ptr deleted (erase epoll ((wanting ch).store ptr).fd q)))
              (update-updated epoll p ptr reg alone epoll_ctl_del (wanting ch) (wanted ch) (some k)
                at e),
          drop-IsRegistered epoll p ptr reg alone
              (record ((wanting ch).store ptr) { index = deleted }) k _ _
              (twice_here _ (wanting ch).store) (twice_there _ _) out differs,
        )

    update_by-IsFine :
        (i : Index) (ch : Change)
        → (p.store ptr).index ≡ i
        → IsFine p ptr (update_by epoll i ptr (wanting ch))
    unfolding update_by update_added wanting
    update_by-IsFine new ch e = adds ch _ (λ m. ground (arith, e, m))
    update_by-IsFine deleted ch e = adds ch p.channels (λ m. ground (arith, e, m))
    update_by-IsFine added ch e =
        if-cases (IsFine p ptr) (is_none_event ((wanting ch).store ptr)) _ _ (λ i. deletes ch e)
          (λ i. changes ch e)

    change_events-IsFine : (ch : Change) → IsFine p ptr (change_events epoll ch ptr p)
    unfolding change_events update_channel wanting wanted
    change_events-IsFine ch =
        subst (λ i. IsFine p ptr (update_by epoll i ptr (wanting ch)))
          (sym (ap (λ (x : Channel). x.index) (twice_here (wanted ch) p.store)))
          (update_by-IsFine (p.store ptr).index ch refl)

    -- A channel that is not added is not watched.
    same_kernel :
        (p.store ptr).index ≢ added → Differs epoll (p.store ptr).fd none p.kernel p.kernel
    same_kernel out g =
        if-cases (λ o. epoll.interest p.kernel g ≡ o) (g == (p.store ptr).fd) none _
          (λ e.
            ap (epoll.interest p.kernel) ((==_iff g (p.store ptr).fd).0 e)
            ∙ unwatched epoll p ptr reg alone out)
          (λ e. refl)

    removed : Channel
    removed = record (p.store ptr) { index = new }

    leaves :
        (chans : ℕ → Option ℕ)
        → (p.store ptr).index ≢ added
        → IsFine p ptr (some (set_index epoll ptr new (record p { channels = chans })))
    unfolding removed
    leaves chans out =
        let apart : new ≢ added = λ i. cc in
        inr (
          _,
          refl,
          drop-IsRegistered epoll p ptr reg alone removed p.kernel _ chans
              (twice_here removed p.store) (once_there _) apart (same_kernel out),
        )

    remove_by-IsFine :
        (i : Index) (chans : ℕ → Option ℕ)
        → (p.store ptr).index ≡ i
        → IsFine p ptr (remove_by epoll i ptr (record p { channels = chans }))
    unfolding remove_by removed updated
    remove_by-IsFine new chans e = leaves chans (λ m. ground (arith, e, m))
    remove_by-IsFine deleted chans e = leaves chans (λ m. ground (arith, e, m))
    remove_by-IsFine added chans e =
        let apart : new ≢ added = λ i. cc in
        let (k, f, differs) =
          laws.del p.kernel (p.store ptr).fd ((p.store ptr).events, ptr) _ (reg.known ptr e) in
        inr (
          _,
          ap (λ o. mark epoll o (set_index epoll ptr new))
              (update-updated epoll p ptr reg alone epoll_ctl_del (record p { channels = chans })
                (p.store ptr) (some k) refl f),
          drop-IsRegistered epoll p ptr reg alone removed k _ chans (twice_here removed p.store)
              (once_there _) apart differs,
        )

    remove_channel-IsFine : IsFine p ptr (remove_channel epoll ptr p)
    unfolding remove_channel
    remove_channel-IsFine = remove_by-IsFine (p.store ptr).index _ refl

  -- A call of a channel on the poller.
  pub data Call : Type 0 where
    changes_events : Change → Call
    removes : Call

  unfoldable pub call : Call → ℕ → EpollPoller K → Option (EpollPoller K)
  call (changes_events ch) ptr p = change_events epoll ch ptr p
  call removes ptr p = remove_channel epoll ptr p

  abbrev pub opened : EpollPoller K
  opened = record {
    store = λ q. make_channel 0;
    channels = λ fd. none;
    kernel = epoll.epoll_create;
  }

  -- A new object in place of one that is not added any more.
  abbrev pub created : ℕ → ℕ → EpollPoller K → EpollPoller K
  created ptr fd p = record p { store = write_to ptr (make_channel fd) p.store }

  -- Channels are created and call the poller in any order; a channel calls it only while no other added
  -- channel has its descriptor.
  pub data Reachable : EpollPoller K → Type 0 where
    at_start : Reachable opened
    creates :
        {p : EpollPoller K} (ptr fd : ℕ)
        → Reachable p
        → (p.store ptr).index ≢ added
        → Reachable (created ptr fd p)
    calls :
        {p p' : EpollPoller K} (c : Call) (ptr : ℕ)
        → Reachable p
        → IsAlone epoll ptr p
        → call c ptr p ≡ some p'
        → Reachable p'

  opened-IsRegistered : IsEpoll epoll → IsRegistered epoll opened
  opened-IsRegistered laws = record {
    known = λ q h. absurd (cc);
    only = λ fd q e h.
        let found : ◌≡◌ {A = Option (Events × ℕ)} none (some (e, q)) = sym (laws.empty fd) ∙ h in
        absurd (cc);
  }

  created-IsRegistered :
      (ptr fd : ℕ) (p : EpollPoller K)
      → IsRegistered epoll p
      → (p.store ptr).index ≢ added
      → IsRegistered epoll (created ptr fd p)
  created-IsRegistered ptr fd p reg out = record {
    known = λ q h. elim (ℕ_discrete q ptr) [
      | yes here ↦
          let made =
            ap (λ x. write_to ptr (make_channel fd) p.store x) here ∙ if_same ptr _ (p.store ptr) in
          let marked : new ≡ added = sym (ap (λ (x : Channel). x.index) made) ∙ h in absurd (cc)
      | no there ↦
          let same = if_other q ptr (make_channel fd) (p.store q) there in
          subst (λ (x : Channel). epoll.interest p.kernel x.fd ≡ some (x.events, q)) (sym same)
            (reg.known q (sym (ap (λ (x : Channel). x.index) same) ∙ h))
    ];
    only = λ g q e h.
        let found = reg.only g q e h in
        let there : q ≢ ptr = λ i. out (subst (λ x. (p.store x).index ≡ added) i found.1) in
        subst (λ (x : Channel). (x.fd ≡ g) × (x.index ≡ added) × (x.events ≡ e))
          (sym (if_other q ptr (make_channel fd) (p.store q) there)) found;
  }

  call-IsFine :
      (laws : IsEpoll epoll) (p : EpollPoller K) (c : Call) (ptr : ℕ)
      → IsRegistered epoll p
      → IsAlone epoll ptr p
      → IsFine p ptr (call c ptr p)
  unfolding call
  call-IsFine laws p (changes_events ch) ptr reg alone =
      change_events-IsFine laws p ptr reg alone ch
  call-IsFine laws p removes ptr reg alone = remove_channel-IsFine laws p ptr reg alone

  Reachable-IsRegistered : {p : EpollPoller K} → IsEpoll epoll → Reachable p → IsRegistered epoll p
  Reachable-IsRegistered laws at_start = opened-IsRegistered laws
  Reachable-IsRegistered laws (creates {p} ptr fd r out) =
      created-IsRegistered ptr fd p (Reachable-IsRegistered laws r) out
  Reachable-IsRegistered laws (calls {p} {p'} c ptr r alone e) =
      elim (call-IsFine laws p c ptr (Reachable-IsRegistered laws r) alone) [
        | inl (aborts, refused) ↦ let none_there : none ≡ some p' = sym aborts ∙ e in absurd (cc)
        | inr (q, f, reg) ↦
            let same : some q ≡ some p' = sym f ∙ e in
            subst (IsRegistered epoll) (some_inj same) reg
      ]

  -- With an epoll that behaves as documented, adding and changing being allowed to fail, and as long as no
  -- two added channels share a descriptor: whatever channels were created and whatever they called, in
  -- whatever order, the kernel watches exactly the channels marked as added, for the events that they want;
  -- and the next call of a channel keeps this so, or aborts because the kernel refuses to add or to change
  -- the channel's descriptor.
  pub call-IsRegistered :
      (laws : IsEpoll epoll) (p : EpollPoller K) (c : Call) (ptr : ℕ)
      → Reachable p
      → IsAlone epoll ptr p
      → IsRegistered epoll p
        × (((call c ptr p ≡ none) × Refuses ptr p)
            ⊎ ((p' : EpollPoller K) × (call c ptr p ≡ some p') × IsRegistered epoll p'))
  call-IsRegistered laws p c ptr r alone =
      let reg = Reachable-IsRegistered laws r in (reg, call-IsFine laws p c ptr reg alone)
