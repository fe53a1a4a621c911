-- ===== src/Net/EpollPoller/Registered.antt =====
-- EpollPoller.cc: the kernel watches the channels that are marked as added, with the events they want.
use myoj.Common.{
  ℕ, ◌≡◌, ◌≢◌, sym, ap, ◌∙◌, subst, Option-cases, inl, inr, ◌==◌, Option, none, some, ℕ_discrete,
  if◌then◌else◌, arith,
}
use myoj.Net.Channel.{Channel, Events, added}
use myoj.Net.EpollPoller.{
  Operation, epoll_ctl_add, epoll_ctl_mod, epoll_ctl_del, EpollEvent, Epoll, EpollPoller, updated,
  update,
}

pub if_same {ℓ} : {A : Type ℓ} (n : ℕ) (x y : A) → (if n == n then x else y) ≡ x
if_same n x y = ground arith

pub if_other {ℓ} : {A : Type ℓ} (m n : ℕ) (x y : A) → m ≢ n → (if m == n then x else y) ≡ y
if_other m n x y h = ground (arith, h)

module _ {K : Type 0} (epoll : Epoll K) where
  -- The kernel watches as `k` did, but for `fd`.
  abbrev pub Differs : ℕ → Option EpollEvent → K → K → Type 0
  Differs fd o k k' = (g : ℕ) → epoll.interest k' g ≡ (if g == fd then o else epoll.interest k g)

  -- The documented behaviour: adding a descriptor that is not watched and changing one that is watched may
  -- fail, and else do what they say; one that is watched can be deleted; the others are left alone.
  pub record IsEpoll : Type 0 where
    pub empty : (fd : ℕ) → epoll.interest epoll.epoll_create fd ≡ none
    pub add :
        (k k' : K) (fd : ℕ) (e : EpollEvent)
        → epoll.interest k fd ≡ none
        → epoll.epoll_ctl epoll_ctl_add fd e k ≡ some k'
        → Differs fd (some e) k k'
    pub mod_ :
        (k k' : K) (fd : ℕ) (e old : EpollEvent)
        → epoll.interest k fd ≡ some old
        → epoll.epoll_ctl epoll_ctl_mod fd e k ≡ some k'
        → Differs fd (some e) k k'
    pub del :
        (k : K) (fd : ℕ) (e old : EpollEvent)
        → epoll.interest k fd ≡ some old
        → (k' : K) × (epoll.epoll_ctl epoll_ctl_del fd e k ≡ some k') × Differs fd none k k'

  -- The kernel watches exactly the channels marked as added, for the events they want.
  pub record IsRegistered (p : EpollPoller K) : Type 0 where
    pub known :
        (q : ℕ)
        → (p.store q).index ≡ added
        → epoll.interest p.kernel (p.store q).fd ≡ some ((p.store q).events, q)
    pub only :
        (fd q : ℕ) (e : Events)
        → epoll.interest p.kernel fd ≡ some (e, q)
        → ((p.store q).fd ≡ fd) × ((p.store q).index ≡ added) × ((p.store q).events ≡ e)

  -- No other added channel has the descriptor of `ptr`.
  abbrev pub IsAlone : ℕ → EpollPoller K → Type 0
  IsAlone ptr p = (q : ℕ) → (p.store q).index ≡ added → (p.store q).fd ≡ (p.store ptr).fd → q ≡ ptr

  module _ (p : EpollPoller K) (ptr : ℕ) (reg : IsRegistered p) (alone : IsAlone ptr p) where
    pub unwatched : (p.store ptr).index ≢ added → epoll.interest p.kernel (p.store ptr).fd ≡ none
    unwatched out = elim (Option-cases (epoll.interest p.kernel (p.store ptr).fd)) [
      | inl e ↦ e
      | inr ((ev, q), e) ↦
          let (same, marked, wanted) = reg.only _ q ev e in
          absurd (out (subst (λ x. (p.store x).index ≡ added) (alone q marked same) marked))
    ]

    -- A store that differs at `ptr` alone, and a kernel that differs at its descriptor alone.
    module _ (c : Channel) (k : K) (o : Option EpollEvent) (after : ℕ → Channel)
        (differs : Differs (p.store ptr).fd o p.kernel k)
        (after_there : (q : ℕ) → q ≢ ptr → after q ≡ p.store q) where
      interest-here : epoll.interest k (p.store ptr).fd ≡ o
      interest-here = differs (p.store ptr).fd ∙ if_same (p.store ptr).fd _ _

      -- The other channels.
      others-known :
          (q : ℕ)
          → q ≢ ptr
          → (after q).index ≡ added
          → epoll.interest k (after q).fd ≡ some ((after q).events, q)
      others-known q other h =
          let same = after_there q other in
          let marked : (p.store q).index ≡ added = ap (λ (x : Channel). x.index) (sym same) ∙ h in
          let apart : (p.store q).fd ≢ (p.store ptr).fd = λ e. other (alone q marked e) in
          subst (λ (x : Channel). epoll.interest k x.fd ≡ some (x.events, q)) (sym same)
            (differs (p.store q).fd
              ∙ if_other (p.store q).fd (p.store ptr).fd _ _ apart
              ∙ reg.known q marked)

      others-only :
          (fd q : ℕ) (e : Events)
          → fd ≢ (p.store ptr).fd
          → epoll.interest k fd ≡ some (e, q)
          → ((after q).fd ≡ fd) × ((after q).index ≡ added) × ((after q).events ≡ e)
      others-only fd q e apart h =
          let found =
            reg.only fd q e (sym (if_other fd (p.store ptr).fd _ _ apart) ∙ sym (differs fd) ∙ h) in
          let other : q ≢ ptr = λ i. apart (sym found.0 ∙ ap (λ x. (p.store x).fd) i) in
          subst (λ (x : Channel). (x.fd ≡ fd) × (x.index ≡ added) × (x.events ≡ e))
            (sym (after_there q other)) found

    -- The object at `ptr` and what is watched for it change together.
    pub put-IsRegistered :
        (c : Channel) (k : K) (after : ℕ → Channel) (chans : ℕ → Option ℕ)
        → after ptr ≡ c
        → ((q : ℕ) → q ≢ ptr → after q ≡ p.store q)
        → c.fd ≡ (p.store ptr).fd
        → c.index ≡ added
        → Differs (p.store ptr).fd (some (c.events, ptr)) p.kernel k
        → IsRegistered (record { store = after; channels = chans; kernel = k })
    put-IsRegistered c k after chans at rest same marked differs = record {
      known = λ q h. elim (ℕ_discrete q ptr) [
        | yes here ↦
            subst (λ (x : Channel). epoll.interest k x.fd ≡ some (x.events, q))
              (sym at ∙ ap after (sym here))
              (ap (epoll.interest k) same
                ∙ interest-here c k _ after differs rest
                ∙ ap (λ x. some (c.events, x)) (sym here))
        | no there ↦ others-known c k _ after differs rest q there h
      ];
      only = λ fd q e h. elim (ℕ_discrete fd (p.store ptr).fd) [
        | yes here ↦
            let found : ◌≡◌ {A = Option EpollEvent} (some (e, q)) (some (c.events, ptr)) =
              sym h ∙ ap (epoll.interest k) here ∙ interest-here c k _ after differs rest in
            let place : ptr ≡ q = cc in
            subst (λ (x : Channel). (x.fd ≡ fd) × (x.index ≡ added) × (x.events ≡ e))
              (sym at ∙ ap after place) (same ∙ sym here, marked, cc)
        | no there ↦ others-only c k _ after differs rest fd q e there h
      ];
    }

    pub drop-IsRegistered :
        (c : Channel) (k : K) (after : ℕ → Channel) (chans : ℕ → Option ℕ)
        → after ptr ≡ c
        → ((q : ℕ) → q ≢ ptr → after q ≡ p.store q)
        → c.index ≢ added
        → Differs (p.store ptr).fd none p.kernel k
        → IsRegistered (record { store = after; channels = chans; kernel = k })
    drop-IsRegistered c k after chans at rest out differs = record {
      known = λ q h. elim (ℕ_discrete q ptr) [
        | yes here ↦ absurd (out (ap (λ (x : Channel). x.index) (sym at ∙ ap after (sym here)) ∙ h))
        | no there ↦ others-known c k _ after differs rest q there h
      ];
      only = λ fd q e h. elim (ℕ_discrete fd (p.store ptr).fd) [
        | yes here ↦
            let found : none ≡ some (e, q) =
              sym (interest-here c k _ after differs rest) ∙ ap (epoll.interest k) (sym here) ∙ h in
            absurd (cc)
        | no there ↦ others-only c k _ after differs rest fd q e there h
      ];
    }

    pub update-updated :
        (op : Operation) (q : EpollPoller K) (c : Channel) (o : Option K)
        → q.store ptr ≡ c
        → epoll.epoll_ctl op c.fd (c.events, ptr) q.kernel ≡ o
        → update epoll op ptr q ≡ updated epoll op q o
    unfolding update
    update-updated op q c o at e =
        ap (λ (x : Channel). updated epoll op q (epoll.epoll_ctl op x.fd (x.events, ptr) q.kernel))
          at
        ∙ ap (updated epoll op q) e
