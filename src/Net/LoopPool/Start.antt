-- ===== src/Net/LoopPool/Start.antt =====
-- src/net/EventLoopThreadPool.cc and EventLoopThread.cc: starting the threads of the pool. A thread is its
-- name, the processor it is bound to, and whether its loop is given to the pool's callback. `num_threads`
-- is none where `numThreads_` is negative, `cpus` the number of processors, which is 1 or more.
use myoj.Common.{
  ℕ, zero, suc, ◌%◌, ◌≡◌, refl, Bool, true, false, ◌&&◌, ◌==◌, if◌then◌else◌, Option, none, some,
  List, [], ◌∷◌, ◌++◌, All, take,
}
use myoj.Common.Bytes.{Bytes}
use myoj.Common.Decimal.{to_string}

pub record EventLoopThread : Type 0 where
  pub name : Bytes
  pub cpu : Option ℕ
  pub initialised : Bool

-- `snprintf` into `name_.size() + 32` bytes.
unfoldable pub thread_name : Bytes → ℕ → Bytes
thread_name name i = name ++ take 31 (to_string i)

-- The callback that a thread is given is empty where the affinity is off.
unfoldable pub start_thread : Bytes → (affinity has_cb : Bool) (cpus : ℕ) → ℕ → EventLoopThread
start_thread name affinity has_cb cpus i =
    if affinity
    then record { name = thread_name name i; cpu = some (i % cpus); initialised = has_cb }
    else record { name = thread_name name i; cpu = none; initialised = false }

abbrev pub or_cpus : Option ℕ → ℕ → ℕ
or_cpus none cpus = cpus
or_cpus (some n) cpus = n

unfoldable pub start_threads :
    Bytes → (affinity has_cb : Bool) (cpus left i : ℕ) → List EventLoopThread
start_threads name affinity has_cb cpus zero i = []
start_threads name affinity has_cb cpus (suc left) i =
    start_thread name affinity has_cb cpus i ∷ start_threads name affinity has_cb cpus left (suc i)

-- The threads, and whether the callback is called on the base loop.
unfoldable pub start_pool :
    Bytes → (affinity has_cb : Bool) (cpus : ℕ) → Option ℕ → List EventLoopThread × Bool
start_pool name affinity has_cb cpus num_threads =
    let n = or_cpus num_threads cpus in
    (start_threads name affinity has_cb cpus n 0, (n == 0) && has_cb)

abbrev pub IsInitialised : Bool → EventLoopThread → Type 0
IsInitialised b t = t.initialised ≡ b

-- Each thread calls the callback if there is one and the affinity is on; without it none does.
pub start_threads-IsInitialised :
    (name : Bytes) (affinity has_cb : Bool) (cpus left i : ℕ)
    → All (IsInitialised (affinity && has_cb)) (start_threads name affinity has_cb cpus left i)
unfolding start_threads start_thread
start_threads-IsInitialised name affinity has_cb cpus zero i = tt
start_threads-IsInitialised name true has_cb cpus (suc left) i =
    (refl, start_threads-IsInitialised name true has_cb cpus left (suc i))
start_threads-IsInitialised name false has_cb cpus (suc left) i =
    (refl, start_threads-IsInitialised name false has_cb cpus left (suc i))
