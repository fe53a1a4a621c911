-- ===== src/Mysql/ConnectionPool.antt =====
-- src/mysql/ConnectionPool.cc: the pool of connections. A connection is the time of its last use. The
-- three threads and the users take the lock one after the other, so that their rounds are steps.
pub mod Bounds
pub mod Tests
use myoj.Common.{
  ℕ, zero, suc, ◌+◌, ◌-◌, Bool, true, false, ◌&&◌, Option, none, some, List, [], ◌∷◌, ◌++◌, length,
  ltb, leb, ◌==◌, if◌then◌else◌,
}

pub record Config : Type 0 where
  pub min_size : ℕ
  pub max_size : ℕ
  pub max_idle_time : ℕ

-- `in_use` are the connections that were handed out and have not come back.
pub record Pool : Type 0 where
  pub connection_queue : List ℕ
  pub current_size : ℕ
  pub in_use : ℕ

unfoldable pub add_connection : ℕ → Pool → Pool
add_connection now p = record p {
  connection_queue = p.connection_queue ++ now ∷ [];
  current_size = p.current_size + 1;
}

-- `addConnection(); currentSize_++`, in the constructor and in the producer.
unfoldable pub add_and_count : ℕ → Pool → Pool
add_and_count now p =
    let added = add_connection now p in record added { current_size = added.current_size + 1 }

unfoldable pub add_all : ℕ → ℕ → Pool → Pool
add_all zero now p = p
add_all (suc n) now p = add_all n now (add_and_count now p)

unfoldable pub make_pool : Config → ℕ → Pool
make_pool c now =
    add_all c.min_size now (record { connection_queue = []; current_size = 0; in_use = 0 })

-- One round of `produceConnection`, which waits while the queue is not empty.
unfoldable pub produce_connection : Config → ℕ → Pool → Pool
produce_connection c now p =
    if length p.connection_queue == 0 && ltb p.current_size c.max_size
    then add_and_count now p
    else p

-- The loop of `recycleConnection` on the queue: what stays, and how many are destroyed.
unfoldable pub recycle_queue : Config → ℕ → List ℕ → List ℕ × ℕ
recycle_queue c now [] = ([], 0)
recycle_queue c now (t ∷ ts) =
    let (rest, n) = recycle_queue c now ts in
    if ltb c.min_size (length (t ∷ ts)) && leb c.max_idle_time (now - t)
    then (rest, suc n)
    else (t ∷ ts, 0)

unfoldable pub recycle_connection : Config → ℕ → Pool → Pool
recycle_connection c now p =
    let (rest, n) = recycle_queue c now p.connection_queue in
    record p { connection_queue = rest; current_size = p.current_size - n }

-- `getConnection` when it does not have to wait; none while the queue is empty.
unfoldable pub take_front : List ℕ → Pool → Option Pool
take_front [] p = none
take_front (t ∷ ts) p = some (record p { connection_queue = ts; in_use = p.in_use + 1 })

unfoldable pub get_connection : Pool → Option Pool
get_connection p = take_front p.connection_queue p

-- The deleter of the pointer that `getConnection` returns.
unfoldable pub give_back : ℕ → Pool → Pool
give_back now p = record p {
  connection_queue = p.connection_queue ++ now ∷ [];
  in_use = p.in_use - 1;
}
