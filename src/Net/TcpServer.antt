-- ===== src/Net/TcpServer.antt =====
-- include/net/TcpServer.h and src/net/TcpServer.cc: the connections of a server. A connection is known by
-- the number in its name. `given` are the calls that the loops of the connections were given, with the
-- loop, in order; `main_tasks` are the functors queued in the server's own loop. Accepting, the thread
-- pool and the callbacks are other components; the pool's choice of a loop is an argument.
pub mod Names
pub mod Tests
use myoj.Common.{
  ℕ, suc, ◌+◌, Bool, true, false, ◌==◌, if◌then◌else◌, Option, none, some, List, [], ◌∷◌, ◌++◌, map,
  take,
}
use myoj.Common.Bytes.{Bytes, codes, bytes_eq, lookup, insert}
use myoj.Common.Decimal.{to_string}

pub data ConnectionCall : Type 0 where
  connect_established connect_destroyed : ℕ → ConnectionCall

pub record TcpServer : Type 0 where
  pub name : Bytes
  pub ip_port : Bytes
  pub started : ℕ
  pub listening : Bool
  pub next_conn_id : ℕ
  pub connections : List (Bytes × ℕ)
  pub loop_of : ℕ → ℕ
  pub main_tasks : List ℕ
  pub given : List (ℕ × ConnectionCall)
  pub removed : List ℕ

abbrev pub make_tcp_server : Bytes → Bytes → TcpServer
make_tcp_server name ip_port = record {
  name = name;
  ip_port = ip_port;
  started = 0;
  listening = false;
  next_conn_id = 1;
  connections = [];
  loop_of = λ id. 0;
  main_tasks = [];
  given = [];
  removed = [];
}

-- `start`: the threads and the acceptor are started once.
unfoldable pub start : TcpServer → TcpServer
start s =
    let counted = record s { started = suc s.started } in
    if s.started == 0 then record counted { listening = true } else counted

-- `snprintf` into 64 bytes, behind the server's name.
unfoldable pub conn_name : Bytes → Bytes → ℕ → Bytes
conn_name name ip_port id = name ++ take 63 (codes "-" ++ (ip_port ++ (codes "#" ++ to_string id)))

abbrev pub name_of : TcpServer → ℕ → Bytes
name_of s id = conn_name s.name s.ip_port id

abbrev pub give : ℕ → ConnectionCall → TcpServer → TcpServer
give io_loop call s = record s { given = s.given ++ (io_loop, call) ∷ [] }

unfoldable pub new_connection : ℕ → TcpServer → TcpServer
new_connection io_loop s =
    let id = s.next_conn_id in
    give io_loop (connect_established id) (record s {
      next_conn_id = suc id;
      connections = insert (name_of s id) id s.connections;
      loop_of = λ j. if j == id then io_loop else s.loop_of j;
    })

-- `erase` on the map.
unfoldable pub erase : Bytes → List (Bytes × ℕ) → List (Bytes × ℕ)
erase k [] = []
erase k ((j, v) ∷ m) = let rest = erase k m in if bytes_eq j k then rest else (j, v) ∷ rest

unfoldable pub remove_connection_in_loop : ℕ → TcpServer → TcpServer
remove_connection_in_loop id s =
    give (s.loop_of id) (connect_destroyed id)
      (record s { connections = erase (name_of s id) s.connections; removed = id ∷ s.removed })

-- `removeConnection`, the close callback, from the server's loop or from another one.
unfoldable pub remove_connection : Bool → ℕ → TcpServer → TcpServer
remove_connection in_main_loop id s =
    if in_main_loop
    then remove_connection_in_loop id s
    else record s { main_tasks = s.main_tasks ++ id ∷ [] }

-- The server's loop runs the first functor.
unfoldable pub run_main_task : ℕ → List ℕ → TcpServer → TcpServer
run_main_task id rest s = remove_connection_in_loop id (record s { main_tasks = rest })

-- The destructor.
unfoldable pub destroy : TcpServer → TcpServer
destroy s = record s {
  connections = [];
  given = s.given ++ map (λ e. (s.loop_of e.1, connect_destroyed e.1)) s.connections;
}
