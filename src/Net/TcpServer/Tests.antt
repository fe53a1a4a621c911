-- ===== src/Net/TcpServer/Tests.antt =====
-- A server with two connections of which one is removed, and the theorem on it.
use myoj.Common.{◌≡◌, refl, false, some, none, [], if◌then◌else◌, arith}
use myoj.Common.Bytes.{codes, lookup}
use myoj.Net.TcpServer.{
  TcpServer, make_tcp_server, start, conn_name, name_of, new_connection, erase,
  remove_connection_in_loop, remove_connection, run_main_task,
}
use myoj.Net.TcpServer.Names.{
  is_open, Reachable, made, next, starts, accepts, closes, runs, lookup-is_open,
}

server_code : Unit {0}
unfolding start conn_name new_connection erase remove_connection_in_loop remove_connection
    run_main_task
server_code = tt

abbrev judge_server : TcpServer
judge_server = make_tcp_server (codes "OJ") (codes "127.0.0.1:80")

abbrev closing : TcpServer
closing = remove_connection false 1 (new_connection 2 (new_connection 1 (start judge_server)))

abbrev one_left : TcpServer
one_left = run_main_task 1 [] closing

one_left-Reachable : Reachable one_left
unfolding server_code
one_left-Reachable =
    next
      (next
        (next
          (next (next (made (codes "OJ") (codes "127.0.0.1:80") (omega arith)) starts) (accepts 1))
          (accepts 2))
        (closes false 1 (omega arith)))
      (runs 1 [] refl)

lookup-is_open_example :
    lookup (name_of one_left 2) one_left.connections ≡ (if is_open one_left 2 then some 2 else none)
unfolding server_code
lookup-is_open_example = lookup-is_open 2 one_left-Reachable (omega arith) (omega arith)
