-- ===== src/Net/TcpServer/Names.antt =====
-- TcpServer.cc: the map of connections has the connections that are open, each under a name of its own.
use myoj.Common.{
  ℕ, suc, ◌≤◌, ◌<◌, ◌^◌, ◌≡◌, refl, sym, ap, ◌∙◌, Bool, true, false, not, ◌&&◌, ◌||◌, Bool-cases,
  if-cases, inl, inr, ◌==◌, ==_iff, ltb, leb, if◌then◌else◌, none, some, List, [], ◌∷◌, ◌++◌,
  length, length-append, take, take_all, All, All-map, All-append, subst, arith,
}
use myoj.Common.Bytes.{Bytes, codes, bytes_eq, bytes_eq_iff, lookup, lookup-insert}
use myoj.Common.Decimal.{to_string, length-to_string-le}
use myoj.Judge.Options.{atoi_digits}
use myoj.Oj.Judger.Decimal.{atoi_digits-to_string}
use myoj.Net.TcpServer.{
  TcpServer, make_tcp_server, start, conn_name, name_of, new_connection, erase,
  remove_connection_in_loop, remove_connection, run_main_task,
}

append_cancel : (xs ys zs : Bytes) → xs ++ ys ≡ xs ++ zs → ys ≡ zs
append_cancel [] ys zs e = e
append_cancel (x ∷ xs) ys zs e = append_cancel xs ys zs (cc)

to_string_inj : (m n : ℕ) → to_string m ≡ to_string n → m ≡ n
to_string_inj m n e = sym (atoi_digits-to_string m) ∙ ap (atoi_digits 0) e ∙ atoi_digits-to_string n

-- An address of at most 21 characters, and a number that fits an `int`.
name_whole :
    (ip_port : Bytes) (id : ℕ)
    → length ip_port ≤ 21
    → id < 10 ^ 10
    → take 63 (codes "-" ++ (ip_port ++ (codes "#" ++ to_string id)))
      ≡ codes "-" ++ (ip_port ++ (codes "#" ++ to_string id))
name_whole ip_port id h k = take_all 63 _ (
    omega
      (arith, length-to_string-le 9 id k, length-append {0} ip_port (codes "#" ++ to_string id), h))

conn_name_inj :
    (name ip_port : Bytes) (m n : ℕ)
    → length ip_port ≤ 21
    → m < 10 ^ 10
    → n < 10 ^ 10
    → conn_name name ip_port m ≡ conn_name name ip_port n
    → m ≡ n
unfolding conn_name
conn_name_inj name ip_port m n h km kn e =
    let texts = append_cancel name _ _ e in
    let bare = sym (name_whole ip_port m h km) ∙ texts ∙ name_whole ip_port n h kn in
    to_string_inj m n (
      append_cancel (codes "#") _ _
        (append_cancel ip_port _ _ (append_cancel (codes "-") _ _ bare)))

lookup-erase :
    (k j : Bytes) (m : List (Bytes × ℕ))
    → lookup j (erase k m) ≡ (if bytes_eq k j then none else lookup j m)
unfolding lookup erase
lookup-erase k j [] = if-cases (λ o. none ≡ o) (bytes_eq k j) none none (λ e. refl) (λ e. refl)
lookup-erase k j ((i, v) ∷ m) =
    ground (arith, bytes_eq_iff k j, bytes_eq_iff i k, bytes_eq_iff i j, lookup-erase k j m)

abbrev pub is_in : ℕ → List ℕ → Bool
is_in n [] = false
is_in n (m ∷ ms) = m == n || is_in n ms

-- Numbers are given out from 1 on; a connection is open until it is removed.
abbrev pub is_open : TcpServer → ℕ → Bool
is_open s n = leb 1 n && (ltb n s.next_conn_id && not (is_in n s.removed))

abbrev pub IsIn : ℕ → ℕ → Type 0
IsIn next n = n < next

record IsTracked (s : TcpServer) : Type 0 where
  address : length s.ip_port ≤ 21
  first : 1 ≤ s.next_conn_id
  found :
      (n : ℕ)
      → n < 10 ^ 10
      → lookup (name_of s n) s.connections ≡ (if is_open s n then some n else none)
  queued : All (IsIn s.next_conn_id) s.main_tasks
  gone : All (IsIn s.next_conn_id) s.removed

-- The acceptor calls `newConnection`, and the connections that exist call `removeConnection` from their
-- loops, in any order.
pub data Step (s : TcpServer) : TcpServer → Type 0 where
  starts : Step s (start s)
  accepts : (io_loop : ℕ) → Step s (new_connection io_loop s)
  closes :
      (in_main_loop : Bool) (id : ℕ)
      → id < s.next_conn_id
      → Step s (remove_connection in_main_loop id s)
  runs : (id : ℕ) (rest : List ℕ) → s.main_tasks ≡ id ∷ rest → Step s (run_main_task id rest s)

pub data Reachable : TcpServer → Type 0 where
  made : (name ip_port : Bytes) → length ip_port ≤ 21 → Reachable (make_tcp_server name ip_port)
  next : {s t : TcpServer} → Reachable s → Step s t → Reachable t

names_eq :
    (s : TcpServer) (m n : ℕ)
    → length s.ip_port ≤ 21
    → m < 10 ^ 10
    → n < 10 ^ 10
    → bytes_eq (name_of s m) (name_of s n) ≡ (m == n)
names_eq s m n h km kn = elim (Bool-cases (bytes_eq (name_of s m) (name_of s n))) [
  | inl same ↦
      let e : m ≡ n =
        conn_name_inj s.name s.ip_port m n h km kn
          ((bytes_eq_iff (name_of s m) (name_of s n)).0 same) in
      same ∙ sym ((==_iff m n).1 e)
  | inr differ ↦ elim (Bool-cases (m == n)) [
    | inl e ↦
        let here : m ≡ n = (==_iff m n).0 e in
        absurd (
          ground
            (arith, differ, (bytes_eq_iff (name_of s m) (name_of s n)).1 (ap (name_of s) here)))
    | inr e ↦ differ ∙ sym e
  ]
]

is_in_later : (n : ℕ) (ms : List ℕ) → All (IsIn n) ms → is_in n ms ≡ false
is_in_later n [] h = refl
is_in_later n (m ∷ ms) h = ground (arith, h.0, is_in_later n ms h.1)

All-later : (n : ℕ) (ms : List ℕ) → All (IsIn n) ms → All (IsIn (suc n)) ms
All-later n ms h = All-map ms (λ m k. omega (arith, k)) h

new_connection-IsTracked :
    (io_loop : ℕ) (s : TcpServer)
    → IsTracked s
    → s.next_conn_id < 10 ^ 10
    → IsTracked (new_connection io_loop s)
unfolding new_connection
new_connection-IsTracked io_loop s h k = record {
  address = h.address;
  first = omega arith;
  found = λ n b.
      lookup-insert (name_of s s.next_conn_id) (name_of s n) s.next_conn_id s.connections
      ∙ ap (λ x. if x then some s.next_conn_id else lookup (name_of s n) s.connections)
          (names_eq s s.next_conn_id n h.address k b)
      ∙ ground (arith, h.found n b, h.first, is_in_later s.next_conn_id s.removed h.gone);
  queued = All-later s.next_conn_id s.main_tasks h.queued;
  gone = All-later s.next_conn_id s.removed h.gone;
}

remove-IsTracked :
    (id : ℕ) (s : TcpServer)
    → IsTracked s
    → id < s.next_conn_id
    → s.next_conn_id ≤ 10 ^ 10
    → IsTracked (remove_connection_in_loop id s)
unfolding remove_connection_in_loop
remove-IsTracked id s h i k = record {
  address = h.address;
  first = h.first;
  found = λ n b.
      lookup-erase (name_of s id) (name_of s n) s.connections
      ∙ ap (λ x. if x then none else lookup (name_of s n) s.connections)
          (names_eq s id n h.address (omega (arith, i, k)) b)
      ∙ ground (arith, h.found n b);
  queued = h.queued;
  gone = (i, h.gone);
}

make_tcp_server-IsTracked :
    (name ip_port : Bytes) → length ip_port ≤ 21 → IsTracked (make_tcp_server name ip_port)
unfolding lookup
make_tcp_server-IsTracked name ip_port h = record {
  address = h;
  first = omega arith;
  found = λ n b. ground arith;
  queued = tt;
  gone = tt;
}

start-IsTracked : (s : TcpServer) → IsTracked s → IsTracked (start s)
unfolding start
start-IsTracked s h =
    let plain : (listening : Bool)
        → IsTracked (record s { started = suc s.started; listening = listening }) =
      λ b. record {
        address = h.address;
        first = h.first;
        found = h.found;
        queued = h.queued;
        gone = h.gone;
      } in
    if-cases IsTracked (s.started == 0) _ _ (λ e. plain true) (λ e. plain s.listening)

-- Numbers are not taken back.
next_conn_id-le : {s t : TcpServer} → Step s t → s.next_conn_id ≤ t.next_conn_id
unfolding start new_connection remove_connection remove_connection_in_loop run_main_task
next_conn_id-le {s} starts =
    if-cases (λ (t : TcpServer). s.next_conn_id ≤ t.next_conn_id) (s.started == 0) _ _
      (λ e. omega arith) (λ e. omega arith)
next_conn_id-le (accepts io_loop) = omega arith
next_conn_id-le {s = s} (closes in_main_loop id h) =
    if-cases (λ (t : TcpServer). s.next_conn_id ≤ t.next_conn_id) in_main_loop _ _
      (λ e. omega arith) (λ e. omega arith)
next_conn_id-le (runs id rest e) = omega arith

room_before :
    (io_loop : ℕ) (s : TcpServer)
    → (new_connection io_loop s).next_conn_id ≤ 10 ^ 10
    → s.next_conn_id < 10 ^ 10
unfolding new_connection
room_before io_loop s k = omega (arith, k)

Step-IsTracked : {s t : TcpServer} → Step s t → IsTracked s → t.next_conn_id ≤ 10 ^ 10 → IsTracked t
unfolding remove_connection run_main_task
Step-IsTracked {s} starts h k = start-IsTracked s h
Step-IsTracked {s} (accepts io_loop) h k =
    new_connection-IsTracked io_loop s h (room_before io_loop s k)
Step-IsTracked {s} (closes in_main_loop id i) h k =
    let b : s.next_conn_id ≤ 10 ^ 10 =
      omega (arith, next_conn_id-le {s = s} (closes in_main_loop id i), k) in
    if-cases IsTracked in_main_loop _ _ (λ e. remove-IsTracked id s h i b)
      (λ e. record {
        address = h.address;
        first = h.first;
        found = h.found;
        gone = h.gone;
        queued = All-append (IsIn s.next_conn_id) s.main_tasks (id ∷ []) h.queued (i, tt);
      })
Step-IsTracked {s} (runs id rest e) h k =
    let b : s.next_conn_id ≤ 10 ^ 10 = omega (arith, next_conn_id-le {s = s} (runs id rest e), k) in
    let queued = subst (All (IsIn s.next_conn_id)) e h.queued in
    remove-IsTracked id (record s { main_tasks = rest })
      (record {
        address = h.address;
        first = h.first;
        found = h.found;
        gone = h.gone;
        queued = queued.1;
      })
      queued.0 b

Reachable-IsTracked : {s : TcpServer} → Reachable s → s.next_conn_id ≤ 10 ^ 10 → IsTracked s
Reachable-IsTracked (made name ip_port h) k = make_tcp_server-IsTracked name ip_port h
Reachable-IsTracked (next r st) k =
    Step-IsTracked st (Reachable-IsTracked r (omega (arith, next_conn_id-le st, k))) k

-- However connections are accepted and closed, in whatever order and from whatever loops, as long as
-- the next number fits an `int`, and with an address of at most 21 characters: under the name of the
-- n-th connection the map has that connection if it was accepted and is not removed, and nothing
-- otherwise.
pub lookup-is_open :
    {s : TcpServer} (n : ℕ)
    → Reachable s
    → s.next_conn_id < 2 ^ 31
    → n < 2 ^ 31
    → lookup (name_of s n) s.connections ≡ (if is_open s n then some n else none)
lookup-is_open n r k b = (Reachable-IsTracked r (omega (arith, k))).found n (omega (arith, b))
