-- ===== src/Net/Connector/Tests.antt =====
-- A connection that is refused, and the theorem on it.
use myoj.Common.{◌≡◌, refl, false, some, none, arith}
use myoj.Net.Connector.{Connector, k_connecting, k_disconnected, make_connector, stop, stop_in_loop}
use myoj.Net.Connector.Retry.{attempt, attempt_fails}

-- `errno` is EINPROGRESS, the socket's error is ECONNREFUSED.
attempt_fails_example :
    (c' : Connector) × (attempt 7 115 111 (make_connector false k_disconnected 500) ≡ some c')
    × (c'.state ≡ k_connecting)
    × (c'.handed_over ≡ (make_connector false k_disconnected 500).handed_over)
    × (c'.closed ≡ (make_connector false k_disconnected 500).closed)
    × (stop_in_loop (stop c') ≡ none)
attempt_fails_example =
    attempt_fails 7 115 111 (make_connector false k_disconnected 500) refl (omega arith)
