-- ===== src/Examples/Resending.antt =====
-- A submission that never arrives twice and then lands.
use potash.Common.{ℕ, zero, suc, ◌+◌, Option, none}
use potash.Common.Early.{Early, stop, go}
use potash.Client.Cluster.Requests.{send_with_retry}
use potash.Client.Cluster.Resent.{Ended, send_with_retry-Ended}

abbrev submit : ℕ → Early (Option ℕ) (Unit {0}) × ℕ
submit zero = (stop none, 1)
submit (suc zero) = (stop none, 2)
submit (suc (suc n)) = (go tt, n + 3)

send_with_retry-Ended_example : Ended submit 5 0 (send_with_retry submit 5 0)
send_with_retry-Ended_example = send_with_retry-Ended submit 5 0
