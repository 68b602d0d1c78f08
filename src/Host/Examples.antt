-- ===== src/Host/Examples.antt =====
-- A run of the flow control of src/classic_host.rs, and the theorems at concrete inputs.
use swbt_bumble_backend.Base.{ℕ, ◌≡◌, refl, arith, [], ◌∷◌, err}
use swbt_bumble_backend.Hci.{AclPacket}
use swbt_bumble_backend.Host.AclFlow.{AclFlow, acl_credit_underflow, flush, complete}
use swbt_bumble_backend.Host.AclFlow.Credits.{IsValid, Flushes, Completes, flush_lem, complete_lem}

abbrev packet : ℕ → AclPacket
packet b = record {
  connection_handle = 0x42;
  packet_boundary = 2;
  broadcast_flag = 0;
  payload = b ∷ [];
}

-- Two of three buffers are taken, and two packets wait.
abbrev waiting : AclFlow
waiting = record {
  payload_size = 27;
  total_packets = 3;
  in_flight = (0x41, 1) ∷ (0x42, 1) ∷ [];
  queued = packet 1 ∷ packet 2 ∷ [];
}

waiting-IsValid : IsValid waiting
waiting-IsValid = record { unique = (refl, (refl, tt)); within = omega arith; width = omega arith }

one_sent : (flush waiting []).1 ≡ packet 1 ∷ []
unfolding flush
one_sent = refl

too_many : complete 0x42 2 waiting ≡ (waiting, err (acl_credit_underflow 1 2))
unfolding complete
too_many = refl

flush_lem_example : Flushes waiting (packet 1 ∷ packet 2 ∷ []) [] (flush waiting [])
flush_lem_example = flush_lem waiting [] waiting-IsValid

complete_lem_example :
    IsValid (complete 0x42 1 waiting).0 × Completes 0x42 1 waiting (complete 0x42 1 waiting)
complete_lem_example = complete_lem 0x42 1 waiting waiting-IsValid
