-- ===== src/Hidp/Examples.antt =====
-- Runs of the HIDP codec and of the two ends (after src/hidp/tests.rs), and the theorems at concrete
-- inputs.
use swbt_bumble_backend.Base.{
  ℕ, ◌≡◌, refl, arith, some, List, [], ◌∷◌, All, ok, err, ◌==◌, if◌then◌else◌,
}
use swbt_bumble_backend.Hidp.{
  trailing_bytes, truncated, handshake, get_report, set_report, get_protocol, data_report, to_bytes,
  from_bytes,
}
use swbt_bumble_backend.Hidp.Device.{
  DeviceDelegate, DeviceRuntime, send_control, suspend, handle_control,
}
use swbt_bumble_backend.Hidp.RoundTrip.{IsCanonical, from_bytes-to_bytes}
use swbt_bumble_backend.Hidp.Parse.{from_bytes-IsCanonical}
use swbt_bumble_backend.Hidp.Device.Replies.{Delivered}
use swbt_bumble_backend.Hidp.Device.Control.{handle_control-Delivered}

-- GET_REPORT for report 0x21 of type 1 with a buffer of 0x0102 bytes.
sized_request : from_bytes (0x49 ∷ 0x21 ∷ 0x02 ∷ 0x01 ∷ []) ≡ ok (get_report 1 0x21 (some 0x0102))
unfolding from_bytes
sized_request = refl

sized_request_cut : from_bytes (0x49 ∷ 0x21 ∷ 0x02 ∷ []) ≡ err (truncated "HIDP report buffer size")
unfolding from_bytes
sized_request_cut = refl

control_trailing : from_bytes (0x13 ∷ 0xff ∷ []) ≡ err (trailing_bytes 1)
unfolding from_bytes
control_trailing = refl

-- The two high bits of the parameter of SET_REPORT are dropped, so other bytes may come back.
set_report_bits : from_bytes (0x5e ∷ 7 ∷ []) ≡ ok (set_report 2 (7 ∷ []))
unfolding from_bytes
set_report_bits = refl

-- A delegate with one report, which SET_REPORT replaces.
abbrev store : DeviceDelegate (List ℕ)
store = record {
  get_report = λ d id t size. (d, record { payload = d; status = if id == 5 then 0xff else 0x01 });
  set_report = λ d id t size payload. (payload, record { payload = []; status = 0xff });
  get_protocol = λ d. (d, record { payload = 1 ∷ []; status = 0xff });
  set_protocol = λ d mode. (d, record { payload = []; status = 0x02 });
}

abbrev runtime : DeviceRuntime (List ℕ)
runtime = record { delegate = 8 ∷ 9 ∷ []; control_peer_mtu = 4 }

get_stored :
    handle_control store runtime (0x41 ∷ 5 ∷ [])
    ≡ (runtime, ok (send_control (data_report 1 (5 ∷ 8 ∷ 9 ∷ [])) ∷ []))
unfolding handle_control from_bytes
get_stored = refl

get_missing :
    handle_control store runtime (0x41 ∷ 6 ∷ [])
    ≡ (runtime, ok (send_control (handshake 0x02) ∷ []))
unfolding handle_control from_bytes
get_missing = refl

set_stored :
    handle_control store runtime (0x52 ∷ 5 ∷ 3 ∷ [])
    ≡ (record runtime { delegate = 3 ∷ [] }, ok (send_control (handshake 0x00) ∷ []))
unfolding handle_control from_bytes
set_stored = refl

suspended : handle_control store runtime (0x13 ∷ []) ≡ (runtime, ok (suspend ∷ []))
unfolding handle_control from_bytes
suspended = refl

from_bytes-to_bytes_example :
    (bytes : List ℕ) × (to_bytes (get_report 1 0x21 (some 0x0102)) ≡ ok bytes)
    × (from_bytes bytes ≡ ok (get_report 1 0x21 (some 0x0102)))
from_bytes-to_bytes_example = from_bytes-to_bytes (get_report 1 0x21 (some 0x0102)) (omega arith)

from_bytes-IsCanonical_example :
    IsCanonical (set_report 2 (7 ∷ []))
    × ((again : List ℕ) × (to_bytes (set_report 2 (7 ∷ [])) ≡ ok again)
        × (from_bytes again ≡ ok (set_report 2 (7 ∷ []))))
from_bytes-IsCanonical_example =
    from_bytes-IsCanonical (0x5e ∷ 7 ∷ []) (set_report 2 (7 ∷ [])) (omega arith) set_report_bits

handle_control-Delivered_example : All Delivered (data_report 1 (5 ∷ 8 ∷ 9 ∷ []) ∷ [])
unfolding handle_control from_bytes
handle_control-Delivered_example =
    handle_control-Delivered store runtime (0x41 ∷ 5 ∷ [])
      (send_control (data_report 1 (5 ∷ 8 ∷ 9 ∷ [])) ∷ []) (omega arith) refl
