-- ===== src/L2cap/Classic/Signals.antt =====
-- Signaling in src/l2cap/classic.rs: connection, disconnection, and `process_control`.
use swbt_bumble_backend.Base.{
  ℕ, Option, none, some, [], ◌∷◌, ◌++◌, lookup, Result, ok, err, if◌then◌else◌, ◌==◌, not,
}
use swbt_bumble_backend.L2cap.{
  Error, invalid_packet, unknown_connection_response, connection_response_in_invalid_state,
  unknown_disconnection_request, unknown_disconnection_response, disconnection_cid_mismatch,
  channel_not_found, not_open,
}
use swbt_bumble_backend.L2cap.Signaling.{
  ControlFrame, connection_request, connection_response, configure_request, configure_response,
  disconnection_request, disconnection_response, echo_request, echo_response, information_request,
  information_response,
}
use swbt_bumble_backend.L2cap.Information.{response}
use swbt_bumble_backend.L2cap.Classic.{
  ChannelSpec, ClassicChannel, ChannelManager, InformationResponse, Action, put_channel,
  queue_control, next_identifier, allocate_cid, incoming_channel, closed, configuring,
  wait_disconnect, is_opened, is_waiting,
}
use swbt_bumble_backend.L2cap.Classic.Configure.{
  queue_configure_request, on_configure_request, on_configure_response,
}

-- The results of `CONNECTION_REFUSED_PSM_NOT_SUPPORTED` and `.._NO_RESOURCES_AVAILABLE`.
abbrev pub psm_not_supported : ℕ
psm_not_supported = 2

abbrev pub no_resources_available : ℕ
no_resources_available = 4

unfoldable pub accept_connection :
    (identifier psm remote : ℕ) → ChannelSpec → Result Error ℕ → Action (Unit {0})
unfolding queue_control put_channel incoming_channel queue_configure_request
accept_connection identifier psm remote spec (err _) m =
    (queue_control (connection_response identifier 0 remote no_resources_available 0) m, ok tt)
accept_connection identifier psm remote spec (ok cid) m = queue_configure_request cid (
    queue_control (connection_response identifier cid remote 0 0)
      (put_channel cid (incoming_channel psm cid remote spec) m))

unfoldable pub connect_server : (identifier psm remote : ℕ) → Option ChannelSpec → Action (Unit {0})
unfolding accept_connection allocate_cid
connect_server identifier psm remote none m =
    (queue_control (connection_response identifier 0 remote psm_not_supported 0) m, ok tt)
connect_server identifier psm remote (some spec) m =
    accept_connection identifier psm remote spec (allocate_cid m) m

unfoldable pub on_connection_request : (identifier psm remote : ℕ) → Action (Unit {0})
unfolding connect_server
on_connection_request identifier psm remote m =
    connect_server identifier psm remote (lookup psm m.servers) m

unfoldable pub connected_found :
    (destination_cid cid result : ℕ) → Option ClassicChannel → Action (Unit {0})
unfolding put_channel queue_configure_request
connected_found destination_cid cid result none m =
    (m, err (invalid_packet (unknown_connection_response cid)))
connected_found destination_cid cid result (some c) m =
    if not (is_waiting c.state)
    then (m, err (invalid_packet connection_response_in_invalid_state))
    else if not (result == 0)
    then (put_channel cid (record c { connection_result = some result; state = closed }) m, ok tt)
    else queue_configure_request cid (
        put_channel cid
          (record c {
            connection_result = some result;
            destination_cid = destination_cid;
            state = configuring;
          })
          m)

unfoldable pub on_connection_response : (destination_cid cid result : ℕ) → Action (Unit {0})
unfolding connected_found
on_connection_response destination_cid cid result m =
    connected_found destination_cid cid result (lookup cid m.channels) m

unfoldable pub disconnect_requested :
    (identifier cid remote : ℕ) → Option ClassicChannel → Action (Unit {0})
unfolding put_channel queue_control
disconnect_requested identifier cid remote none m =
    (m, err (invalid_packet (unknown_disconnection_request cid)))
disconnect_requested identifier cid remote (some c) m =
    if not (c.destination_cid == remote)
    then (m, err (invalid_packet disconnection_cid_mismatch))
    else (
      queue_control (disconnection_response identifier cid remote)
          (put_channel cid (record c { state = closed }) m),
      ok tt,
    )

unfoldable pub on_disconnection_request : (identifier cid remote : ℕ) → Action (Unit {0})
unfolding disconnect_requested
on_disconnection_request identifier cid remote m =
    disconnect_requested identifier cid remote (lookup cid m.channels) m

unfoldable pub disconnected_found :
    (destination_cid cid : ℕ) → Option ClassicChannel → Action (Unit {0})
unfolding put_channel
disconnected_found destination_cid cid none m =
    (m, err (invalid_packet (unknown_disconnection_response cid)))
disconnected_found destination_cid cid (some c) m =
    if not (c.destination_cid == destination_cid)
    then (m, err (invalid_packet disconnection_cid_mismatch))
    else (put_channel cid (record c { state = closed }) m, ok tt)

unfoldable pub on_disconnection_response : (destination_cid cid : ℕ) → Action (Unit {0})
unfolding disconnected_found
on_disconnection_response destination_cid cid m =
    disconnected_found destination_cid cid (lookup cid m.channels) m

unfoldable pub push_information_response : InformationResponse → ChannelManager → ChannelManager
push_information_response r m = record m {
  information_responses = m.information_responses ++ r ∷ [];
}

unfoldable pub process_control : ControlFrame → Action (Unit {0})
unfolding on_connection_request on_connection_response on_configure_request on_configure_response
    on_disconnection_request on_disconnection_response queue_control response
    push_information_response
process_control (connection_request id psm source_cid) = on_connection_request id psm source_cid
process_control (connection_response _ destination_cid source_cid result _) =
    on_connection_response destination_cid source_cid result
process_control (configure_request id destination_cid flags options) =
    on_configure_request id destination_cid flags options
process_control (configure_response _ source_cid _ result _) =
    on_configure_response source_cid result
process_control (disconnection_request id destination_cid source_cid) =
    on_disconnection_request id destination_cid source_cid
process_control (disconnection_response _ destination_cid source_cid) =
    on_disconnection_response destination_cid source_cid
process_control (echo_request id bytes) = λ m. (queue_control (echo_response id bytes) m, ok tt)
process_control (information_request id info_type) =
    λ m. (queue_control (response id info_type m.information) m, ok tt)
process_control (information_response id info_type result bytes) = λ m. (
  push_information_response
      (record { identifier = id; info_type = info_type; result = result; bytes = bytes }) m,
  ok tt,
)
process_control _ = λ m. (m, ok tt)

-- `disconnect`, called by the channel's owner.
unfoldable pub disconnect_found : ℕ → Option ClassicChannel → Action (Unit {0})
unfolding put_channel next_identifier queue_control
disconnect_found cid none m = (m, err (invalid_packet (channel_not_found cid)))
disconnect_found cid (some c) m =
    let waiting = next_identifier (put_channel cid (record c { state = wait_disconnect }) m) in
    if not (is_opened c.state) then (m, err (invalid_packet not_open)) else (
      queue_control (disconnection_request waiting.identifier c.destination_cid cid) waiting,
      ok tt,
    )

unfoldable pub disconnect : ℕ → Action (Unit {0})
unfolding disconnect_found
disconnect cid m = disconnect_found cid (lookup cid m.channels) m
