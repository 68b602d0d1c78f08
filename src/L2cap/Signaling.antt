-- ===== src/L2cap/Signaling.antt =====
-- The signaling frames of src/l2cap/mod.rs: `ControlFrame` and what it is written as.
pub mod Parser
pub mod RoundTrip
use swbt_bumble_backend.Base.{
  ℕ, zero, suc, ◌+◌, ◌*◌, ◌%◌, ◌≡◌, Bool, Option, none, some, List, [], ◌∷◌, ◌++◌, length, take,
  drop, Result, ok, err, fail_if, ◌>>=◌, ◌>>◌, if◌then◌else◌, ltb, not, ◌==◌, Map, lookup,
  u16_to_le, u16_from_le,
}
use swbt_bumble_backend.L2cap.{
  Error, invalid_packet, payload_too_short, odd_cid_list, control_frame_missing,
  truncated_connection_request,
}
use swbt_bumble_backend.L2cap.Psm.{serialize_psm, parse_psm}

pub data ControlFrame : Type 0 where
  command_reject : (identifier reason : ℕ) (bytes : List ℕ) → ControlFrame
  connection_request : (identifier psm source_cid : ℕ) → ControlFrame
  connection_response : (identifier destination_cid source_cid result status : ℕ) → ControlFrame
  configure_request : (identifier destination_cid flags : ℕ) (options : List ℕ) → ControlFrame
  configure_response : (identifier source_cid flags result : ℕ) (options : List ℕ) → ControlFrame
  disconnection_request : (identifier destination_cid source_cid : ℕ) → ControlFrame
  disconnection_response : (identifier destination_cid source_cid : ℕ) → ControlFrame
  echo_request : (identifier : ℕ) (bytes : List ℕ) → ControlFrame
  echo_response : (identifier : ℕ) (bytes : List ℕ) → ControlFrame
  information_request : (identifier info_type : ℕ) → ControlFrame
  information_response : (identifier info_type result : ℕ) (bytes : List ℕ) → ControlFrame
  connection_parameter_update_request :
      (identifier interval_min interval_max latency timeout : ℕ) → ControlFrame
  connection_parameter_update_response : (identifier result : ℕ) → ControlFrame
  le_credit_based_connection_request :
      (identifier le_psm source_cid mtu mps initial_credits : ℕ) → ControlFrame
  le_credit_based_connection_response :
      (identifier destination_cid mtu mps initial_credits result : ℕ) → ControlFrame
  le_flow_control_credit : (identifier cid credits : ℕ) → ControlFrame
  credit_based_connection_request :
      (identifier spsm mtu mps initial_credits : ℕ) (cids : List ℕ) → ControlFrame
  credit_based_connection_response :
      (identifier mtu mps initial_credits result : ℕ) (cids : List ℕ) → ControlFrame
  credit_based_reconfigure_request : (identifier mtu mps : ℕ) (cids : List ℕ) → ControlFrame
  credit_based_reconfigure_response : (identifier result : ℕ) → ControlFrame
  generic : (frame_code identifier : ℕ) (payload : List ℕ) → ControlFrame

unfoldable pub code : ControlFrame → ℕ
code (command_reject _ _ _) = 0x01
code (connection_request _ _ _) = 0x02
code (connection_response _ _ _ _ _) = 0x03
code (configure_request _ _ _ _) = 0x04
code (configure_response _ _ _ _ _) = 0x05
code (disconnection_request _ _ _) = 0x06
code (disconnection_response _ _ _) = 0x07
code (echo_request _ _) = 0x08
code (echo_response _ _) = 0x09
code (information_request _ _) = 0x0A
code (information_response _ _ _ _) = 0x0B
code (connection_parameter_update_request _ _ _ _ _) = 0x12
code (connection_parameter_update_response _ _) = 0x13
code (le_credit_based_connection_request _ _ _ _ _ _) = 0x14
code (le_credit_based_connection_response _ _ _ _ _ _) = 0x15
code (le_flow_control_credit _ _ _) = 0x16
code (credit_based_connection_request _ _ _ _ _ _) = 0x17
code (credit_based_connection_response _ _ _ _ _ _) = 0x18
code (credit_based_reconfigure_request _ _ _ _) = 0x19
code (credit_based_reconfigure_response _ _) = 0x1A
code (generic frame_code _ _) = frame_code

unfoldable pub identifier : ControlFrame → ℕ
identifier (command_reject id _ _) = id
identifier (connection_request id _ _) = id
identifier (connection_response id _ _ _ _) = id
identifier (configure_request id _ _ _) = id
identifier (configure_response id _ _ _ _) = id
identifier (disconnection_request id _ _) = id
identifier (disconnection_response id _ _) = id
identifier (echo_request id _) = id
identifier (echo_response id _) = id
identifier (information_request id _) = id
identifier (information_response id _ _ _) = id
identifier (connection_parameter_update_request id _ _ _ _) = id
identifier (connection_parameter_update_response id _) = id
identifier (le_credit_based_connection_request id _ _ _ _ _) = id
identifier (le_credit_based_connection_response id _ _ _ _ _) = id
identifier (le_flow_control_credit id _ _) = id
identifier (credit_based_connection_request id _ _ _ _ _) = id
identifier (credit_based_connection_response id _ _ _ _ _) = id
identifier (credit_based_reconfigure_request id _ _ _) = id
identifier (credit_based_reconfigure_response id _) = id
identifier (generic _ id _) = id

-- The words of a list, one after the other.
abbrev pub push_cids : List ℕ → List ℕ
push_cids [] = []
push_cids (cid ∷ rest) = u16_to_le cid ++ push_cids rest

unfoldable pub payload : ControlFrame → List ℕ
payload (command_reject _ reason bytes) = u16_to_le reason ++ (bytes)
payload (connection_request _ psm source_cid) = serialize_psm psm ++ u16_to_le source_cid
payload (connection_response _ destination_cid source_cid result status) =
    u16_to_le destination_cid ++ (u16_to_le source_cid ++ (u16_to_le result ++ (u16_to_le status)))
payload (configure_request _ destination_cid flags options) =
    u16_to_le destination_cid ++ (u16_to_le flags ++ (options))
payload (configure_response _ source_cid flags result options) =
    u16_to_le source_cid ++ (u16_to_le flags ++ (u16_to_le result ++ (options)))
payload (disconnection_request _ destination_cid source_cid) =
    u16_to_le destination_cid ++ (u16_to_le source_cid)
payload (disconnection_response _ destination_cid source_cid) =
    u16_to_le destination_cid ++ (u16_to_le source_cid)
payload (echo_request _ bytes) = bytes
payload (echo_response _ bytes) = bytes
payload (information_request _ info_type) = u16_to_le info_type
payload (information_response _ info_type result bytes) =
    u16_to_le info_type ++ (u16_to_le result ++ (bytes))
payload (connection_parameter_update_request _ interval_min interval_max latency timeout) =
    u16_to_le interval_min ++ (u16_to_le interval_max ++ (u16_to_le latency ++ (u16_to_le timeout)))
payload (connection_parameter_update_response _ result) = u16_to_le result
payload (le_credit_based_connection_request _ le_psm source_cid mtu mps initial_credits) =
    u16_to_le le_psm
    ++ (u16_to_le source_cid ++ (u16_to_le mtu ++ (u16_to_le mps ++ (u16_to_le initial_credits))))
payload (le_credit_based_connection_response _ destination_cid mtu mps initial_credits result) =
    u16_to_le destination_cid
    ++ (u16_to_le mtu ++ (u16_to_le mps ++ (u16_to_le initial_credits ++ (u16_to_le result))))
payload (le_flow_control_credit _ cid credits) = u16_to_le cid ++ (u16_to_le credits)
payload (credit_based_connection_request _ spsm mtu mps initial_credits cids) =
    u16_to_le spsm
    ++ (u16_to_le mtu ++ (u16_to_le mps ++ (u16_to_le initial_credits ++ (push_cids cids))))
payload (credit_based_connection_response _ mtu mps initial_credits result cids) =
    u16_to_le mtu
    ++ (u16_to_le mps ++ (u16_to_le initial_credits ++ (u16_to_le result ++ (push_cids cids))))
payload (credit_based_reconfigure_request _ mtu mps cids) =
    u16_to_le mtu ++ (u16_to_le mps ++ (push_cids cids))
payload (credit_based_reconfigure_response _ result) = u16_to_le result
payload (generic _ _ bytes) = bytes

-- The length is written `as u16`.
unfoldable pub to_bytes : ControlFrame → List ℕ
unfolding code identifier payload
to_bytes f = code f ∷ identifier f ∷ u16_to_le (length (payload f) % 65536) ++ payload f
