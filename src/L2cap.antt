-- ===== src/L2cap.antt =====
-- Classic L2CAP (src/l2cap/). `Error` is the one error type of these modules; the text of a message
-- is replaced by a constructor of `Reason` with the numbers that the text shows.
pub mod Ertm
pub mod Psm
pub mod Crc
pub mod Pdu
pub mod Signaling
pub mod Configuration
pub mod Information
pub mod Classic
pub mod Examples
use swbt_bumble_backend.Base.{ℕ, String}

pub data Reason : Type 0 where
  psm_missing : Reason
  truncated_psm : Reason
  header_missing : Reason
  control_frame_missing : Reason
  truncated_connection_request : Reason
  payload_too_short : (need have : ℕ) → Reason
  odd_cid_list : Reason
  option_too_long : Reason
  truncated_option_header : Reason
  truncated_option_value : Reason
  fixed_channel_out_of_range : (cid : ℕ) → Reason
  truncated_control_field : Reason
  invalid_sar : Reason
  invalid_supervisory_function : Reason
  sequence_out_of_range : (name : String) → Reason
  zero_mtu : Reason
  zero_mps : Reason
  window_out_of_range : Reason
  zero_timeout : Reason
  sdu_exceeds_peer_mtu : (mtu : ℕ) → Reason
  sdu_length_exceeds_16_bits : Reason
  unsegmented_interrupted_sdu : Reason
  sdu_exceeds_local_mtu : Reason
  start_without_length : Reason
  start_interrupted_sdu : Reason
  continuation_without_start : Reason
  end_without_start : Reason
  sdu_length_mismatch : Reason
  length_reached_before_end : Reason
  acknowledgment_out_of_range : Reason
  acknowledged_too_many : (count outstanding : ℕ) → Reason
  unknown_selective_reject : (tx_seq : ℕ) → Reason
  engine_failed : Reason
  retransmissions_exceeded : (tx_seq : ℕ) → Reason
  invalid_psm : Reason
  psm_in_use : (psm : ℕ) → Reason
  no_free_psm : Reason
  no_free_cid : Reason
  mtu_too_small : Reason
  zero_ertm_mps : Reason
  ertm_window_out_of_range : Reason
  zero_ertm_timeout : Reason
  channel_not_found : (cid : ℕ) → Reason
  channel_not_open : (cid : ℕ) → Reason
  not_open : Reason
  not_using_ertm : Reason
  incoming_sdu_exceeds_mtu : (mtu : ℕ) → Reason
  unknown_connection_response : (cid : ℕ) → Reason
  connection_response_in_invalid_state : Reason
  unknown_configuration_request : (cid : ℕ) → Reason
  unknown_configuration_response : (cid : ℕ) → Reason
  unknown_disconnection_request : (cid : ℕ) → Reason
  unknown_disconnection_response : (cid : ℕ) → Reason
  disconnection_cid_mismatch : Reason
  ertm_frame_too_large : Reason
  fcs_missing : Reason
  invalid_fcs : Reason

pub data Error : Type 0 where
  invalid_packet : Reason → Error
