-- ===== src/L2cap/Signaling/Parser.antt =====
-- `ControlFrame::from_bytes` of src/l2cap/mod.rs: a table from the code to the arm that reads the
-- payload.
use swbt_bumble_backend.Base.{
  ℕ, ◌%◌, none, some, List, [], ◌∷◌, length, take, drop, Result, ok, err, fail_if, ◌>>=◌, ◌>>◌, ltb,
  not, ◌==◌, Map, lookup, u16_from_le,
}
use swbt_bumble_backend.L2cap.{
  Error, invalid_packet, payload_too_short, odd_cid_list, control_frame_missing,
  truncated_connection_request,
}
use swbt_bumble_backend.L2cap.Psm.{parse_psm}
use swbt_bumble_backend.L2cap.Signaling.{
  connection_parameter_update_request, le_credit_based_connection_request,
  le_credit_based_connection_response, credit_based_connection_request,
  credit_based_connection_response, ControlFrame, command_reject, connection_request,
  connection_response, configure_request, configure_response, disconnection_request,
  disconnection_response, echo_request, echo_response, information_request, information_response,
  connection_parameter_update_response, le_flow_control_credit, credit_based_reconfigure_request,
  credit_based_reconfigure_response, generic,
}

unfoldable pub need : List ℕ → ℕ → Result Error (Unit {0})
need bytes n = fail_if (ltb (length bytes) n) (invalid_packet (payload_too_short n (length bytes)))

-- Out of range the source panics; `need` is asked before.
unfoldable pub first_word : List ℕ → ℕ
first_word (lo ∷ hi ∷ _) = u16_from_le lo hi
first_word _ = 0

unfoldable pub le16 : List ℕ → ℕ → ℕ
unfolding first_word
le16 bytes offset = first_word (drop offset bytes)

-- `chunks_exact(2)`.
unfoldable pub words : List ℕ → List ℕ
words (lo ∷ hi ∷ rest) = u16_from_le lo hi ∷ words rest
words _ = []

unfoldable pub read_cid_list : List ℕ → Result Error (List ℕ)
unfolding words
read_cid_list bytes = do
  fail_if (not (length bytes % 2 == 0)) (invalid_packet odd_cid_list)
  ok (words bytes)

-- What is left of a Connection_Request behind the PSM.
unfoldable pub connection_request_fields : ℕ → List ℕ × ℕ → Result Error ControlFrame
connection_request_fields id (lo ∷ hi ∷ _, psm) = ok (connection_request id psm (u16_from_le lo hi))
connection_request_fields id (_, psm) = err (invalid_packet truncated_connection_request)

-- An arm of the `match` on the code.
abbrev pub Arm : Type 0
Arm = ℕ → List ℕ → Result Error ControlFrame

unfoldable pub read_connection_request : Arm
unfolding parse_psm connection_request_fields
read_connection_request id bytes = do parsed ← parse_psm bytes; connection_request_fields id parsed

unfoldable pub read_command_reject : Arm
unfolding need le16
read_command_reject id bytes = do need bytes 2; ok (command_reject id (le16 bytes 0) (drop 2 bytes))

unfoldable pub read_connection_response : Arm
unfolding need le16
read_connection_response id bytes = do
  need bytes 8
  ok (connection_response id (le16 bytes 0) (le16 bytes 2) (le16 bytes 4) (le16 bytes 6))

unfoldable pub read_configure_request : Arm
unfolding need le16
read_configure_request id bytes = do
  need bytes 4
  ok (configure_request id (le16 bytes 0) (le16 bytes 2) (drop 4 bytes))

unfoldable pub read_configure_response : Arm
unfolding need le16
read_configure_response id bytes = do
  need bytes 6
  ok (configure_response id (le16 bytes 0) (le16 bytes 2) (le16 bytes 4) (drop 6 bytes))

unfoldable pub read_disconnection_request : Arm
unfolding need le16
read_disconnection_request id bytes = do
  need bytes 4
  ok (disconnection_request id (le16 bytes 0) (le16 bytes 2))

unfoldable pub read_disconnection_response : Arm
unfolding need le16
read_disconnection_response id bytes = do
  need bytes 4
  ok (disconnection_response id (le16 bytes 0) (le16 bytes 2))

unfoldable pub read_echo_request : Arm
read_echo_request id bytes = ok (echo_request id bytes)

unfoldable pub read_echo_response : Arm
read_echo_response id bytes = ok (echo_response id bytes)

unfoldable pub read_information_request : Arm
unfolding need le16
read_information_request id bytes = do need bytes 2; ok (information_request id (le16 bytes 0))

unfoldable pub read_information_response : Arm
unfolding need le16
read_information_response id bytes = do
  need bytes 4
  ok (information_response id (le16 bytes 0) (le16 bytes 2) (drop 4 bytes))

unfoldable pub read_connection_parameter_update_request : Arm
unfolding need le16
read_connection_parameter_update_request id bytes = do
  need bytes 8
  ok (
      connection_parameter_update_request id (le16 bytes 0) (le16 bytes 2) (le16 bytes 4)
        (le16 bytes 6))

unfoldable pub read_connection_parameter_update_response : Arm
unfolding need le16
read_connection_parameter_update_response id bytes = do
  need bytes 2
  ok (connection_parameter_update_response id (le16 bytes 0))

unfoldable pub read_le_credit_based_connection_request : Arm
unfolding need le16
read_le_credit_based_connection_request id bytes = do
  need bytes 10
  ok (
      le_credit_based_connection_request id (le16 bytes 0) (le16 bytes 2) (le16 bytes 4)
        (le16 bytes 6) (le16 bytes 8))

unfoldable pub read_le_credit_based_connection_response : Arm
unfolding need le16
read_le_credit_based_connection_response id bytes = do
  need bytes 10
  ok (
      le_credit_based_connection_response id (le16 bytes 0) (le16 bytes 2) (le16 bytes 4)
        (le16 bytes 6) (le16 bytes 8))

unfoldable pub read_le_flow_control_credit : Arm
unfolding need le16
read_le_flow_control_credit id bytes = do
  need bytes 4
  ok (le_flow_control_credit id (le16 bytes 0) (le16 bytes 2))

unfoldable pub read_credit_based_connection_request : Arm
unfolding need le16 read_cid_list
read_credit_based_connection_request id bytes = do
  need bytes 8
  cids ← read_cid_list (drop 8 bytes)
  ok (
      credit_based_connection_request id (le16 bytes 0) (le16 bytes 2) (le16 bytes 4) (le16 bytes 6)
        cids)

unfoldable pub read_credit_based_connection_response : Arm
unfolding need le16 read_cid_list
read_credit_based_connection_response id bytes = do
  need bytes 8
  cids ← read_cid_list (drop 8 bytes)
  ok (
      credit_based_connection_response id (le16 bytes 0) (le16 bytes 2) (le16 bytes 4)
        (le16 bytes 6) cids)

unfoldable pub read_credit_based_reconfigure_request : Arm
unfolding need le16 read_cid_list
read_credit_based_reconfigure_request id bytes = do
  need bytes 4
  cids ← read_cid_list (drop 4 bytes)
  ok (credit_based_reconfigure_request id (le16 bytes 0) (le16 bytes 2) cids)

unfoldable pub read_credit_based_reconfigure_response : Arm
unfolding need le16
read_credit_based_reconfigure_response id bytes = do
  need bytes 2
  ok (credit_based_reconfigure_response id (le16 bytes 0))

unfoldable pub arms : Map Arm
unfolding read_connection_request read_command_reject read_connection_response
    read_configure_request read_configure_response read_disconnection_request
    read_disconnection_response read_echo_request read_echo_response read_information_request
    read_information_response read_connection_parameter_update_request
    read_connection_parameter_update_response read_le_credit_based_connection_request
    read_le_credit_based_connection_response read_le_flow_control_credit
    read_credit_based_connection_request read_credit_based_connection_response
    read_credit_based_reconfigure_request read_credit_based_reconfigure_response
arms =
    (0x01, read_command_reject)
    ∷ (0x02, read_connection_request)
    ∷ (0x03, read_connection_response)
    ∷ (0x04, read_configure_request)
    ∷ (0x05, read_configure_response)
    ∷ (0x06, read_disconnection_request)
    ∷ (0x07, read_disconnection_response)
    ∷ (0x08, read_echo_request)
    ∷ (0x09, read_echo_response)
    ∷ (0x0A, read_information_request)
    ∷ (0x0B, read_information_response)
    ∷ (0x12, read_connection_parameter_update_request)
    ∷ (0x13, read_connection_parameter_update_response)
    ∷ (0x14, read_le_credit_based_connection_request)
    ∷ (0x15, read_le_credit_based_connection_response)
    ∷ (0x16, read_le_flow_control_credit)
    ∷ (0x17, read_credit_based_connection_request)
    ∷ (0x18, read_credit_based_connection_response)
    ∷ (0x19, read_credit_based_reconfigure_request)
    ∷ (0x1A, read_credit_based_reconfigure_response)
    ∷ []

unfoldable pub frame_fields : (frame_code identifier : ℕ) → List ℕ → Result Error ControlFrame
unfolding arms
frame_fields frame_code id bytes = elim (lookup frame_code arms) [
  | some arm ↦ arm id bytes
  | none ↦ ok (generic frame_code id bytes)
]

-- The payload is what there is of the bytes that the header declares.
unfoldable pub from_bytes : List ℕ → Result Error ControlFrame
unfolding frame_fields
from_bytes (frame_code ∷ id ∷ lo ∷ hi ∷ rest) =
    frame_fields frame_code id (take (u16_from_le lo hi) rest)
from_bytes _ = err (invalid_packet control_frame_missing)
