-- ===== src/L2cap/Signaling/RoundTrip.antt =====
-- A signaling frame of src/l2cap/mod.rs is read back from its bytes.
use swbt_bumble_backend.Base.{
  ℕ, ◌*◌, ◌/◌, ◌%◌, ◌≤◌, ◌≡◌, refl, ap, arith, none, List, [], ◌∷◌, ◌++◌, length, take-append_left,
  All, IsU16, ok, le→ltb, lookup, eq→==, u16_to_le, u16_from_le,
}
use swbt_bumble_backend.L2cap.Psm.{IsPsm, serialize_psm, parse_psm-serialize_psm}
use swbt_bumble_backend.L2cap.Signaling.{
  command_reject, connection_request, connection_response, configure_request, configure_response,
  disconnection_request, disconnection_response, echo_request, echo_response, information_request,
  information_response, connection_parameter_update_request, connection_parameter_update_response,
  le_credit_based_connection_request, le_credit_based_connection_response, le_flow_control_credit,
  credit_based_connection_request, credit_based_connection_response,
  credit_based_reconfigure_request, credit_based_reconfigure_response, ControlFrame, generic, code,
  identifier, payload, push_cids, to_bytes,
}
use swbt_bumble_backend.L2cap.Signaling.Parser.{
  need, le16, words, read_cid_list, connection_request_fields, arms, frame_fields, from_bytes,
  read_connection_request, read_command_reject, read_connection_response, read_configure_request,
  read_configure_response, read_disconnection_request, read_disconnection_response,
  read_echo_request, read_echo_response, read_information_request, read_information_response,
  read_connection_parameter_update_request, read_connection_parameter_update_response,
  read_le_credit_based_connection_request, read_le_credit_based_connection_response,
  read_le_flow_control_credit, read_credit_based_connection_request,
  read_credit_based_connection_response, read_credit_based_reconfigure_request,
  read_credit_based_reconfigure_response,
}

-- The fields are in range; the code of a generic frame is none of the others.
abbrev pub IsFrame : ControlFrame → Type 0
IsFrame (command_reject _ reason _) = IsU16 reason
IsFrame (connection_request _ psm source_cid) = IsPsm psm × IsU16 source_cid
IsFrame (connection_response _ destination_cid source_cid result status) =
    IsU16 destination_cid × IsU16 source_cid × IsU16 result × IsU16 status
IsFrame (configure_request _ destination_cid flags _) = IsU16 destination_cid × IsU16 flags
IsFrame (configure_response _ source_cid flags result _) =
    IsU16 source_cid × IsU16 flags × IsU16 result
IsFrame (disconnection_request _ destination_cid source_cid) =
    IsU16 destination_cid × IsU16 source_cid
IsFrame (disconnection_response _ destination_cid source_cid) =
    IsU16 destination_cid × IsU16 source_cid
IsFrame (echo_request _ _) = Unit {0}
IsFrame (echo_response _ _) = Unit {0}
IsFrame (information_request _ info_type) = IsU16 info_type
IsFrame (information_response _ info_type result _) = IsU16 info_type × IsU16 result
IsFrame (connection_parameter_update_request _ interval_min interval_max latency timeout) =
    IsU16 interval_min × IsU16 interval_max × IsU16 latency × IsU16 timeout
IsFrame (connection_parameter_update_response _ result) = IsU16 result
IsFrame (le_credit_based_connection_request _ le_psm source_cid mtu mps initial_credits) =
    IsU16 le_psm × IsU16 source_cid × IsU16 mtu × IsU16 mps × IsU16 initial_credits
IsFrame (le_credit_based_connection_response _ destination_cid mtu mps initial_credits result) =
    IsU16 destination_cid × IsU16 mtu × IsU16 mps × IsU16 initial_credits × IsU16 result
IsFrame (le_flow_control_credit _ cid credits) = IsU16 cid × IsU16 credits
IsFrame (credit_based_connection_request _ spsm mtu mps initial_credits cids) =
    IsU16 spsm × IsU16 mtu × IsU16 mps × IsU16 initial_credits × All IsU16 cids
IsFrame (credit_based_connection_response _ mtu mps initial_credits result cids) =
    IsU16 mtu × IsU16 mps × IsU16 initial_credits × IsU16 result × All IsU16 cids
IsFrame (credit_based_reconfigure_request _ mtu mps cids) = IsU16 mtu × IsU16 mps × All IsU16 cids
IsFrame (credit_based_reconfigure_response _ result) = IsU16 result
IsFrame (generic frame_code _ _) = lookup frame_code arms ≡ none

u16_back : (w : ℕ) → IsU16 w → u16_from_le (w % 256) (w / 256 % 256) ≡ w
u16_back w h = omega arith

need-ok : (n : ℕ) (bytes : List ℕ) → n ≤ length bytes → need bytes n ≡ ok tt
unfolding need
need-ok n bytes h = rw (le→ltb (length bytes) n h) refl

words-push_cids : (cids : List ℕ) → All IsU16 cids → words (push_cids cids) ≡ cids
unfolding words
words-push_cids [] h = refl
words-push_cids (cid ∷ cids) h = rw (u16_back cid h.0) (ap (◌∷◌ cid) (words-push_cids cids h.1))

length-push_cids : (cids : List ℕ) → length (push_cids cids) ≡ 2 * length cids
length-push_cids [] = refl
length-push_cids (cid ∷ cids) = omega (arith, length-push_cids cids)

read_cid_list-push_cids :
    (cids : List ℕ) → All IsU16 cids → read_cid_list (push_cids cids) ≡ ok cids
unfolding read_cid_list
read_cid_list-push_cids cids h =
    rw (eq→== (length (push_cids cids) % 2) 0 (omega (arith, length-push_cids cids)))
      (ap ok (words-push_cids cids h))

connection_request_read :
    (id psm source_cid : ℕ)
    → IsPsm psm
    → IsU16 source_cid
    → read_connection_request id (serialize_psm psm ++ u16_to_le source_cid)
      ≡ ok (connection_request id psm source_cid)
unfolding read_connection_request connection_request_fields
connection_request_read id psm source_cid hp hs =
    rw (parse_psm-serialize_psm psm (u16_to_le source_cid) hp, u16_back source_cid hs) refl

generic_read :
    (frame_code id : ℕ) (bytes : List ℕ)
    → lookup frame_code arms ≡ none
    → frame_fields frame_code id bytes ≡ ok (generic frame_code id bytes)
unfolding frame_fields
generic_read frame_code id bytes h = rw (h, frame_fields) refl

-- Each arm reads the payload that the frame was written with.
fields_read :
    (f : ControlFrame) → IsFrame f → frame_fields (code f) (identifier f) (payload f) ≡ ok f
unfolding frame_fields code identifier payload le16 read_command_reject read_connection_response
    read_configure_request read_configure_response read_disconnection_request
    read_disconnection_response read_echo_request read_echo_response read_information_request
    read_information_response read_connection_parameter_update_request
    read_connection_parameter_update_response read_le_credit_based_connection_request
    read_le_credit_based_connection_response read_le_flow_control_credit
    read_credit_based_connection_request read_credit_based_connection_response
    read_credit_based_reconfigure_request read_credit_based_reconfigure_response
fields_read (command_reject id reason bytes) h =
    rw (need-ok 2 (payload (command_reject id reason bytes)) (omega arith), u16_back reason h) refl
fields_read (connection_request id psm source_cid) h =
    connection_request_read id psm source_cid h.0 h.1
fields_read (connection_response id destination_cid source_cid result status) h =
    rw
      (
        u16_back destination_cid h.0,
        u16_back source_cid h.1,
        u16_back result h.2,
        u16_back status h.3,
      )
      refl
fields_read (configure_request id destination_cid flags options) h =
    rw
      (
        need-ok 4 (payload (configure_request id destination_cid flags options)) (omega arith),
        u16_back destination_cid h.0,
        u16_back flags h.1,
      )
      refl
fields_read (configure_response id source_cid flags result options) h =
    rw
      (
        need-ok 6 (payload (configure_response id source_cid flags result options)) (omega arith),
        u16_back source_cid h.0,
        u16_back flags h.1,
        u16_back result h.2,
      )
      refl
fields_read (disconnection_request id destination_cid source_cid) h =
    rw (u16_back destination_cid h.0, u16_back source_cid h.1) refl
fields_read (disconnection_response id destination_cid source_cid) h =
    rw (u16_back destination_cid h.0, u16_back source_cid h.1) refl
fields_read (echo_request id bytes) h = refl
fields_read (echo_response id bytes) h = refl
fields_read (information_request id info_type) h = rw (u16_back info_type h) refl
fields_read (information_response id info_type result bytes) h =
    rw
      (
        need-ok 4 (payload (information_response id info_type result bytes)) (omega arith),
        u16_back info_type h.0,
        u16_back result h.1,
      )
      refl
fields_read (connection_parameter_update_request id interval_min interval_max latency timeout) h =
    rw
      (
        u16_back interval_min h.0,
        u16_back interval_max h.1,
        u16_back latency h.2,
        u16_back timeout h.3,
      )
      refl
fields_read (connection_parameter_update_response id result) h = rw (u16_back result h) refl
fields_read (le_credit_based_connection_request id le_psm source_cid mtu mps initial_credits) h =
    rw
      (
        u16_back le_psm h.0,
        u16_back source_cid h.1,
        u16_back mtu h.2,
        u16_back mps h.3,
        u16_back initial_credits h.4,
      )
      refl
fields_read (le_credit_based_connection_response id destination_cid mtu mps initial_credits result)
      h =
    rw
      (
        u16_back destination_cid h.0,
        u16_back mtu h.1,
        u16_back mps h.2,
        u16_back initial_credits h.3,
        u16_back result h.4,
      )
      refl
fields_read (le_flow_control_credit id cid credits) h =
    rw (u16_back cid h.0, u16_back credits h.1) refl
fields_read (credit_based_connection_request id spsm mtu mps initial_credits cids) h =
    rw
      (
        need-ok 8 (payload (credit_based_connection_request id spsm mtu mps initial_credits cids))
            (omega arith),
        u16_back spsm h.0,
        u16_back mtu h.1,
        u16_back mps h.2,
        u16_back initial_credits h.3,
        read_cid_list-push_cids cids h.4,
      )
      refl
fields_read (credit_based_connection_response id mtu mps initial_credits result cids) h =
    rw
      (
        need-ok 8
            (payload (credit_based_connection_response id mtu mps initial_credits result cids))
            (omega arith),
        u16_back mtu h.0,
        u16_back mps h.1,
        u16_back initial_credits h.2,
        u16_back result h.3,
        read_cid_list-push_cids cids h.4,
      )
      refl
fields_read (credit_based_reconfigure_request id mtu mps cids) h =
    rw
      (
        need-ok 4 (payload (credit_based_reconfigure_request id mtu mps cids)) (omega arith),
        u16_back mtu h.0,
        u16_back mps h.1,
        read_cid_list-push_cids cids h.2,
      )
      refl
fields_read (credit_based_reconfigure_response id result) h = rw (u16_back result h) refl
fields_read (generic frame_code id bytes) h = generic_read frame_code id bytes h

-- A frame in range whose payload has at most 65535 bytes is read back from its bytes, whatever
-- follows them.
pub signaling_from_bytes-to_bytes :
    (f : ControlFrame) (rest : List ℕ)
    → IsFrame f
    → length (payload f) ≤ 65535
    → from_bytes (to_bytes f ++ rest) ≡ ok f
unfolding from_bytes to_bytes
signaling_from_bytes-to_bytes f rest h short =
    let n = length (payload f) in
    let declared : u16_from_le (n % 65536 % 256) (n % 65536 / 256 % 256) ≡ n = omega arith in
    rw (declared, take-append_left (payload f) rest) (fields_read f h)
