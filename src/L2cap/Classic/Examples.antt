-- ===== src/L2cap/Classic/Examples.antt =====
-- Runs of the channel manager (after the tests of src/l2cap/classic_tests.rs), and the theorems at
-- concrete inputs.
use swbt_bumble_backend.Base.{
  ℕ, ◌+◌, ◌/◌, ◌%◌, ◌≤◌, ◌<◌, ◌≡◌, refl, arith, true, false, List, [], ◌∷◌, ◌++◌, length, All, ltb,
  if◌then◌else◌, ◌⊎◌, ok, err, none, some, lookup,
}
use swbt_bumble_backend.L2cap.{
  invalid_packet, engine_failed, ertm_frame_too_large, sdu_exceeds_peer_mtu,
  incoming_sdu_exceeds_mtu,
}
use swbt_bumble_backend.L2cap.Pdu
use swbt_bumble_backend.L2cap.Pdu.{L2capPdu}
use swbt_bumble_backend.L2cap.Psm.{parse_psm, serialize_psm, psm_bytes}
use swbt_bumble_backend.L2cap.Configuration.{ConfigurationOption, decode_configuration_options}
use swbt_bumble_backend.L2cap.Information.{default_capabilities}
use swbt_bumble_backend.L2cap.Ertm.State.{ErtmEngine, initial, default_config}
use swbt_bumble_backend.L2cap.Classic.{
  ChannelManager, new, with_information_capabilities, default_ertm_spec, ClassicChannel, opened,
  basic, ertm, basic_mode, enhanced_retransmission, allocate_cid, put_channel, push_outbound,
  incoming_channel,
}
use swbt_bumble_backend.L2cap.Classic.Validation.{validate_psm}
use swbt_bumble_backend.L2cap.Classic.Fcs.{append_fcs, verify_and_strip_fcs}
use swbt_bumble_backend.L2cap.Classic.Fcs.RoundTrip.{verify_and_strip_fcs-append_fcs}
use swbt_bumble_backend.L2cap.Classic.Transfer.{send, tick, engine_cids}
use swbt_bumble_backend.L2cap.Classic.Configure.{on_configure_request}
use swbt_bumble_backend.L2cap.Classic.Manager.{
  Call, register_basic, register_ertm, receive, receive_bytes, elapse, perform_all, process_bytes,
  connect_with_spec,
}
use swbt_bumble_backend.L2cap.Classic.Wire.{validated_psm_read}
use swbt_bumble_backend.L2cap.Classic.Delivery.{process_bytes-send}
use swbt_bumble_backend.L2cap.Classic.Starvation.{tick_starved}
use swbt_bumble_backend.L2cap.Classic.Answers.{Answered, on_configure_request-Answered}
use swbt_bumble_backend.L2cap.Classic.Agreement.Steps.{round}
use swbt_bumble_backend.L2cap.Classic.Agreement.Handshake.{Joined, handshake}
use swbt_bumble_backend.L2cap.Classic.Invariant.{ChannelIsValid, ManagerIsValid}
use swbt_bumble_backend.L2cap.Classic.Invariant.Runs.{BringsBytes, perform_all-IsValid}

-- A server that is asked for a connection, for one to a PSM that it does not serve, and sent bytes
-- that are no frame.
abbrev calls : List Call
calls =
    register_basic (some 0x11) (record { mtu = 100 })
    ∷ receive (record { cid = 1; payload = 0x02 ∷ 7 ∷ 4 ∷ 0 ∷ 0x11 ∷ 0 ∷ 0x55 ∷ 0 ∷ [] })
    ∷ receive (record { cid = 1; payload = 0x02 ∷ 8 ∷ 4 ∷ 0 ∷ 0x13 ∷ 0 ∷ 0x56 ∷ 0 ∷ [] })
    ∷ receive_bytes (1 ∷ 2 ∷ 3 ∷ [])
    ∷ elapse 10
    ∷ []

abbrev asked : ChannelManager
asked = perform_all calls (with_information_capabilities default_capabilities)

-- The channel under the first free identifier waits for its configuration.
asked_channel :
    lookup 0x40 asked.channels
    ≡ some (incoming_channel 0x11 0x40 0x55 (basic (record { mtu = 100 })))
unfolding perform_all with_information_capabilities incoming_channel
asked_channel = refl

asked_pdus : length asked.outbound ≡ 3
unfolding perform_all with_information_capabilities
asked_pdus = refl

asked_bytes : All BringsBytes calls
asked_bytes = (tt, (omega arith, (omega arith, (omega arith, (tt, tt)))))

perform_all-IsValid_example : ManagerIsValid asked
perform_all-IsValid_example = perform_all-IsValid default_capabilities calls asked_bytes

-- Channel 0x40 of one side is open to channel 0x41 of the other.
abbrev open_to : ℕ → ℕ → ClassicChannel
open_to from to = record {
  psm = 0x11;
  source_cid = from;
  destination_cid = to;
  mtu = 100;
  peer_mtu = 50;
  peer_mps = 1010;
  mode = basic_mode;
  fcs_enabled = false;
  state = opened;
  connection_result = some 0;
  incoming = false;
  peer_configuration_received = true;
  configuration_response_received = true;
  open_announced = false;
  spec = basic (record { mtu = 100 });
  engine = none;
  received = [];
}

abbrev manager_with : ℕ → ClassicChannel → ChannelManager
manager_with cid c = record {
  servers = [];
  channels = (cid, c) ∷ [];
  accepted_channels = [];
  outbound = [];
  information = default_capabilities;
  information_responses = [];
  identifier = 3;
}

open_to-IsValid :
    (from to : ℕ) → 0x40 ≤ from → from ≤ 0xffff → ChannelIsValid from (open_to from to)
open_to-IsValid from to low high = record {
  source = refl;
  range = (low, high);
  specified = omega arith;
  mode_valid = refl;
  mtu_valid = refl;
  peer_mtu_valid = omega arith;
  settled = λ _. (refl, refl);
  engine_valid = tt;
  received_fits = tt;
}

left-IsValid : ManagerIsValid (manager_with 0x40 (open_to 0x40 0x41))
left-IsValid = record {
  channels_valid = (open_to-IsValid 0x40 0x41 (omega arith) (omega arith), tt);
  servers_valid = tt;
  accepted_valid = tt;
  identifier_width = omega arith;
}

right-IsValid : ManagerIsValid (manager_with 0x41 (open_to 0x41 0x40))
right-IsValid = record {
  channels_valid = (open_to-IsValid 0x41 0x40 (omega arith) (omega arith), tt);
  servers_valid = tt;
  accepted_valid = tt;
  identifier_width = omega arith;
}

abbrev left : ChannelManager
left = manager_with 0x40 (open_to 0x40 0x41)

abbrev right : ChannelManager
right = manager_with 0x41 (open_to 0x41 0x40)

abbrev hello : List ℕ
hello = 0x68 ∷ 0x69 ∷ []

process_bytes-send_example :
    let pdu : L2capPdu = record { cid = 0x41; payload = hello } in
    (send 0x40 hello left ≡ (
      if ltb 50 (length hello)
      then (left, err (invalid_packet (sdu_exceeds_peer_mtu 50)))
      else (push_outbound pdu left, ok tt)))
    × (process_bytes (Pdu.to_bytes pdu false) right ≡ (
        if ltb 100 (length hello)
        then (right, err (invalid_packet (incoming_sdu_exceeds_mtu 100)))
        else (
          put_channel 0x41 (record (open_to 0x41 0x40) { received = hello ∷ [] }) right,
          ok tt,
        )))
process_bytes-send_example =
    process_bytes-send 0x40 hello (open_to 0x40 0x41) (open_to 0x41 0x40) left right
      (record { manager_valid = left-IsValid; found = refl; mode_basic = refl; is_open = refl })
      (record { manager_valid = right-IsValid; found = refl; mode_basic = refl; is_open = refl })
      (omega arith)

verify_and_strip_fcs-append_fcs_example :
    ((frame : List ℕ) × (append_fcs 0x41 hello ≡ ok frame)
      × (length frame ≡ length hello + 2)
      × (verify_and_strip_fcs 0x41 frame ≡ ok hello))
    ⊎ ((65533 < length hello) × (append_fcs 0x41 hello ≡ err (invalid_packet ertm_frame_too_large)))
verify_and_strip_fcs-append_fcs_example = verify_and_strip_fcs-append_fcs 0x41 hello (omega arith)

-- The validation takes a PSM of 18 bits, and the peer reads another.
wide_psm_valid : validate_psm 0x20001 ≡ ok tt
unfolding validate_psm
wide_psm_valid = refl

validated_psm_read_example :
    parse_psm (serialize_psm 0x20001 ++ 0x40 ∷ 0 ∷ [])
    ≡ ok (psm_bytes 2 (0x20001 / 65536) ++ 0x40 ∷ 0 ∷ [], 0x20001 % 65536)
validated_psm_read_example = validated_psm_read 0x20001 (0x40 ∷ 0 ∷ []) wide_psm_valid

-- A channel whose engine has given up.
abbrev broken_engine : ErtmEngine
broken_engine = record (initial default_config) { failed = true }

abbrev broken : ClassicChannel
broken = record (open_to 0x40 0x41) {
  mode = enhanced_retransmission;
  spec = ertm default_ertm_spec;
  engine = some broken_engine;
}

abbrev stuck : ChannelManager
stuck = manager_with 0x40 broken

tick_starved_example :
    ((tick 2000 stuck).1 ≡ err (invalid_packet engine_failed))
    × ((j : ℕ) → lookup j (tick 2000 stuck).0.channels ≡ lookup j stuck.channels)
    × ((tick 2000 stuck).0.outbound ≡ [])
unfolding engine_cids
tick_starved_example = tick_starved 2000 0x40 [] broken broken_engine stuck refl refl refl refl

-- An MTU of 100, and a mandatory option that is not known.
abbrev options_bytes : List ℕ
options_bytes = 1 ∷ 2 ∷ 100 ∷ 0 ∷ 9 ∷ 0 ∷ []

abbrev two_options : List ConfigurationOption
two_options =
    record { option_type = 1; hint = false; value = 100 ∷ 0 ∷ [] }
    ∷ record { option_type = 9; hint = false; value = [] }
    ∷ []

options_read : decode_configuration_options options_bytes ≡ ok two_options
unfolding decode_configuration_options
options_read = refl

on_configure_request-Answered_example :
    Answered 5 0x41 left (on_configure_request 5 0x40 0 options_bytes left)
on_configure_request-Answered_example =
    on_configure_request-Answered 5 0x40 0 options_bytes two_options (open_to 0x40 0x41) left
      left-IsValid (omega arith) options_read refl

-- A client and a server in Enhanced Retransmission Mode.
abbrev server : ChannelManager
server =
    perform_all (register_ertm (some 0x11) default_ertm_spec ∷ [])
      (with_information_capabilities default_capabilities)

server_serves : lookup 0x11 server.servers ≡ some (ertm default_ertm_spec)
unfolding perform_all with_information_capabilities default_ertm_spec
server_serves = refl

handshake_example :
    Joined 0x11 0x40 0x40
      (ertm default_ertm_spec)
      (ertm default_ertm_spec)
      server.accepted_channels
      (round (round ((connect_with_spec 0x11 (ertm default_ertm_spec) new).0, server)))
unfolding new allocate_cid validate_psm perform_all with_information_capabilities default_ertm_spec
handshake_example =
    handshake 0x11 0x40 0x40 (ertm default_ertm_spec) (ertm default_ertm_spec) new server
      (omega arith) refl (omega arith) (omega arith) (omega arith) (omega arith) refl refl refl
      server_serves refl refl
