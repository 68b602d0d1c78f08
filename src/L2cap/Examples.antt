-- ===== src/L2cap/Examples.antt =====
-- Runs of the L2CAP codec of src/l2cap/mod.rs, and the theorems at concrete inputs.
use swbt_bumble_backend.Base.{
  ℕ, ◌≡◌, refl, arith, true, false, inl, inr, List, [], ◌∷◌, ◌++◌, ok, err,
}
use swbt_bumble_backend.L2cap.{invalid_packet, truncated_option_value, payload_too_short}
use swbt_bumble_backend.L2cap.Psm.{parse_psm, serialize_psm, parse_psm-serialize_psm}
use swbt_bumble_backend.L2cap.Crc.{crc_16}
use swbt_bumble_backend.L2cap.Pdu.{
  L2capPdu, to_bytes, frame_body, pdu_from_bytes-to_bytes, crc_16-to_bytes,
}
use swbt_bumble_backend.Base.{◌==◌}
use swbt_bumble_backend.Base.Digits.{digit}
use swbt_bumble_backend.L2cap.Signaling.{information_response}
use swbt_bumble_backend.L2cap.Information.{
  InformationCapabilities, response, register_fixed_channel, deregister_fixed_channel,
  fixed_channel_lem, Set, Cleared,
}
use swbt_bumble_backend.L2cap.Configuration.{
  ConfigurationOption, encode_configuration_options, decode_configuration_options,
}
use swbt_bumble_backend.L2cap.Configuration.RoundTrip.{
  decode_configuration_options_lem, encode_configuration_options_lem,
}
use swbt_bumble_backend.L2cap.Signaling.{ControlFrame, connection_request, configure_request}
use swbt_bumble_backend.L2cap.Signaling.RoundTrip.{signaling_from_bytes-to_bytes}
use swbt_bumble_backend.L2cap.Signaling
use swbt_bumble_backend.L2cap.Signaling.Parser
use swbt_bumble_backend.L2cap.Pdu
use swbt_bumble_backend.Base.{u16_to_le}

-- The check value of CRC-16/ARC.
crc_value : crc_16 (0x31 ∷ 0x32 ∷ 0x33 ∷ 0x34 ∷ 0x35 ∷ 0x36 ∷ 0x37 ∷ 0x38 ∷ 0x39 ∷ []) ≡ 0xBB3D
unfolding crc_16
crc_value = refl

-- A fifth byte is shifted by 32, which is no shift: it lands on the lowest one.
five_byte_psm : parse_psm (0 ∷ 1 ∷ 1 ∷ 1 ∷ 2 ∷ []) ≡ ok ([], 0x01010102)
unfolding parse_psm
five_byte_psm = refl

short_response :
    Parser.from_bytes (0x03 ∷ 1 ∷ 2 ∷ 0 ∷ 9 ∷ 9 ∷ []) ≡ err (invalid_packet (payload_too_short 8 2))
unfolding Parser.from_bytes
short_response = refl

cut_option :
    decode_configuration_options (1 ∷ 2 ∷ 0x30 ∷ []) ≡ err (invalid_packet truncated_option_value)
unfolding decode_configuration_options
cut_option = refl

parse_psm-serialize_psm_example :
    parse_psm (serialize_psm 0x020101 ++ 7 ∷ []) ≡ ok (7 ∷ [], 0x020101)
parse_psm-serialize_psm_example =
    parse_psm-serialize_psm 0x020101 (7 ∷ [])
      (omega arith, inr (inl (omega arith, omega arith, refl, refl)))

abbrev frame : L2capPdu
frame = record { cid = 0x40; payload = 1 ∷ 2 ∷ 3 ∷ [] }

pdu_from_bytes-to_bytes_example :
    (Pdu.from_bytes (to_bytes frame false ++ 9 ∷ []) ≡ ok frame)
    × (Pdu.from_bytes (to_bytes frame true ++ 9 ∷ [])
        ≡ ok (record frame {
          payload = (1 ∷ 2 ∷ 3 ∷ []) ++ u16_to_le (crc_16 (frame_body true frame));
        }))
pdu_from_bytes-to_bytes_example = pdu_from_bytes-to_bytes frame (9 ∷ []) (omega arith) (omega arith)

crc_16-to_bytes_example : crc_16 (to_bytes frame true) ≡ 0
crc_16-to_bytes_example = crc_16-to_bytes frame (omega arith, (omega arith, (omega arith, tt)))

abbrev mtu_option : ConfigurationOption
mtu_option = record { option_type = 1; hint = false; value = 0 ∷ 4 ∷ [] }

decode_configuration_options_lem_example :
    (bytes : List ℕ) × (encode_configuration_options (mtu_option ∷ []) ≡ ok bytes)
    × (decode_configuration_options bytes ≡ ok (mtu_option ∷ []))
decode_configuration_options_lem_example =
    decode_configuration_options_lem (mtu_option ∷ []) ((omega arith, omega arith), tt)

mtu_read : decode_configuration_options (1 ∷ 2 ∷ 0 ∷ 4 ∷ []) ≡ ok (mtu_option ∷ [])
unfolding decode_configuration_options
mtu_read = refl

encode_configuration_options_lem_example :
    encode_configuration_options (mtu_option ∷ []) ≡ ok (1 ∷ 2 ∷ 0 ∷ 4 ∷ [])
encode_configuration_options_lem_example =
    encode_configuration_options_lem (1 ∷ 2 ∷ 0 ∷ 4 ∷ []) (mtu_option ∷ [])
      (omega arith, (omega arith, (omega arith, (omega arith, tt)))) mtu_read

abbrev request : ControlFrame
request = configure_request 5 0x40 0 (1 ∷ 2 ∷ 0 ∷ 4 ∷ [])

signaling_from_bytes-to_bytes_example :
    Parser.from_bytes (Signaling.to_bytes request ++ 8 ∷ []) ≡ ok request
signaling_from_bytes-to_bytes_example =
    signaling_from_bytes-to_bytes request (8 ∷ []) (omega arith, omega arith)
      (unfold Signaling.payload in omega arith)

abbrev capabilities : InformationCapabilities
capabilities = record { connectionless_mtu = 1024; extended_features = 8; fixed_channels = 2 }

fixed_channels_bytes :
    response 5 3 capabilities ≡ information_response 5 3 0 (2 ∷ 0 ∷ 0 ∷ 0 ∷ 0 ∷ 0 ∷ 0 ∷ 0 ∷ [])
unfolding response
fixed_channels_bytes = refl

fixed_channel_lem_example :
    ((register_fixed_channel 1 capabilities).1 ≡ ok tt)
    × Set 1 capabilities (register_fixed_channel 1 capabilities).0
    × ((deregister_fixed_channel 1 capabilities).1 ≡ (digit 1 2 == 1))
    × Cleared 1 capabilities (deregister_fixed_channel 1 capabilities).0
fixed_channel_lem_example = fixed_channel_lem 1 capabilities (omega arith)
