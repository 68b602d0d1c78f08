-- ===== src/Lib.antt =====
-- A verification library for swbt-bumble-backend: the Bluetooth Classic stack, in Rust, that gives a
-- controller emulator its HID device.
--
-- Parts of the program. The session (src/session.rs) drives a host (src/classic_host.rs), which
-- exchanges HCI packets with a USB adapter (src/hci.rs, src/usb.rs). L2CAP frames are cut into ACL
-- packets and put together again (src/hci.rs), and carry signaling frames and channels
-- (src/l2cap/mod.rs, src/l2cap/classic.rs); a channel can run in Enhanced Retransmission Mode
-- (src/l2cap/ertm.rs). Over the channels run SDP (src/sdp/) and the HID protocol (src/hidp.rs).
--
-- Files and code.
--   Base: lists, results, bytes, bits, association lists and chunks over the native numbers.
--   Hidp: the messages of src/hidp.rs with `to_bytes` and `from_bytes`; Hidp.Device the device's
--   runtime, whose delegate is a record of methods that pass its state; Hidp.Host the host's.
--   Hci: the packets of src/hci.rs; Hci.Acl `fragment_l2cap_pdu` and `AclAssembler`, whose map is an
--   association list.
--   Host.AclFlow: `AclFlow` of src/classic_host.rs, which counts the packets that the controller
--   holds; of the host's output queue only the packets that `flush` pushes.
--   L2cap: src/l2cap/mod.rs, with Psm, Crc, Pdu, Signaling (`ControlFrame`, the arms of whose parser
--   are a table from code to function), Configuration and Information for its parts.
--   L2cap.Ertm: src/l2cap/ertm.rs. Control is the control field, State the engine's state (one field
--   for each of `ErtmEngine`) and its configuration, Output the transmit window, acknowledgment and
--   retransmission, Input the assembly of SDUs, Engine the public operations. An operation is a
--   function from a state to a state and a result: after an error the state is what the source has
--   written until then. Runs has the sequences of calls.
--   L2cap.Classic: src/l2cap/classic.rs, whose maps are association lists in the order of their keys
--   (Base.OrderedMap). Validation checks PSMs and specifications; Options is the loop over a request's
--   options, with the loop's variables as a record, and Settlement what follows it; Fcs the check
--   sequence of ERTM frames; Transfer sending, receiving and time; Configure and Signals the handlers
--   of `process_control`; Manager the public operations, and the calls of the manager's owner.
--   Diagram has the states of a channel as a relation. A lookup that may fail is passed to a function
--   on its result, named `.._found`. Agreement joins two managers whose queues are handed to each other.
--   Sdp: the data elements of src/sdp/mod.rs. Numbers has the integers, Writer `to_bytes`, Parser the
--   recursive parser, Utf8 the standard library's test of a string's bytes, Attributes service
--   attributes. A data element and a list of them are two types of one block. The parser's depth
--   is counted down from `MAX_NESTING`.
--
-- Numbers. Bytes and words are natural numbers; where the source wraps or truncates, the remainder
-- is written out. Two places follow a release build, where an overflow wraps: `transmissions`, which
-- a configuration without a retransmission limit increments for ever, and the shift in `parse_psm`.
--
-- Loops. `slice::chunks` and `decode_configuration_options` run on the length of the data as fuel,
-- `serialize_psm` on the two bytes that a 16-bit number has; the round trips show that this is
-- enough. `validate_psm` runs on the three upper bytes of a `u32`, and the searches of `allocate_cid`
-- and of `register_server` on the number of candidates of their ranges. The loop over a container's
-- elements runs on the number of its bytes: every pass takes one at least. The other loops are
-- structural.
--
-- Errors are the source's, with a constructor for each message text of L2CAP and SDP.
--
-- What is not modelled: `channel_mut`, which lends a channel to the manager's owner, other than for
-- taking received SDUs; the rest of the host of src/classic_host.rs; the PDUs and the service of SDP,
-- and its HID record; the session's threads, identity files, CSR commands and most of
-- src/values.rs; USB transfers and the Python interface, which are I/O and bindings.
pub mod Base
pub mod Hci
pub mod Hidp
pub mod Host
pub mod L2cap
pub mod Sdp
