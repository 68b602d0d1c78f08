-- ===== src/L2cap/Classic/Invariant/Runs.antt =====
-- The channel manager of src/l2cap/classic.rs over any sequence of calls.
use swbt_bumble_backend.Base.{refl, arith, List, [], ◌∷◌, All, IsByte}
use swbt_bumble_backend.L2cap.Information.{InformationCapabilities}
use swbt_bumble_backend.L2cap.Classic.{ChannelManager, with_information_capabilities}
use swbt_bumble_backend.L2cap.Classic.Manager.{
  poll_outbound, poll_information_response, drain_outbound, drain_information_responses, Call,
  register_basic, register_ertm, unregister, connect_basic, connect_enhanced, ask_information,
  send_sdu, elapse, receiver_busy, receive, receive_bytes, pop_sdu, poll_pdu, poll_accepted,
  poll_information, drain_pdus, drain_information, perform, perform_all,
}
use swbt_bumble_backend.L2cap.Classic.Invariant.{ManagerIsValid, Keeps}
use swbt_bumble_backend.L2cap.Classic.Invariant.Pieces.{Keeps-refl, Keeps-trans, same-Keeps}
use swbt_bumble_backend.L2cap.Classic.Invariant.DataPath.{
  set_receiver_busy-Keeps, tick-Keeps, send-Keeps,
}
use swbt_bumble_backend.L2cap.Classic.Invariant.Disconnection.{disconnect-Keeps}
use swbt_bumble_backend.L2cap.Classic.Invariant.Operations.{process_pdu-Keeps, process_bytes-Keeps}
use swbt_bumble_backend.L2cap.Classic.Invariant.Services.{
  register_server-Keeps, register_ertm_server-Keeps, unregister_server-Keeps, connect-Keeps,
  connect_ertm-Keeps, request_information-Keeps, pop_received-Keeps, poll_accepted_channel-Keeps,
}

-- What arrives consists of bytes.
abbrev pub BringsBytes : Call → Type 0
BringsBytes (receive pdu) = All IsByte pdu.payload
BringsBytes (receive_bytes bytes) = All IsByte bytes
BringsBytes _ = Unit {0}

perform-Keeps :
    (call : Call) (m : ChannelManager)
    → BringsBytes call
    → ManagerIsValid m
    → Keeps m (perform call m)
unfolding perform poll_outbound poll_information_response drain_outbound drain_information_responses
perform-Keeps (register_basic psm spec) m b h = register_server-Keeps psm spec m h
perform-Keeps (register_ertm psm spec) m b h = register_ertm_server-Keeps psm spec m h
perform-Keeps (unregister psm) m b h = unregister_server-Keeps psm m h
perform-Keeps (connect_basic psm spec) m b h = connect-Keeps psm spec m h
perform-Keeps (connect_enhanced psm spec) m b h = connect_ertm-Keeps psm spec m h
perform-Keeps (ask_information info_type) m b h = request_information-Keeps info_type m h
perform-Keeps (send_sdu cid sdu) m b h = send-Keeps cid sdu m h
perform-Keeps (Call.close cid) m b h = disconnect-Keeps cid m h
perform-Keeps (elapse ticks) m b h = tick-Keeps ticks m h
perform-Keeps (receiver_busy cid busy) m b h = set_receiver_busy-Keeps cid busy m h
perform-Keeps (receive pdu) m b h = process_pdu-Keeps pdu m b h
perform-Keeps (receive_bytes bytes) m b h = process_bytes-Keeps bytes m b h
perform-Keeps (pop_sdu cid) m b h = pop_received-Keeps cid m h
perform-Keeps poll_pdu m b h = same-Keeps m _ h refl refl refl h.identifier_width
perform-Keeps poll_accepted m b h = poll_accepted_channel-Keeps m h
perform-Keeps poll_information m b h = same-Keeps m _ h refl refl refl h.identifier_width
perform-Keeps drain_pdus m b h = same-Keeps m _ h refl refl refl h.identifier_width
perform-Keeps drain_information m b h = same-Keeps m _ h refl refl refl h.identifier_width

pub perform_all-Keeps :
    (calls : List Call) (m : ChannelManager)
    → All BringsBytes calls
    → ManagerIsValid m
    → Keeps m (perform_all calls m)
unfolding perform_all
perform_all-Keeps [] m b h = Keeps-refl m h
perform_all-Keeps (call ∷ rest) m b h =
    let first = perform-Keeps call m b.0 h in
    Keeps-trans first (perform_all-Keeps rest (perform call m) b.1 first.valid)

new-IsValid :
    (information : InformationCapabilities)
    → ManagerIsValid (with_information_capabilities information)
unfolding with_information_capabilities
new-IsValid information = record {
  channels_valid = tt;
  servers_valid = tt;
  accepted_valid = tt;
  identifier_width = omega arith;
}

-- Whatever calls follow the manager's creation, whether or not they fail, and whatever bytes they
-- bring: each channel stands under its own identifier in the dynamic range, has the mode and the MTU
-- of a valid specification, and is open only with both sides' configurations accepted; a channel in
-- Enhanced Retransmission Mode whose peer's configuration was accepted has an engine, every engine
-- is ready, and a basic channel has none; what a basic channel has received is within its MTU; the
-- channels announced to the server's owner came in; and identifiers are bytes.
pub perform_all-IsValid :
    (information : InformationCapabilities) (calls : List Call)
    → All BringsBytes calls
    → ManagerIsValid (perform_all calls (with_information_capabilities information))
perform_all-IsValid information calls b =
    (perform_all-Keeps calls (with_information_capabilities information) b
      (new-IsValid information)).valid
