-- ===== src/L2cap/Classic/Manager.antt =====
-- The public operations of `ChannelManager` in src/l2cap/classic.rs, and its runs.
use swbt_bumble_backend.Base.{
  ℕ, ◌&&◌, not, Bool, true, false, Option, none, some, List, [], ◌∷◌, lookup, remove, Result, ok,
  err, ok_or, ◌>>◌, if◌then◌else◌, ◌==◌,
}
use swbt_bumble_backend.Base.OrderedMap
use swbt_bumble_backend.Base.OrderedMap.{contains_key}
use swbt_bumble_backend.L2cap.{Error, invalid_packet, psm_in_use, no_free_psm}
use swbt_bumble_backend.L2cap.Pdu.{L2capPdu}
use swbt_bumble_backend.L2cap.Pdu
use swbt_bumble_backend.L2cap.Signaling.{ControlFrame, connection_request, information_request}
use swbt_bumble_backend.L2cap.Signaling.Parser
use swbt_bumble_backend.L2cap.Ertm.Engine.{pending_frames}
use swbt_bumble_backend.L2cap.Classic.{
  ClassicChannelSpec, ErtmChannelSpec, ChannelSpec, basic, ertm, ClassicChannel, ChannelManager,
  InformationResponse, Action, put_channel, queue_control, next_identifier, find_from, allocate_cid,
  outgoing_channel,
}
use swbt_bumble_backend.L2cap.Classic.Validation.{validate_psm, validate_spec, validate_ertm_spec}
use swbt_bumble_backend.L2cap.Classic.Transfer.{set_receiver_busy, tick, process_data, send}
use swbt_bumble_backend.L2cap.Classic.Signals.{process_control, disconnect}

unfoldable pub request_information : ℕ → ChannelManager → ChannelManager × ℕ
unfolding next_identifier queue_control
request_information info_type m =
    let m' = next_identifier m in
    (queue_control (information_request m'.identifier info_type) m', m'.identifier)

abbrev pub succeeds {ℓ} : {A : Type ℓ} → Result Error A → Bool
succeeds (ok _) = true
succeeds (err _) = false

abbrev pub is_candidate : ChannelManager → ℕ → Bool
is_candidate m psm = succeeds (validate_psm psm) && not (contains_key psm m.servers)

-- The PSM that was asked for, or the first free one of the 30720 odd numbers from 0x1001 on.
unfoldable pub chosen_psm : Option ℕ → ChannelManager → Result Error ℕ
unfolding validate_psm find_from
chosen_psm (some psm) m = do validate_psm psm; ok psm
chosen_psm none m = ok_or (find_from 2 30720 (is_candidate m) 0x1001) (invalid_packet no_free_psm)

unfoldable pub register_chosen : ChannelSpec → Result Error ℕ → Action ℕ
unfolding OrderedMap.insert
register_chosen spec (err x) m = (m, err x)
register_chosen spec (ok psm) m =
    if contains_key psm m.servers
    then (m, err (invalid_packet (psm_in_use psm)))
    else (record m { servers = OrderedMap.insert psm spec m.servers }, ok psm)

unfoldable pub register_server_with_spec : Option ℕ → ChannelSpec → Action ℕ
unfolding chosen_psm register_chosen
register_server_with_spec psm spec m = register_chosen spec (chosen_psm psm m) m

-- `validate(..)?` in front of an action.
abbrev pub behind {ℓ} : {A : Type 0} {B : Type ℓ} → Result Error B → Action A → Action A
behind (ok _) next m = next m
behind (err x) next m = (m, err x)

unfoldable pub register_server : Option ℕ → ClassicChannelSpec → Action ℕ
unfolding register_server_with_spec validate_spec
register_server psm spec = behind (validate_spec spec) (register_server_with_spec psm (basic spec))

unfoldable pub register_ertm_server : Option ℕ → ErtmChannelSpec → Action ℕ
unfolding register_server_with_spec validate_ertm_spec
register_ertm_server psm spec =
    behind (validate_ertm_spec spec) (register_server_with_spec psm (ertm spec))

unfoldable pub unregister_server : ℕ → ChannelManager → ChannelManager × Bool
unregister_server psm m = (record m { servers = remove psm m.servers }, contains_key psm m.servers)

unfoldable pub connect_from : ℕ → ChannelSpec → Result Error ℕ → Action ℕ
unfolding next_identifier put_channel outgoing_channel queue_control
connect_from psm spec (err x) m = (m, err x)
connect_from psm spec (ok cid) m =
    let m' = put_channel cid (outgoing_channel psm cid spec) (next_identifier m) in
    (queue_control (connection_request m'.identifier psm cid) m', ok cid)

unfoldable pub connect_with_spec : ℕ → ChannelSpec → Action ℕ
unfolding connect_from allocate_cid
connect_with_spec psm spec m = connect_from psm spec (allocate_cid m) m

unfoldable pub connect : ℕ → ClassicChannelSpec → Action ℕ
unfolding connect_with_spec validate_psm validate_spec
connect psm spec =
    behind (validate_psm psm) (behind (validate_spec spec) (connect_with_spec psm (basic spec)))

unfoldable pub connect_ertm : ℕ → ErtmChannelSpec → Action ℕ
unfolding connect_with_spec validate_psm validate_ertm_spec
connect_ertm psm spec =
    behind (validate_psm psm) (behind (validate_ertm_spec spec) (connect_with_spec psm (ertm spec)))

-- `pop_front` on the three queues.
abbrev pub first {ℓ} : {A : Type ℓ} → List A → Option A
first [] = none
first (x ∷ _) = some x

abbrev pub behind_first {ℓ} : {A : Type ℓ} → List A → List A
behind_first [] = []
behind_first (_ ∷ xs) = xs

unfoldable pub poll_outbound : ChannelManager → ChannelManager × Option L2capPdu
poll_outbound m = (record m { outbound = behind_first m.outbound }, first m.outbound)

unfoldable pub drain_outbound : ChannelManager → ChannelManager × List L2capPdu
drain_outbound m = (record m { outbound = [] }, m.outbound)

unfoldable pub poll_accepted_channel : ChannelManager → ChannelManager × Option ℕ
poll_accepted_channel m =
    (record m { accepted_channels = behind_first m.accepted_channels }, first m.accepted_channels)

unfoldable pub poll_information_response :
    ChannelManager → ChannelManager × Option InformationResponse
poll_information_response m = (
  record m { information_responses = behind_first m.information_responses },
  first m.information_responses,
)

unfoldable pub drain_information_responses :
    ChannelManager → ChannelManager × List InformationResponse
drain_information_responses m = (record m { information_responses = [] }, m.information_responses)

-- `channel`, and `pop_received` on `channel_mut`.
unfoldable pub channel : ℕ → ChannelManager → Option ClassicChannel
channel cid m = lookup cid m.channels

unfoldable pub pop_found :
    ℕ → Option ClassicChannel → ChannelManager → ChannelManager × Option (List ℕ)
unfolding put_channel
pop_found cid none m = (m, none)
pop_found cid (some c) m =
    (put_channel cid (record c { received = behind_first c.received }) m, first c.received)

unfoldable pub pop_received : ℕ → ChannelManager → ChannelManager × Option (List ℕ)
unfolding pop_found
pop_received cid m = pop_found cid (lookup cid m.channels) m

unfoldable pub ertm_pending_frames : ℕ → ChannelManager → Option ℕ
unfolding pending_frames
ertm_pending_frames cid m = elim (lookup cid m.channels) [
  | none ↦ none
  | some c ↦ elim c.engine [ none ↦ none | some e ↦ some (pending_frames e) ]
]

unfoldable pub process_parsed : Result Error ControlFrame → Action (Unit {0})
unfolding process_control
process_parsed (ok frame) m = process_control frame m
process_parsed (err x) m = (m, err x)

unfoldable pub process_pdu : L2capPdu → Action (Unit {0})
unfolding process_parsed process_data Parser.from_bytes
process_pdu pdu m =
    if pdu.cid == 1 then process_parsed (Parser.from_bytes pdu.payload) m else process_data pdu m

unfoldable pub process_read : Result Error L2capPdu → Action (Unit {0})
unfolding process_pdu
process_read (ok pdu) m = process_pdu pdu m
process_read (err x) m = (m, err x)

unfoldable pub process_bytes : List ℕ → Action (Unit {0})
unfolding process_read Pdu.from_bytes
process_bytes bytes = process_read (Pdu.from_bytes bytes)

-- A call of the manager's owner that can change its state.
pub data Call : Type 0 where
  register_basic : Option ℕ → ClassicChannelSpec → Call
  register_ertm : Option ℕ → ErtmChannelSpec → Call
  unregister : ℕ → Call
  connect_basic : ℕ → ClassicChannelSpec → Call
  connect_enhanced : ℕ → ErtmChannelSpec → Call
  ask_information : ℕ → Call
  send_sdu : ℕ → List ℕ → Call
  close : ℕ → Call
  elapse : ℕ → Call
  receiver_busy : ℕ → Bool → Call
  receive : L2capPdu → Call
  receive_bytes : List ℕ → Call
  pop_sdu : ℕ → Call
  poll_pdu poll_accepted poll_information drain_pdus drain_information : Call

-- The state after the call, whether or not it returned an error.
unfoldable pub perform : Call → ChannelManager → ChannelManager
unfolding register_server register_ertm_server unregister_server connect connect_ertm
    request_information send disconnect tick set_receiver_busy process_pdu process_bytes
    pop_received poll_outbound poll_accepted_channel poll_information_response drain_outbound
    drain_information_responses
perform (register_basic psm spec) m = (register_server psm spec m).0
perform (register_ertm psm spec) m = (register_ertm_server psm spec m).0
perform (unregister psm) m = (unregister_server psm m).0
perform (connect_basic psm spec) m = (connect psm spec m).0
perform (connect_enhanced psm spec) m = (connect_ertm psm spec m).0
perform (ask_information info_type) m = (request_information info_type m).0
perform (send_sdu cid sdu) m = (send cid sdu m).0
perform (close cid) m = (disconnect cid m).0
perform (elapse ticks) m = (tick ticks m).0
perform (receiver_busy cid busy) m = (set_receiver_busy cid busy m).0
perform (receive pdu) m = (process_pdu pdu m).0
perform (receive_bytes bytes) m = (process_bytes bytes m).0
perform (pop_sdu cid) m = (pop_received cid m).0
perform poll_pdu m = (poll_outbound m).0
perform poll_accepted m = (poll_accepted_channel m).0
perform poll_information m = (poll_information_response m).0
perform drain_pdus m = (drain_outbound m).0
perform drain_information m = (drain_information_responses m).0

unfoldable pub perform_all : List Call → ChannelManager → ChannelManager
unfolding perform
perform_all [] m = m
perform_all (call ∷ rest) m = perform_all rest (perform call m)
