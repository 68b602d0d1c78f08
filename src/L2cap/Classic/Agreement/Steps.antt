-- ===== src/L2cap/Classic/Agreement/Steps.antt =====
-- Two channel managers of src/l2cap/classic.rs that exchange their PDUs, as an in-memory relay does,
-- and what each message of a connection does to them.
use swbt_bumble_backend.Base.{
  ℕ, ◌≤◌, ◌≡◌, refl, sym, ap, ◌∙◌, Option, none, some, List, [], ◌∷◌, ◌++◌, length, lookup, Result,
  ok,
}
use mathlib.Core.Path.{subst}
use swbt_bumble_backend.L2cap.{Error}
use swbt_bumble_backend.L2cap.Pdu.{L2capPdu}
use swbt_bumble_backend.L2cap.Configuration.{encode_configuration_options}
use swbt_bumble_backend.L2cap.Signaling.{
  ControlFrame, payload, connection_request, connection_response, configure_request,
}
use swbt_bumble_backend.L2cap.Signaling.RoundTrip.{IsFrame}
use swbt_bumble_backend.L2cap.Classic.{
  ChannelSpec, ClassicChannel, ChannelManager, configuring, outgoing_channel, incoming_channel,
  put_channel, queue_control, following_identifier, allocate_cid,
}
use swbt_bumble_backend.L2cap.Classic.Options.{request_options}
use swbt_bumble_backend.L2cap.Classic.Configure.{queue_configure_request}
use swbt_bumble_backend.L2cap.Classic.Signals.{
  process_control, accept_connection, connect_server, on_connection_request, connected_found,
  on_connection_response,
}
use swbt_bumble_backend.L2cap.Classic.Manager.{process_pdu, drain_outbound}
use swbt_bumble_backend.L2cap.Classic.Agreement.Snapshots.{
  control_pdu, Snapshot, after_queue, after_put, after_request, process_control_pdu,
}

unfoldable pub deliver : List L2capPdu → ChannelManager → ChannelManager
deliver [] m = m
deliver (pdu ∷ rest) m = deliver rest (process_pdu pdu m).0

-- One side's queue goes to the other.
unfoldable pub hand_over : ChannelManager → ChannelManager → ChannelManager × ChannelManager
unfolding deliver drain_outbound
hand_over a b = ((drain_outbound a).0, deliver a.outbound b)

-- The first side's, then the second's.
unfoldable pub round : ChannelManager × ChannelManager → ChannelManager × ChannelManager
unfolding hand_over
round (a, b) = let (a', b') = hand_over a b in let (b'', a'') = hand_over b' a' in (a'', b'')

pub deliver_one :
    (f : ControlFrame) (m : ChannelManager) (queue : List L2capPdu)
    → queue ≡ control_pdu f ∷ []
    → IsFrame f
    → length (payload f) ≤ 65535
    → deliver queue m ≡ (process_control f m).0
unfolding deliver
deliver_one f m queue e h short =
    ap (λ q. deliver q m) e
    ∙ ap (λ (p : ChannelManager × Result Error (Unit {0})). p.0) (process_control_pdu f m h short)

pub deliver_two :
    (f g : ControlFrame) (m : ChannelManager) (queue : List L2capPdu)
    → queue ≡ control_pdu f ∷ control_pdu g ∷ []
    → IsFrame f
    → length (payload f) ≤ 65535
    → IsFrame g
    → length (payload g) ≤ 65535
    → deliver queue m ≡ (process_control g (process_control f m).0).0
unfolding deliver
deliver_two f g m queue e h short k brief =
    ap (λ q. deliver q m) e
    ∙ ap (λ (p : ChannelManager × Result Error (Unit {0})). (process_pdu (control_pdu g) p.0).0)
        (process_control_pdu f m h short)
    ∙ ap (λ (p : ChannelManager × Result Error (Unit {0})). p.0)
        (process_control_pdu g (process_control f m).0 k brief)

pub drained_lem :
    (cid : ℕ) (entry : Option ClassicChannel) (queue : List L2capPdu) (last : ℕ)
    (announced : List ℕ) (m : ChannelManager)
    → Snapshot cid entry queue last announced m
    → Snapshot cid entry [] last announced (drain_outbound m).0
unfolding drain_outbound
drained_lem cid entry queue last announced m s = record {
  entry_is = s.entry_is;
  queue_is = refl;
  last_is = s.last_is;
  announced_is = s.announced_is;
}

-- The server takes the request, and sends its own configuration.
pub server_connected :
    (identifier psm a b : ℕ) (t : ChannelSpec) (queue : List L2capPdu) (last : ℕ)
    (announced : List ℕ) (n : ChannelManager) (bytes : List ℕ)
    → Snapshot b none queue last announced n
    → lookup psm n.servers ≡ some t
    → allocate_cid n ≡ ok b
    → encode_configuration_options (request_options t) ≡ ok bytes
    → let next = following_identifier last in
      Snapshot b
        (some (incoming_channel psm b a t))
        ((queue ++ control_pdu (connection_response identifier b a 0 0) ∷ [])
          ++ control_pdu (configure_request next a 0 bytes) ∷ [])
        next
        announced
        (process_control (connection_request identifier psm a) n).0
unfolding process_control on_connection_request connect_server accept_connection incoming_channel
server_connected identifier psm a b t queue last announced n bytes s server free e =
    let c = incoming_channel psm b a t in
    let next = following_identifier last in
    let response = connection_response identifier b a 0 0 in
    let queued = queue_control response (put_channel b c n) in
    let sent = queue ++ control_pdu response ∷ [] in
    let accepted : process_control (connection_request identifier psm a) n
        ≡ queue_configure_request b queued =
      ap (λ o. connect_server identifier psm a o n) server
      ∙ ap (λ r. accept_connection identifier psm a t r n) free in
    subst
      (λ (p : ChannelManager × Result Error (Unit {0})).
        Snapshot b (some c) (sent ++ control_pdu (configure_request next a 0 bytes) ∷ []) next
          announced p.0)
      (sym accepted)
      (after_request b c sent last announced queued bytes
        (after_queue b (some c) queue last announced (put_channel b c n)
          (after_put b none queue last announced n s c) response)
        e)

abbrev pub connected_to : ℕ → ClassicChannel → ClassicChannel
connected_to b c = record c { connection_result = some 0; destination_cid = b; state = configuring }

-- The client learns the server's channel, and sends its own configuration.
pub client_connected :
    (identifier psm a b : ℕ) (s : ChannelSpec) (queue : List L2capPdu) (last : ℕ)
    (announced : List ℕ) (m : ChannelManager) (bytes : List ℕ)
    → Snapshot a (some (outgoing_channel psm a s)) queue last announced m
    → encode_configuration_options (request_options s) ≡ ok bytes
    → let next = following_identifier last in
      Snapshot a
        (some (connected_to b (outgoing_channel psm a s)))
        (queue ++ control_pdu (configure_request next b 0 bytes) ∷ [])
        next
        announced
        (process_control (connection_response identifier b a 0 0) m).0
unfolding process_control on_connection_response connected_found outgoing_channel
client_connected identifier psm a b s queue last announced m bytes shot e =
    let c = outgoing_channel psm a s in
    let c' = connected_to b c in
    let next = following_identifier last in
    let accepted : process_control (connection_response identifier b a 0 0) m
        ≡ queue_configure_request a (put_channel a c' m) =
      ap (λ o. connected_found b a 0 o m) shot.entry_is in
    subst
      (λ (p : ChannelManager × Result Error (Unit {0})).
        Snapshot a (some c') (queue ++ control_pdu (configure_request next b 0 bytes) ∷ []) next
          announced p.0)
      (sym accepted)
      (after_request a c' queue last announced (put_channel a c' m) bytes
        (after_put a (some c) queue last announced m shot c') e)
