-- ===== src/L2cap/Classic/Agreement/Handshake.antt =====
-- A connection between two channel managers of src/l2cap/classic.rs, from the request until both
-- channels are open.
use swbt_bumble_backend.Base.{
  ℕ, ◌<◌, ◌≡◌, refl, arith, none, some, List, [], ◌∷◌, ◌++◌, lookup, ok, OnOk-ok,
}
use swbt_bumble_backend.L2cap.Classic.{
  ChannelSpec, ChannelManager, incoming_channel, following_identifier, allocate_cid,
}
use swbt_bumble_backend.L2cap.Classic.Validation.{validate_psm}
use swbt_bumble_backend.L2cap.Classic.Manager.{connect_with_spec, drain_outbound}
use swbt_bumble_backend.L2cap.Classic.Allocation.{allocate_cid_lem, IsFreeCid}
use swbt_bumble_backend.L2cap.Classic.Invariant.{SpecIsValid}
use swbt_bumble_backend.L2cap.Classic.Agreement.{HasWidths, Compatible}
use swbt_bumble_backend.L2cap.Classic.Agreement.Accepts.{request_bytes}
use swbt_bumble_backend.L2cap.Classic.Agreement.Snapshots.{Snapshot}
use swbt_bumble_backend.L2cap.Classic.Agreement.Steps.{deliver, hand_over, round, drained_lem}
use swbt_bumble_backend.L2cap.Classic.Agreement.Exchange.{client_asks, joined, client_channel}
use swbt_bumble_backend.L2cap.Classic.Agreement.Rounds.{
  server_first, client_first, server_second, client_second,
}

-- Both channels stand as agreed, nothing is left to send, and the server's owner is told.
abbrev pub Joined :
    (psm a b : ℕ) → ChannelSpec → ChannelSpec → List ℕ → ChannelManager × ChannelManager → Type 0
Joined psm a b s t announced (x, y) =
    (lookup a x.channels ≡ some (joined t s (client_channel psm a b s)))
    × (lookup b y.channels ≡ some (joined s t (incoming_channel psm b a t)))
    × (x.outbound ≡ [])
    × (y.outbound ≡ [])
    × (y.accepted_channels ≡ announced ++ b ∷ [])

-- A client with a valid 16-bit PSM and a server for it, with valid specifications that agree in the
-- mode and the use of the check sequence, with nothing else to send and a free channel identifier
-- each: after `connect` on the client's side, two rounds in which each side's queue is handed to
-- the other open both channels. Each side knows the other's identifier and MTU, and in Enhanced
-- Retransmission Mode has an engine with the other's parameters; both queues are empty, and the
-- server announces its channel.
pub handshake :
    (psm a b : ℕ) (s t : ChannelSpec) (m n : ChannelManager)
    → psm < 65536
    → validate_psm psm ≡ ok tt
    → SpecIsValid s
    → HasWidths s
    → SpecIsValid t
    → HasWidths t
    → Compatible s t
    → m.outbound ≡ []
    → n.outbound ≡ []
    → lookup psm n.servers ≡ some t
    → allocate_cid m ≡ ok a
    → allocate_cid n ≡ ok b
    → Joined psm a b s t n.accepted_channels (round (round ((connect_with_spec psm s m).0, n)))
unfolding round hand_over
handshake psm a b s t m n small valid v w v' w' same m_empty n_empty server m_free n_free =
    let (bs, es, ds) = request_bytes s in
    let (bt, et, dt) = request_bytes t in
    let (a_low, a_high, a_free) = OnOk-ok (IsFreeCid m) m_free (allocate_cid_lem m) in
    let (b_low, b_high, b_free) = OnOk-ok (IsFreeCid n) n_free (allocate_cid_lem n) in
    let a_width : a < 65536 = omega arith in
    let b_width : b < 65536 = omega arith in
    let asks = following_identifier m.identifier in
    let next = following_identifier asks in
    let other = following_identifier n.identifier in
    let before : Snapshot b none [] n.identifier n.accepted_channels n = record {
      entry_is = b_free;
      queue_is = n_empty;
      last_is = refl;
      announced_is = refl;
    } in
    let x1 = (connect_with_spec psm s m).0 in
    let client1 = client_asks psm a s m m_empty m_free in
    let y1 = deliver x1.outbound n in
    let server1 =
      server_first psm a b s t bs bt v w v' w' same es ds et dt a_width b_width asks n.identifier
        n.accepted_channels x1 n small valid client1.queue_is before server n_free in
    let x2 = (drain_outbound x1).0 in
    let client2 = drained_lem a _ _ asks m.accepted_channels x1 client1 in
    let x3 = deliver y1.outbound x2 in
    let client3 =
      client_first psm a b s t bs bt v w v' w' same es ds et dt a_width b_width asks other asks
        m.accepted_channels y1 x2 server1.queue_is client2 in
    let y2 = (drain_outbound y1).0 in
    let server2 = drained_lem b _ _ other n.accepted_channels y1 server1 in
    let y3 = deliver x3.outbound y2 in
    let server3 =
      server_second psm a b s t bs bt v w v' w' same es ds et dt a_width b_width next other other
        n.accepted_channels x3 y2 client3.queue_is server2 in
    let x4 = (drain_outbound x3).0 in
    let client4 = drained_lem a _ _ next m.accepted_channels x3 client3 in
    let client5 =
      client_second psm a b s t bs bt v w v' w' same es ds et dt a_width b_width next next
        m.accepted_channels y3 x4 server3.queue_is client4 in
    let server4 = drained_lem b _ _ other _ y3 server3 in
    (client5.entry_is, server4.entry_is, client5.queue_is, server4.queue_is, server4.announced_is)
