-- ===== src/L2cap/Classic/Delivery.antt =====
-- An SDU on a basic channel, from one manager of src/l2cap/classic.rs over the wire to another.
use swbt_bumble_backend.Base.{
  if◌then◌else◌, ltb, ℕ, ◌≤◌, ◌≡◌, refl, sym, ap, ◌∙◌, arith, Bool, false, not, Option, none, some,
  List, [], ◌∷◌, ◌++◌, length, lookup, ok, err, ◌==◌, if_not,
}
use mathlib.Core.Path.{subst}
use mathlib.Core.List.{append-nil}
use swbt_bumble_backend.Base.OrderedMap.{OnSome}
use swbt_bumble_backend.L2cap.{invalid_packet, sdu_exceeds_peer_mtu, incoming_sdu_exceeds_mtu}
use swbt_bumble_backend.L2cap.Pdu
use swbt_bumble_backend.L2cap.Pdu.{L2capPdu, pdu_from_bytes-to_bytes}
use swbt_bumble_backend.L2cap.Ertm.State.{ErtmEngine}
use swbt_bumble_backend.L2cap.Classic.{
  ClassicChannelMode, basic_mode, enhanced_retransmission, ClassicChannelState, opened, is_opened,
  ClassicChannel, ChannelManager, put_channel, push_outbound,
}
use swbt_bumble_backend.L2cap.Classic.Transfer.{
  send, send_found, send_open, process_data, receive_found, receive_open,
}
use swbt_bumble_backend.L2cap.Classic.Manager.{process_bytes, process_read, process_pdu}
use swbt_bumble_backend.L2cap.Classic.Invariant.{EngineIsValid, ChannelIsValid, ManagerIsValid}
use swbt_bumble_backend.L2cap.Classic.Invariant.Pieces.{found-IsValid}

no_engine :
    (mode : ClassicChannelMode) (received : Bool) (o : Option ErtmEngine)
    → mode ≡ basic_mode
    → EngineIsValid mode received o
    → o ≡ none
no_engine basic_mode received none e h = refl
no_engine basic_mode received (some d) e h = absurd h
no_engine enhanced_retransmission received o e h = absurd (cc)

-- A basic channel of a valid manager that is open.
pub record OpenBasic (cid : ℕ) (c : ClassicChannel) (m : ChannelManager) : Type 0 where
  pub manager_valid : ManagerIsValid m
  pub found : lookup cid m.channels ≡ some c
  pub mode_basic : c.mode ≡ basic_mode
  pub is_open : c.state ≡ opened

valid_lem :
    (cid : ℕ) (c : ClassicChannel) (m : ChannelManager) → OpenBasic cid c m → ChannelIsValid cid c
valid_lem cid c m h =
    subst (OnSome (ChannelIsValid cid)) h.found (found-IsValid cid m h.manager_valid)

engine_lem :
    (cid : ℕ) (c : ClassicChannel) (m : ChannelManager) → OpenBasic cid c m → c.engine ≡ none
engine_lem cid c m h =
    no_engine c.mode c.peer_configuration_received c.engine h.mode_basic
      (valid_lem cid c m h).engine_valid

opened_test : (s : ClassicChannelState) → s ≡ opened → not (is_opened s) ≡ false
opened_test s e = ap (λ t. not (is_opened t)) e

send_lem :
    (cid : ℕ) (sdu : List ℕ) (c : ClassicChannel) (m : ChannelManager)
    → OpenBasic cid c m
    → send cid sdu m ≡ send_open cid c none sdu m
unfolding send send_found
send_lem cid sdu c m h =
    ap (λ o. send_found cid o sdu m) h.found
    ∙ if_not (not (is_opened c.state)) _ _ (opened_test c.state h.is_open)
    ∙ ap (λ o. send_open cid c o sdu m) (engine_lem cid c m h)

receive_lem :
    (cid : ℕ) (sdu : List ℕ) (d : ClassicChannel) (n : ChannelManager)
    → OpenBasic cid d n
    → process_pdu (record { cid = cid; payload = sdu }) n ≡ receive_open cid d none sdu n
unfolding process_pdu process_data receive_found
receive_lem cid sdu d n h =
    let range = (valid_lem cid d n h).range in
    let signaling : (cid == 1) ≡ false = ground arith in
    if_not (cid == 1) _ _ signaling
    ∙ ap (λ o. receive_found cid o sdu n) h.found
    ∙ if_not (not (is_opened d.state)) _ _ (opened_test d.state h.is_open)
    ∙ ap (λ o. receive_open cid d o sdu n) (engine_lem cid d n h)

-- On open basic channels of two managers that satisfy the invariant, where the sender's destination
-- is the receiver's channel, and an SDU of at most 65533 bytes: the sender refuses it and is
-- unchanged if it exceeds the peer's MTU as the sender knows it, and otherwise queues it as one PDU
-- and changes nothing else; from the bytes of that PDU the receiver appends exactly the SDU to what
-- the channel has received and changes nothing else, unless it exceeds the channel's MTU, where the
-- receiver refuses it and is unchanged.
pub process_bytes-send :
    (cid : ℕ) (sdu : List ℕ) (c d : ClassicChannel) (m n : ChannelManager)
    → OpenBasic cid c m
    → OpenBasic c.destination_cid d n
    → length sdu ≤ 65533
    → let pdu : L2capPdu = record { cid = c.destination_cid; payload = sdu } in
      (send cid sdu m ≡ (
        if ltb c.peer_mtu (length sdu)
        then (m, err (invalid_packet (sdu_exceeds_peer_mtu c.peer_mtu)))
        else (push_outbound pdu m, ok tt)))
      × (process_bytes (Pdu.to_bytes pdu false) n ≡ (
          if ltb d.mtu (length sdu)
          then (n, err (invalid_packet (incoming_sdu_exceeds_mtu d.mtu)))
          else (
            put_channel c.destination_cid (record d { received = d.received ++ sdu ∷ [] }) n,
            ok tt,
          )))
unfolding send_open receive_open process_bytes process_read
process_bytes-send cid sdu c d m n h k size =
    let to = c.destination_cid in
    let pdu : L2capPdu = record { cid = to; payload = sdu } in
    let range = (valid_lem to d n k).range in
    let wire : Pdu.from_bytes (Pdu.to_bytes pdu false) ≡ ok pdu =
      ap Pdu.from_bytes (sym (append-nil (Pdu.to_bytes pdu false)))
      ∙ (pdu_from_bytes-to_bytes pdu [] (omega arith) size).0 in
    (send_lem cid sdu c m h, ap (λ r. process_read r n) wire ∙ receive_lem to sdu d n k)
