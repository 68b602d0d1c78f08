-- ===== src/L2cap/Classic/Agreement/Configuring.antt =====
-- What the messages of the configuration (src/l2cap/classic.rs) do to a channel.
use swbt_bumble_backend.Base.{
  ℕ, ◌≡◌, refl, sym, ap, arith, true, false, some, List, [], ◌∷◌, ◌++◌, Result, ok, if◌then◌else◌,
}
use mathlib.Core.Path.{subst}
use swbt_bumble_backend.L2cap.{Error}
use swbt_bumble_backend.L2cap.Pdu.{L2capPdu}
use swbt_bumble_backend.L2cap.Configuration.{
  encode_configuration_options, decode_configuration_options,
}
use swbt_bumble_backend.L2cap.Signaling.{configure_request, configure_response}
use swbt_bumble_backend.L2cap.Classic.{
  ChannelSpec, basic, ertm, spec_mode, ClassicChannel, ChannelManager, configuring, put_channel,
  queue_control,
}
use swbt_bumble_backend.L2cap.Classic.Options.{request_options}
use swbt_bumble_backend.L2cap.Classic.Configure.{
  maybe_open, configured_found, on_configure_response, answered_channel, is_settled, must_announce,
}
use swbt_bumble_backend.L2cap.Classic.Signals.{process_control}
use swbt_bumble_backend.L2cap.Classic.Invariant.{SpecIsValid}
use swbt_bumble_backend.L2cap.Classic.Agreement.{HasWidths, Compatible, agreed}
use swbt_bumble_backend.L2cap.Classic.Agreement.Accepts.{on_configure_request-agreed}
use swbt_bumble_backend.L2cap.Classic.Agreement.Snapshots.{
  control_pdu, Snapshot, after_queue, after_put, after_no_open, after_open, now_open,
}

-- Agreement leaves what the request does not speak of.
pub agreed_facts :
    (s t : ChannelSpec) (c : ClassicChannel)
    → ((agreed s t c).state ≡ c.state)
      × ((agreed s t c).configuration_response_received ≡ c.configuration_response_received)
      × ((agreed s t c).peer_configuration_received ≡ true)
      × ((agreed s t c).incoming ≡ c.incoming)
      × ((agreed s t c).open_announced ≡ c.open_announced)
agreed_facts (basic s) (basic t) c = (refl, refl, refl, refl, refl)
agreed_facts (basic s) (ertm t) c = (refl, refl, refl, refl, refl)
agreed_facts (ertm s) (basic t) c = (refl, refl, refl, refl, refl)
agreed_facts (ertm s) (ertm t) c = (refl, refl, refl, refl, refl)

-- A side answers the other's request; its channel does not open yet.
pub request_answered :
    (identifier cid : ℕ) (s t : ChannelSpec) (c : ClassicChannel) (queue : List L2capPdu) (last : ℕ)
    (announced : List ℕ) (m : ChannelManager) (bytes : List ℕ)
    → Snapshot cid (some c) queue last announced m
    → c.spec ≡ t
    → c.mode ≡ spec_mode t
    → c.configuration_response_received ≡ false
    → SpecIsValid s
    → HasWidths s
    → SpecIsValid t
    → Compatible s t
    → encode_configuration_options (request_options s) ≡ ok bytes
    → decode_configuration_options bytes ≡ ok (request_options s)
    → Snapshot cid
        (some (agreed s t c))
        (queue ++ control_pdu (configure_response identifier c.destination_cid 0 0 bytes) ∷ [])
        last
        announced
        (process_control (configure_request identifier cid 0 bytes) m).0
unfolding process_control
request_answered identifier cid s t c queue last announced m bytes shot spec mode open_later v w u
      same e d =
    let c' = agreed s t c in
    let response = configure_response identifier c.destination_cid 0 0 bytes in
    let sent = queue ++ control_pdu response ∷ [] in
    let queued = queue_control response (put_channel cid c' m) in
    let facts = agreed_facts s t c in
    let closed_yet : is_settled c' ≡ false =
      ground (arith, facts.0, facts.1, facts.2, open_later) in
    subst
      (λ (p : ChannelManager × Result Error (Unit {0})).
        Snapshot cid (some c') sent last announced p.0)
      (sym (
        on_configure_request-agreed identifier cid s t c bytes m shot.entry_is spec mode v w u same
          e d))
      (after_no_open cid c' sent last announced queued
        (after_queue cid (some c') queue last announced (put_channel cid c' m)
          (after_put cid (some c) queue last announced m shot c') response)
        closed_yet)

abbrev pub responded : ClassicChannel → ClassicChannel
responded c = record c { configuration_response_received = true }

-- The other side's answer opens the channel.
pub response_opens :
    (identifier cid : ℕ) (c : ClassicChannel) (queue : List L2capPdu) (last : ℕ)
    (announced : List ℕ) (m : ChannelManager) (bytes : List ℕ)
    → Snapshot cid (some c) queue last announced m
    → c.peer_configuration_received ≡ true
    → c.state ≡ configuring
    → Snapshot cid
        (some (now_open (responded c)))
        queue
        last
        (if must_announce c then announced ++ cid ∷ [] else announced)
        (process_control (configure_response identifier cid 0 0 bytes) m).0
unfolding process_control on_configure_response configured_found answered_channel
response_opens identifier cid c queue last announced m bytes shot peer state =
    let c' = responded c in
    let settled : is_settled c' ≡ true = ground (arith, peer, state) in
    let done : process_control (configure_response identifier cid 0 0 bytes) m
        ≡ (maybe_open cid (put_channel cid c' m), ok tt) =
      ap (λ o. configured_found cid 0 o m) shot.entry_is in
    subst
      (λ (p : ChannelManager × Result Error (Unit {0})).
        Snapshot cid (some (now_open c')) queue last
          (if must_announce c then announced ++ cid ∷ [] else announced) p.0)
      (sym done)
      (after_open cid c' queue last announced (put_channel cid c' m)
        (after_put cid (some c) queue last announced m shot c') settled)
