-- ===== src/L2cap/Classic/Agreement/Rounds.antt =====
-- Each side of a connection between two channel managers of src/l2cap/classic.rs, handed the queue
-- of the other.
use swbt_bumble_backend.Base.{
  ℕ, ◌≤◌, ◌<◌, ◌≡◌, inl, refl, sym, arith, Bool, false, none, some, List, [], ◌∷◌, ◌++◌, length,
  lookup, ok, if◌then◌else◌,
}
use mathlib.Core.Path.{subst}
use swbt_bumble_backend.L2cap.Configuration.{
  encode_configuration_options, decode_configuration_options,
}
use swbt_bumble_backend.L2cap.Signaling.{
  payload, connection_request, connection_response, configure_request, configure_response,
}
use swbt_bumble_backend.L2cap.Signaling.RoundTrip.{IsFrame}
use swbt_bumble_backend.L2cap.Classic.{
  ChannelSpec, ClassicChannel, ChannelManager, outgoing_channel, incoming_channel,
  following_identifier, allocate_cid,
}
use swbt_bumble_backend.L2cap.Classic.Validation.{validate_psm}
use swbt_bumble_backend.L2cap.Classic.Options.{request_options}
use swbt_bumble_backend.L2cap.Classic.Configure.{must_announce}
use swbt_bumble_backend.L2cap.Classic.Signals.{process_control}
use swbt_bumble_backend.L2cap.Classic.Wire.{second_byte_even}
use swbt_bumble_backend.L2cap.Classic.Invariant.{SpecIsValid}
use swbt_bumble_backend.L2cap.Classic.Agreement.{HasWidths, Compatible, agreed}
use swbt_bumble_backend.L2cap.Classic.Agreement.Snapshots.{control_pdu, Snapshot}
use swbt_bumble_backend.L2cap.Classic.Agreement.Steps.{
  deliver, deliver_one, deliver_two, server_connected, client_connected,
}
use swbt_bumble_backend.L2cap.Classic.Agreement.Configuring.{
  agreed_facts, request_answered, response_opens,
}
use swbt_bumble_backend.L2cap.Classic.Agreement.Exchange.{
  short_request, Compatible-sym, request_fits, joined, client_channel,
}

request_short :
    (next to : ℕ) (bytes : List ℕ)
    → length bytes ≤ 18
    → length (payload (configure_request next to 0 bytes)) ≤ 65535
unfolding payload
request_short next to bytes h = omega arith

response_short :
    (next to : ℕ) (bytes : List ℕ)
    → length bytes ≤ 18
    → length (payload (configure_response next to 0 0 bytes)) ≤ 65535
unfolding payload
response_short next to bytes h = omega arith

connected_short :
    (next to from : ℕ) → length (payload (connection_response next to from 0 0)) ≤ 65535
unfolding payload
connected_short next to from = omega arith

announces :
    (s t : ChannelSpec) (c : ClassicChannel)
    → c.open_announced ≡ false
    → must_announce (agreed s t c) ≡ c.incoming
announces s t c h = let facts = agreed_facts s t c in ground (arith, facts.3, facts.4, h)

module _ (psm a b : ℕ) (s t : ChannelSpec) (bs bt : List ℕ) (v : SpecIsValid s) (w : HasWidths s)
    (v' : SpecIsValid t) (w' : HasWidths t) (same : Compatible s t)
    (es : encode_configuration_options (request_options s) ≡ ok bs)
    (ds : decode_configuration_options bs ≡ ok (request_options s))
    (et : encode_configuration_options (request_options t) ≡ ok bt)
    (dt : decode_configuration_options bt ≡ ok (request_options t)) (a_width : a < 65536)
    (b_width : b < 65536) where
  pub server_first :
      (next last : ℕ) (announced : List ℕ) (x n : ChannelManager)
      → psm < 65536
      → validate_psm psm ≡ ok tt
      → x.outbound ≡ control_pdu (connection_request next psm a) ∷ []
      → Snapshot b none [] last announced n
      → lookup psm n.servers ≡ some t
      → allocate_cid n ≡ ok b
      → Snapshot b
          (some (incoming_channel psm b a t))
          (control_pdu (connection_response next b a 0 0)
            ∷ control_pdu (configure_request (following_identifier last) a 0 bt)
            ∷ [])
          (following_identifier last)
          announced
          (deliver x.outbound n)
  server_first next last announced x n small valid queue shot server free =
      let asks = connection_request next psm a in
      let in_range : IsFrame asks =
        ((omega arith, inl (small, second_byte_even psm valid)), a_width) in
      subst (Snapshot b (some (incoming_channel psm b a t)) _ _ announced)
        (sym (deliver_one asks n x.outbound queue in_range (request_fits psm a next small)))
        (server_connected next psm a b t [] last announced n bt shot server free et)

  pub client_first :
      (next other last : ℕ) (announced : List ℕ) (y x : ChannelManager)
      → y.outbound
        ≡ control_pdu (connection_response next b a 0 0)
          ∷ control_pdu (configure_request other a 0 bt)
          ∷ []
      → Snapshot a (some (outgoing_channel psm a s)) [] last announced x
      → Snapshot a
          (some (agreed t s (client_channel psm a b s)))
          (control_pdu (configure_request (following_identifier last) b 0 bs)
            ∷ control_pdu (configure_response other b 0 0 bt)
            ∷ [])
          (following_identifier last)
          announced
          (deliver y.outbound x)
  unfolding outgoing_channel
  client_first next other last announced y x queue shot =
      let responds = connection_response next b a 0 0 in
      let asks = configure_request other a 0 bt in
      let connected = client_connected next psm a b s [] last announced x bs shot es in
      let c = client_channel psm a b s in
      subst (Snapshot a (some (agreed t s c)) _ _ announced)
        (sym (
          deliver_two responds asks x y.outbound queue (b_width, a_width, omega arith, omega arith)
            (connected_short next b a) (a_width, omega arith)
            (request_short other a bt (short_request t bt et))))
        (request_answered other a t s c _ (following_identifier last) announced
          (process_control responds x).0 bt connected refl refl refl v' w' v
          (Compatible-sym s t same) et dt)

  pub server_second :
      (next other last : ℕ) (announced : List ℕ) (x y : ChannelManager)
      → x.outbound
        ≡ control_pdu (configure_request next b 0 bs)
          ∷ control_pdu (configure_response other b 0 0 bt)
          ∷ []
      → Snapshot b (some (incoming_channel psm b a t)) [] last announced y
      → Snapshot b
          (some (joined s t (incoming_channel psm b a t)))
          (control_pdu (configure_response next a 0 0 bs) ∷ [])
          last
          (announced ++ b ∷ [])
          (deliver x.outbound y)
  unfolding incoming_channel
  server_second next other last announced x y queue shot =
      let asks = configure_request next b 0 bs in
      let responds = configure_response other b 0 0 bt in
      let c = incoming_channel psm b a t in
      let sent = control_pdu (configure_response next a 0 0 bs) ∷ [] in
      let facts = agreed_facts s t c in
      let answered =
        request_answered next b s t c [] last announced y bs shot refl refl refl v w v' same es
          ds in
      let opens =
        response_opens other b (agreed s t c) sent last announced (process_control asks y).0 bt
          answered facts.2 facts.0 in
      subst (Snapshot b (some (joined s t c)) sent last (announced ++ b ∷ []))
        (sym (
          deliver_two asks responds y x.outbound queue (b_width, omega arith)
            (request_short next b bs (short_request s bs es)) (b_width, omega arith, omega arith)
            (response_short other b bt (short_request t bt et))))
        (subst
          (λ (yes_announce : Bool).
            Snapshot b (some (joined s t c)) sent last
              (if yes_announce then announced ++ b ∷ [] else announced)
              (process_control responds (process_control asks y).0).0)
          (announces s t c refl) opens)

  pub client_second :
      (next last : ℕ) (announced : List ℕ) (y x : ChannelManager)
      → y.outbound ≡ control_pdu (configure_response next a 0 0 bs) ∷ []
      → Snapshot a (some (agreed t s (client_channel psm a b s))) [] last announced x
      → Snapshot a
          (some (joined t s (client_channel psm a b s)))
          []
          last
          announced
          (deliver y.outbound x)
  unfolding outgoing_channel
  client_second next last announced y x queue shot =
      let responds = configure_response next a 0 0 bs in
      let c = client_channel psm a b s in
      let facts = agreed_facts t s c in
      let opens =
        response_opens next a (agreed t s c) [] last announced x bs shot facts.2 facts.0 in
      subst (Snapshot a (some (joined t s c)) [] last announced)
        (sym (
          deliver_one responds x y.outbound queue (a_width, omega arith, omega arith)
            (response_short next a bs (short_request s bs es))))
        (subst
          (λ (yes_announce : Bool).
            Snapshot a (some (joined t s c)) [] last
              (if yes_announce then announced ++ a ∷ [] else announced)
              (process_control responds x).0)
          (announces t s c refl) opens)
