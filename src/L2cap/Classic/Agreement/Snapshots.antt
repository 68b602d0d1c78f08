-- ===== src/L2cap/Classic/Agreement/Snapshots.antt =====
-- What one channel of a manager of src/l2cap/classic.rs looks like, and what waits to be sent, over
-- the steps of a connection.
use swbt_bumble_backend.Base.{
  ℕ, ◌≤◌, ◌≡◌, refl, sym, ap, ◌∙◌, Bool, true, false, ◌||◌, Option, some, List, [], ◌∷◌, ◌++◌,
  length, lookup, Result, ok, if◌then◌else◌, if_not,
}
use mathlib.Core.Path.{subst}
use mathlib.Core.List.{append-nil}
use swbt_bumble_backend.L2cap.{Error}
use swbt_bumble_backend.L2cap.Pdu.{L2capPdu}
use swbt_bumble_backend.L2cap.Signaling.{ControlFrame, to_bytes, payload, configure_request}
use swbt_bumble_backend.L2cap.Signaling.Parser.{from_bytes}
use swbt_bumble_backend.L2cap.Signaling.RoundTrip.{IsFrame, signaling_from_bytes-to_bytes}
use swbt_bumble_backend.L2cap.Configuration.{encode_configuration_options}
use swbt_bumble_backend.L2cap.Classic.{
  ClassicChannel, ChannelManager, opened, put_channel, push_outbound, queue_control,
  next_identifier, following_identifier,
}
use swbt_bumble_backend.L2cap.Classic.Options.{request_options}
use swbt_bumble_backend.L2cap.Classic.Configure.{
  queue_encoded, queue_configure_found, queue_configure_request, is_settled, must_announce,
  open_channel, maybe_open_found, maybe_open,
}
use swbt_bumble_backend.L2cap.Classic.Signals.{process_control}
use swbt_bumble_backend.L2cap.Classic.Manager.{process_pdu, process_parsed}
use swbt_bumble_backend.L2cap.Classic.Invariant.Pieces.{lookup-put_channel}

abbrev pub control_pdu : ControlFrame → L2capPdu
control_pdu frame = record { cid = 1; payload = to_bytes frame }

-- The entry of the channel, the queue, the last identifier and the announced channels.
pub record Snapshot (cid : ℕ) (entry : Option ClassicChannel) (queue : List L2capPdu) (last : ℕ)
    (announced : List ℕ) (m : ChannelManager) : Type 0 where
  pub entry_is : lookup cid m.channels ≡ entry
  pub queue_is : m.outbound ≡ queue
  pub last_is : m.identifier ≡ last
  pub announced_is : m.accepted_channels ≡ announced

module _ (cid : ℕ) (entry : Option ClassicChannel) (queue : List L2capPdu) (last : ℕ)
    (announced : List ℕ) (m : ChannelManager) (s : Snapshot cid entry queue last announced m) where
  pub after_queue :
      (frame : ControlFrame)
      → Snapshot cid entry (queue ++ control_pdu frame ∷ []) last announced (queue_control frame m)
  unfolding queue_control push_outbound
  after_queue frame = record {
    entry_is = s.entry_is;
    queue_is = ap (λ q. q ++ control_pdu frame ∷ []) s.queue_is;
    last_is = s.last_is;
    announced_is = s.announced_is;
  }

  pub after_number :
      Snapshot cid entry queue (following_identifier last) announced (next_identifier m)
  unfolding next_identifier
  after_number = record {
    entry_is = s.entry_is;
    queue_is = s.queue_is;
    last_is = ap following_identifier s.last_is;
    announced_is = s.announced_is;
  }

  pub after_put :
      (c : ClassicChannel) → Snapshot cid (some c) queue last announced (put_channel cid c m)
  unfolding put_channel
  after_put c = record {
    entry_is = lookup-put_channel cid c m;
    queue_is = s.queue_is;
    last_is = s.last_is;
    announced_is = s.announced_is;
  }

queued_lem :
    (cid remote : ℕ) (entry : Option ClassicChannel) (queue : List L2capPdu) (last : ℕ)
    (announced : List ℕ) (m : ChannelManager) (bytes : List ℕ)
    → Snapshot cid entry queue last announced m
    → Snapshot cid entry
        (queue ++ control_pdu (configure_request last remote 0 bytes) ∷ [])
        last
        announced
        (queue_encoded remote (ok bytes) m).0
unfolding queue_encoded
queued_lem cid remote entry queue last announced m bytes s =
    subst
      (λ i.
        Snapshot cid entry (queue ++ control_pdu (configure_request i remote 0 bytes) ∷ []) last
          announced (queue_encoded remote (ok bytes) m).0)
      s.last_is
      (after_queue cid entry queue last announced m s
        (configure_request m.identifier remote 0 bytes))

-- The request that the channel sends.
pub after_request :
    (cid : ℕ) (c : ClassicChannel) (queue : List L2capPdu) (last : ℕ) (announced : List ℕ)
    (m : ChannelManager) (bytes : List ℕ)
    → Snapshot cid (some c) queue last announced m
    → encode_configuration_options (request_options c.spec) ≡ ok bytes
    → let next = following_identifier last in
      Snapshot cid
        (some c)
        (queue ++ control_pdu (configure_request next c.destination_cid 0 bytes) ∷ [])
        next
        announced
        (queue_configure_request cid m).0
unfolding queue_configure_request queue_configure_found
after_request cid c queue last announced m bytes s e =
    let next = following_identifier last in
    let sent = queue ++ control_pdu (configure_request next c.destination_cid 0 bytes) ∷ [] in
    let numbered = after_number cid (some c) queue last announced m s in
    let done : queue_configure_request cid m
        ≡ queue_encoded c.destination_cid (ok bytes) (next_identifier m) =
      ap (λ o. queue_configure_found cid o m) s.entry_is
      ∙ ap (λ r. queue_encoded c.destination_cid r (next_identifier m)) e in
    subst
      (λ (p : ChannelManager × Result Error (Unit {0})).
        Snapshot cid (some c) sent next announced p.0)
      (sym done)
      (queued_lem cid c.destination_cid (some c) queue next announced (next_identifier m) bytes
        numbered)

pub after_no_open :
    (cid : ℕ) (c : ClassicChannel) (queue : List L2capPdu) (last : ℕ) (announced : List ℕ)
    (m : ChannelManager)
    → Snapshot cid (some c) queue last announced m
    → is_settled c ≡ false
    → Snapshot cid (some c) queue last announced (maybe_open cid m)
unfolding maybe_open maybe_open_found
after_no_open cid c queue last announced m s open_later =
    subst (Snapshot cid (some c) queue last announced)
      (sym (
        ap (λ o. maybe_open_found cid o m) s.entry_is
        ∙ if_not (is_settled c) (open_channel cid c m) m open_later))
      s

abbrev pub now_open : ClassicChannel → ClassicChannel
now_open c = record c { state = opened; open_announced = c.open_announced || must_announce c }

if_yes {ℓ} : {A : Type ℓ} (b : Bool) (x y : A) → b ≡ true → (if b then x else y) ≡ x
if_yes true x y h = refl
if_yes false x y h = absurd (cc)

pub after_open :
    (cid : ℕ) (c : ClassicChannel) (queue : List L2capPdu) (last : ℕ) (announced : List ℕ)
    (m : ChannelManager)
    → Snapshot cid (some c) queue last announced m
    → is_settled c ≡ true
    → Snapshot cid
        (some (now_open c))
        queue
        last
        (if must_announce c then announced ++ cid ∷ [] else announced)
        (maybe_open cid m)
unfolding maybe_open maybe_open_found open_channel put_channel
after_open cid c queue last announced m s settled =
    let opens : maybe_open cid m ≡ open_channel cid c m =
      ap (λ o. maybe_open_found cid o m) s.entry_is
      ∙ if_yes (is_settled c) (open_channel cid c m) m settled in
    subst
      (Snapshot cid (some (now_open c)) queue last
        (if must_announce c then announced ++ cid ∷ [] else announced))
      (sym opens)
      (record {
        entry_is = lookup-put_channel cid (now_open c) m;
        queue_is = s.queue_is;
        last_is = s.last_is;
        announced_is = ap (λ l. if must_announce c then l ++ cid ∷ [] else l) s.announced_is;
      })

-- A frame in range that arrives on the signaling channel is processed as that frame.
pub process_control_pdu :
    (frame : ControlFrame) (m : ChannelManager)
    → IsFrame frame
    → length (payload frame) ≤ 65535
    → process_pdu (control_pdu frame) m ≡ process_control frame m
unfolding process_pdu process_parsed
process_control_pdu frame m h short =
    ap (λ bytes. process_parsed (from_bytes bytes) m) (sym (append-nil (to_bytes frame)))
    ∙ ap (λ r. process_parsed r m) (signaling_from_bytes-to_bytes frame [] h short)
