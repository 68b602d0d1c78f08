-- ===== src/L2cap/Classic/Invariant/Configure.antt =====
-- Configuration requests and responses (src/l2cap/classic.rs) keep the channel manager's invariant.
use swbt_bumble_backend.Base.{
  ℕ, ◌≡◌, refl, sym, arith, Bool, true, ◌||◌, Option, none, some, List, [], ◌∷◌, ◌++◌, All,
  All-append, lookup, Result, ok, err, if◌then◌else◌, if_both,
}
use mathlib.Core.Path.{subst}
use swbt_bumble_backend.Base.OrderedMap.{OnSome}
use swbt_bumble_backend.L2cap.{Error}
use swbt_bumble_backend.L2cap.Signaling.{configure_request}
use swbt_bumble_backend.L2cap.Configuration.{encode_configuration_options}
use swbt_bumble_backend.L2cap.Classic.{
  ClassicChannelState, closed, wait_connect_response, configuring, opened, wait_disconnect,
  ClassicChannel, ChannelManager, put_channel, next_identifier, is_configuring,
}
use swbt_bumble_backend.L2cap.Classic.Diagram.{Kept-refl, moved-Kept, settle, ◌⟶◌}
use swbt_bumble_backend.L2cap.Classic.Options.{request_options}
use swbt_bumble_backend.L2cap.Classic.Configure.{
  queue_encoded, queue_configure_found, queue_configure_request, is_settled, must_announce,
  open_channel, maybe_open_found, maybe_open,
}
use swbt_bumble_backend.L2cap.Classic.Invariant.{ChannelIsValid, CameIn, ManagerIsValid, Keeps}
use swbt_bumble_backend.L2cap.Classic.Invariant.Pieces.{
  Keeps-refl, Keeps-trans, found-IsValid, queue_control-Keeps, next_identifier-Keeps,
  put_found-Keeps, lookup-put_channel,
}

queue_encoded-Keeps :
    (remote : ℕ) (r : Result Error (List ℕ)) (m : ChannelManager)
    → ManagerIsValid m
    → Keeps m (queue_encoded remote r m).0
unfolding queue_encoded
queue_encoded-Keeps remote (ok options) m h =
    queue_control-Keeps (configure_request m.identifier remote 0 options) m h
queue_encoded-Keeps remote (err x) m h = Keeps-refl m h

queue_configure_found-Keeps :
    (cid : ℕ) (o : Option ClassicChannel) (m : ChannelManager)
    → ManagerIsValid m
    → Keeps m (queue_configure_found cid o m).0
unfolding queue_configure_found
queue_configure_found-Keeps cid none m h = Keeps-refl m h
queue_configure_found-Keeps cid (some c) m h =
    let numbered = next_identifier-Keeps m h in
    Keeps-trans numbered (
      queue_encoded-Keeps c.destination_cid (encode_configuration_options (request_options c.spec))
        (next_identifier m) numbered.valid)

pub queue_configure_request-Keeps :
    (cid : ℕ) (m : ChannelManager) → ManagerIsValid m → Keeps m (queue_configure_request cid m).0
unfolding queue_configure_request
queue_configure_request-Keeps cid m h = queue_configure_found-Keeps cid (lookup cid m.channels) m h

configuring_lem : (s : ClassicChannelState) → is_configuring s ≡ true → s ≡ configuring
configuring_lem closed h = absurd (cc)
configuring_lem wait_connect_response h = absurd (cc)
configuring_lem configuring h = refl
configuring_lem opened h = absurd (cc)
configuring_lem wait_disconnect h = absurd (cc)

-- What the test of `maybe_open` grants.
settled_lem :
    (c : ClassicChannel)
    → is_settled c ≡ true
    → (c.peer_configuration_received ≡ true)
      × (c.configuration_response_received ≡ true)
      × (c.state ≡ configuring)
settled_lem c h = (ground arith, ground arith, configuring_lem c.state (ground arith))

abbrev opened_channel : ClassicChannel → ClassicChannel
opened_channel c = record c { state = opened; open_announced = c.open_announced || must_announce c }

opened-IsValid :
    (cid : ℕ) (c : ClassicChannel)
    → is_settled c ≡ true
    → ChannelIsValid cid c
    → ChannelIsValid cid (opened_channel c)
opened-IsValid cid c s v =
    let (peer, response, state) = settled_lem c s in
    record {
      source = v.source;
      range = v.range;
      specified = v.specified;
      mode_valid = v.mode_valid;
      mtu_valid = v.mtu_valid;
      peer_mtu_valid = v.peer_mtu_valid;
      settled = λ _. (peer, response);
      engine_valid = v.engine_valid;
      received_fits = v.received_fits;
    }

announced_valid :
    (cid : ℕ) (announce : Bool) (m : ChannelManager)
    → ManagerIsValid m
    → (announce ≡ true → CameIn (lookup cid m.channels))
    → ManagerIsValid (record m {
      accepted_channels = if announce then m.accepted_channels ++ cid ∷ [] else m.accepted_channels;
    })
announced_valid cid announce m h came = record {
  channels_valid = h.channels_valid;
  servers_valid = h.servers_valid;
  accepted_valid =
      if_both (All (λ (j : ℕ). CameIn (lookup j m.channels))) announce
        (m.accepted_channels ++ cid ∷ []) m.accepted_channels
        (λ e.
          All-append (λ (j : ℕ). CameIn (lookup j m.channels)) m.accepted_channels (cid ∷ [])
            h.accepted_valid (came e, tt))
        (λ _. h.accepted_valid);
  identifier_width = h.identifier_width;
}

announces_incoming : (c : ClassicChannel) → must_announce c ≡ true → c.incoming ≡ true
announces_incoming c h = ground arith

open_channel-Keeps :
    (cid : ℕ) (c : ClassicChannel) (m : ChannelManager)
    → is_settled c ≡ true
    → ManagerIsValid m
    → lookup cid m.channels ≡ some c
    → Keeps m (open_channel cid c m)
unfolding open_channel
open_channel-Keeps cid c m s h here =
    let v = subst (OnSome (ChannelIsValid cid)) here (found-IsValid cid m h) in
    let c' = opened_channel c in
    let edge : c.state ⟶ opened = subst (λ t. t ⟶ opened) (sym (settled_lem c s).2) settle in
    let written =
      put_found-Keeps cid c c' m h here (moved-Kept c c c' opened (Kept-refl c) edge)
        (opened-IsValid cid c s v) in
    record {
      valid =
          announced_valid cid (must_announce c) (put_channel cid c' m) written.valid
            λ e. subst CameIn (sym (lookup-put_channel cid c' m)) (announces_incoming c e);
      evolves = written.evolves;
    }

maybe_open_found-Keeps :
    (cid : ℕ) (o : Option ClassicChannel) (m : ChannelManager)
    → ManagerIsValid m
    → lookup cid m.channels ≡ o
    → Keeps m (maybe_open_found cid o m)
unfolding maybe_open_found
maybe_open_found-Keeps cid none m h here = Keeps-refl m h
maybe_open_found-Keeps cid (some c) m h here =
    if_both (Keeps m) (is_settled c) (open_channel cid c m) m
      (λ s. open_channel-Keeps cid c m s h here) (λ _. Keeps-refl m h)

pub maybe_open-Keeps :
    (cid : ℕ) (m : ChannelManager) → ManagerIsValid m → Keeps m (maybe_open cid m)
unfolding maybe_open
maybe_open-Keeps cid m h = maybe_open_found-Keeps cid (lookup cid m.channels) m h refl
