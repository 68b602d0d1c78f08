-- ===== src/L2cap/Classic/Invariant/Pieces.antt =====
-- The writes of the channel manager (src/l2cap/classic.rs) keep its invariant.
use swbt_bumble_backend.Base.{
  ℕ, ◌<◌, ◌≡◌, inl, inr, refl, sym, ◌∙◌, arith, Option, none, some, All-map, lookup, ◌==◌,
  Bool-cases, ==→eq, Map,
}
use mathlib.Core.Path.{subst}
use swbt_bumble_backend.Base.OrderedMap
use swbt_bumble_backend.Base.OrderedMap.{
  AllEntries, OnSome, lookup-insert, lookup-AllEntries, insert-AllEntries,
}
use swbt_bumble_backend.L2cap.Signaling.{ControlFrame}
use swbt_bumble_backend.L2cap.Pdu.{L2capPdu}
use swbt_bumble_backend.L2cap.Classic.{
  closed, ClassicChannel, ChannelManager, put_channel, push_outbound, queue_control,
  next_identifier, following_identifier,
}
use swbt_bumble_backend.L2cap.Classic.Diagram.{Kept, Evolves, Evolves-refl, Evolves-trans}
use swbt_bumble_backend.L2cap.Classic.Invariant.{ChannelIsValid, CameIn, ManagerIsValid, Keeps}

pub Keeps-refl : (m : ChannelManager) → ManagerIsValid m → Keeps m m
Keeps-refl m h = record { valid = h; evolves = λ cid. Evolves-refl (lookup cid m.channels) }

pub Keeps-trans : {m n o : ChannelManager} → Keeps m n → Keeps n o → Keeps m o
Keeps-trans {m} {n} {o} h k = record {
  valid = k.valid;
  evolves = λ cid.
      Evolves-trans (lookup cid m.channels) (lookup cid n.channels) (lookup cid o.channels)
        (h.evolves cid) (k.evolves cid);
}

-- The channel that an identifier stands for is valid.
pub found-IsValid :
    (cid : ℕ) (m : ChannelManager)
    → ManagerIsValid m
    → OnSome (ChannelIsValid cid) (lookup cid m.channels)
found-IsValid cid m h = lookup-AllEntries ChannelIsValid cid m.channels h.channels_valid

-- The fields that the invariant does not read do not matter.
pub same-Keeps :
    (m m' : ChannelManager)
    → ManagerIsValid m
    → m'.channels ≡ m.channels
    → m'.servers ≡ m.servers
    → m'.accepted_channels ≡ m.accepted_channels
    → m'.identifier < 256
    → Keeps m m'
same-Keeps m m' h c s a i = record {
  valid = record {
    channels_valid = rw c h.channels_valid;
    servers_valid = rw s h.servers_valid;
    accepted_valid = rw (c, a) h.accepted_valid;
    identifier_width = i;
  };
  evolves = λ cid. rw c (Evolves-refl (lookup cid m.channels));
}

pub queue_control-Keeps :
    (frame : ControlFrame) (m : ChannelManager) → ManagerIsValid m → Keeps m (queue_control frame m)
unfolding queue_control push_outbound
queue_control-Keeps frame m h =
    same-Keeps m (queue_control frame m) h refl refl refl h.identifier_width

pub push_outbound-Keeps :
    (pdu : L2capPdu) (m : ChannelManager) → ManagerIsValid m → Keeps m (push_outbound pdu m)
unfolding push_outbound
push_outbound-Keeps pdu m h = same-Keeps m (push_outbound pdu m) h refl refl refl h.identifier_width

following_identifier-lt : (n : ℕ) → following_identifier n < 256
unfolding following_identifier
following_identifier-lt n = ground arith

pub next_identifier-Keeps : (m : ChannelManager) → ManagerIsValid m → Keeps m (next_identifier m)
unfolding next_identifier
next_identifier-Keeps m h =
    same-Keeps m (next_identifier m) h refl refl refl (following_identifier-lt m.identifier)

Evolves-CameIn : (o p : Option ClassicChannel) → Evolves o p → CameIn o → CameIn p
Evolves-CameIn none p e h = absurd h
Evolves-CameIn (some c) none e h = e
Evolves-CameIn (some c) (some d) e h = e.incoming_kept ∙ h

Evolves-at :
    (cid : ℕ) (c' : ClassicChannel) (channels : Map ClassicChannel)
    → Evolves (lookup cid channels) (some c')
    → (j : ℕ) → Evolves (lookup j channels) (lookup j (OrderedMap.insert cid c' channels))
Evolves-at cid c' channels e j = elim (Bool-cases (j == cid)) [
  | inl same ↦ rw (lookup-insert j cid c' channels, same, ==→eq j cid same) e
  | inr other ↦ rw (lookup-insert j cid c' channels, other) (Evolves-refl (lookup j channels))
]

-- A write of a channel.
pub put_channel-Keeps :
    (cid : ℕ) (c' : ClassicChannel) (m : ChannelManager)
    → ManagerIsValid m
    → Evolves (lookup cid m.channels) (some c')
    → ChannelIsValid cid c'
    → Keeps m (put_channel cid c' m)
unfolding put_channel
put_channel-Keeps cid c' m h e v =
    let evolve = Evolves-at cid c' m.channels e in
    let written = OrderedMap.insert cid c' m.channels in
    record {
      valid = record {
        channels_valid = insert-AllEntries ChannelIsValid cid c' m.channels h.channels_valid v;
        servers_valid = h.servers_valid;
        accepted_valid =
            All-map (λ j. Evolves-CameIn (lookup j m.channels) (lookup j written) (evolve j))
              m.accepted_channels h.accepted_valid;
        identifier_width = h.identifier_width;
      };
      evolves = evolve;
    }

-- A write of the channel that was found.
pub put_found-Keeps :
    (cid : ℕ) (c c' : ClassicChannel) (m : ChannelManager)
    → ManagerIsValid m
    → lookup cid m.channels ≡ some c
    → Kept c c'
    → ChannelIsValid cid c'
    → Keeps m (put_channel cid c' m)
put_found-Keeps cid c c' m h e k v =
    put_channel-Keeps cid c' m h (subst (λ o. Evolves o (some c')) (sym e) k) v

-- What is there afterwards.
pub lookup-put_channel :
    (cid : ℕ) (c : ClassicChannel) (m : ChannelManager)
    → lookup cid (put_channel cid c m).channels ≡ some c
unfolding put_channel
lookup-put_channel cid c m = lookup-insert cid cid c m.channels ∙ ground arith

-- A channel may be closed, whatever else is written with it.
pub closed-IsValid :
    (cid : ℕ) (c others : ClassicChannel)
    → ChannelIsValid cid c
    → ChannelIsValid cid (record others {
      source_cid = c.source_cid;
      mtu = c.mtu;
      peer_mtu = c.peer_mtu;
      mode = c.mode;
      state = closed;
      peer_configuration_received = c.peer_configuration_received;
      spec = c.spec;
      engine = c.engine;
      received = c.received;
    })
closed-IsValid cid c others v = record {
  source = v.source;
  range = v.range;
  specified = v.specified;
  mode_valid = v.mode_valid;
  mtu_valid = v.mtu_valid;
  peer_mtu_valid = v.peer_mtu_valid;
  settled = λ was_opened. absurd was_opened;
  engine_valid = v.engine_valid;
  received_fits = v.received_fits;
}
