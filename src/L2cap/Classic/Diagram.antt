-- ===== src/L2cap/Classic/Diagram.antt =====
-- The states of a channel of src/l2cap/classic.rs, and what no call changes of a channel.
use swbt_bumble_backend.Base.{◌≡◌, ◌⊎◌, inl, inr, refl, ◌∙◌, Option, none, some}
use swbt_bumble_backend.L2cap.Classic.{
  ClassicChannelState, closed, wait_connect_response, configuring, opened, wait_disconnect,
  ClassicChannel,
}

infix 40 ◌⟶◌ ◌⟶*◌
-- The edges. Any state can be left for `closed`, which is not left.
pub data ◌⟶◌ : ClassicChannelState → ClassicChannelState → Type 0 where
  respond : wait_connect_response ⟶ configuring
  settle : configuring ⟶ opened
  disconnect : opened ⟶ wait_disconnect
  close : {s : ClassicChannelState} → s ⟶ closed

pub data ◌⟶*◌ : ClassicChannelState → ClassicChannelState → Type 0 where
  stay : {s : ClassicChannelState} → s ⟶* s
  move : {s t u : ClassicChannelState} → s ⟶ t → t ⟶* u → s ⟶* u

pub ⟶*-trans : {s t u : ClassicChannelState} → s ⟶* t → t ⟶* u → s ⟶* u
⟶*-trans stay q = q
⟶*-trans (move e p) q = move e (⟶*-trans p q)

-- What a channel keeps over any call.
pub record Kept (c c' : ClassicChannel) : Type 0 where
  pub psm_kept : c'.psm ≡ c.psm
  pub source_kept : c'.source_cid ≡ c.source_cid
  pub spec_kept : c'.spec ≡ c.spec
  pub mode_kept : c'.mode ≡ c.mode
  pub mtu_kept : c'.mtu ≡ c.mtu
  pub incoming_kept : c'.incoming ≡ c.incoming
  pub moved : c.state ⟶* c'.state

pub Kept-refl : (c : ClassicChannel) → Kept c c
Kept-refl c = record {
  psm_kept = refl;
  source_kept = refl;
  spec_kept = refl;
  mode_kept = refl;
  mtu_kept = refl;
  incoming_kept = refl;
  moved = stay;
}

pub Kept-trans : {c d e : ClassicChannel} → Kept c d → Kept d e → Kept c e
Kept-trans h k = record {
  psm_kept = k.psm_kept ∙ h.psm_kept;
  source_kept = k.source_kept ∙ h.source_kept;
  spec_kept = k.spec_kept ∙ h.spec_kept;
  mode_kept = k.mode_kept ∙ h.mode_kept;
  mtu_kept = k.mtu_kept ∙ h.mtu_kept;
  incoming_kept = k.incoming_kept ∙ h.incoming_kept;
  moved = ⟶*-trans h.moved k.moved;
}

-- A channel that was not there before: an outgoing one waits for its response, an incoming one is
-- configured, or what these have become.
abbrev pub IsEntered : ClassicChannel → Type 0
IsEntered c = (wait_connect_response ⟶* c.state) ⊎ (configuring ⟶* c.state)

-- What becomes of the entry of a channel identifier. No entry is removed.
abbrev pub Evolves : Option ClassicChannel → Option ClassicChannel → Type 0
Evolves none none = Unit {0}
Evolves none (some c) = IsEntered c
Evolves (some c) none = ⊥
Evolves (some c) (some c') = Kept c c'

pub Evolves-refl : (o : Option ClassicChannel) → Evolves o o
Evolves-refl none = tt
Evolves-refl (some c) = Kept-refl c

IsEntered-later : {c d : ClassicChannel} → IsEntered c → Kept c d → IsEntered d
IsEntered-later (inl p) k = inl (⟶*-trans p k.moved)
IsEntered-later (inr p) k = inr (⟶*-trans p k.moved)

pub Evolves-trans : (o p q : Option ClassicChannel) → Evolves o p → Evolves p q → Evolves o q
Evolves-trans none none q h k = k
Evolves-trans none (some d) none h k = absurd k
Evolves-trans none (some d) (some e) h k = IsEntered-later h k
Evolves-trans (some c) none q h k = absurd h
Evolves-trans (some c) (some d) none h k = absurd k
Evolves-trans (some c) (some d) (some e) h k = Kept-trans h k

-- The other fields do not matter.
pub others-Kept :
    (c d others : ClassicChannel)
    → Kept c d
    → Kept c (record others {
      psm = d.psm;
      source_cid = d.source_cid;
      spec = d.spec;
      mode = d.mode;
      mtu = d.mtu;
      incoming = d.incoming;
      state = d.state;
    })
others-Kept c d others k = record {
  psm_kept = k.psm_kept;
  source_kept = k.source_kept;
  spec_kept = k.spec_kept;
  mode_kept = k.mode_kept;
  mtu_kept = k.mtu_kept;
  incoming_kept = k.incoming_kept;
  moved = k.moved;
}

pub moved-Kept :
    (c d others : ClassicChannel) (s : ClassicChannelState)
    → Kept c d
    → d.state ⟶ s
    → Kept c (record others {
      psm = d.psm;
      source_cid = d.source_cid;
      spec = d.spec;
      mode = d.mode;
      mtu = d.mtu;
      incoming = d.incoming;
      state = s;
    })
moved-Kept c d others s k e = record {
  psm_kept = k.psm_kept;
  source_kept = k.source_kept;
  spec_kept = k.spec_kept;
  mode_kept = k.mode_kept;
  mtu_kept = k.mtu_kept;
  incoming_kept = k.incoming_kept;
  moved = ⟶*-trans k.moved (move e stay);
}
