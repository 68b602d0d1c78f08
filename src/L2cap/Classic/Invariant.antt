-- ===== src/L2cap/Classic/Invariant.antt =====
-- The invariant of the channel manager of src/l2cap/classic.rs, and the writes that keep it.
pub mod Pieces
pub mod Transfer
pub mod DataPath
pub mod Options
pub mod Negotiation
pub mod Conclusion
pub mod Configure
pub mod Answers
pub mod Signals
pub mod Disconnection
pub mod Frames
pub mod Operations
pub mod Services
pub mod Runs
use swbt_bumble_backend.Base.{
  ℕ, ◌≤◌, ◌<◌, ◌≡◌, Bool, true, false, Option, none, some, List, [], ◌∷◌, length, All, lookup,
}
use swbt_bumble_backend.Base.OrderedMap.{AllEntries}
use swbt_bumble_backend.L2cap.Ertm.State.{ErtmEngine}
use swbt_bumble_backend.L2cap.Ertm.Sending.{IsReady}
use swbt_bumble_backend.L2cap.Classic.{
  ClassicChannelMode, basic_mode, enhanced_retransmission, ChannelSpec, basic, ertm, spec_mtu,
  spec_mode, ClassicChannelState, closed, wait_connect_response, configuring, opened,
  wait_disconnect, ClassicChannel, ChannelManager, min_br_edr_mtu,
}
use swbt_bumble_backend.L2cap.Classic.Diagram.{Evolves}

-- What the validation of a specification grants.
abbrev pub SpecIsValid : ChannelSpec → Type 0
SpecIsValid (basic s) = min_br_edr_mtu ≤ s.mtu
SpecIsValid (ertm s) =
    (min_br_edr_mtu ≤ s.mtu)
    × (0 < s.mps)
    × (0 < s.tx_window_size)
    × (s.tx_window_size < 64)
    × (0 < s.retransmission_timeout_ms)
    × (0 < s.monitor_timeout_ms)

-- The channel is open or has been.
abbrev pub WasOpened : ClassicChannelState → Type 0
WasOpened opened = Unit {0}
WasOpened wait_disconnect = Unit {0}
WasOpened _ = ⊥

-- A basic channel has no engine; the other has one at the latest when the peer's configuration is
-- accepted, and it is ready.
abbrev pub EngineIsValid :
    ClassicChannelMode → (peer_configuration_received : Bool) → Option ErtmEngine → Type 0
EngineIsValid basic_mode received none = Unit {0}
EngineIsValid basic_mode received (some e) = ⊥
EngineIsValid enhanced_retransmission true none = ⊥
EngineIsValid enhanced_retransmission false none = Unit {0}
EngineIsValid enhanced_retransmission received (some e) = IsReady e

abbrev pub FitsIn : ℕ → List ℕ → Type 0
FitsIn mtu sdu = length sdu ≤ mtu

-- The SDUs of a basic channel are within its MTU.
abbrev pub ReceivedFits : ClassicChannelMode → ℕ → List (List ℕ) → Type 0
ReceivedFits basic_mode mtu sdus = All (FitsIn mtu) sdus
ReceivedFits enhanced_retransmission mtu sdus = Unit {0}

pub record ChannelIsValid (cid : ℕ) (c : ClassicChannel) : Type 0 where
  pub source : c.source_cid ≡ cid
  pub range : (0x40 ≤ cid) × (cid ≤ 0xffff)
  pub specified : SpecIsValid c.spec
  pub mode_valid : c.mode ≡ spec_mode c.spec
  pub mtu_valid : c.mtu ≡ spec_mtu c.spec
  pub peer_mtu_valid : min_br_edr_mtu ≤ c.peer_mtu
  pub settled :
      WasOpened c.state
      → (c.peer_configuration_received ≡ true) × (c.configuration_response_received ≡ true)
  pub engine_valid : EngineIsValid c.mode c.peer_configuration_received c.engine
  pub received_fits : ReceivedFits c.mode c.mtu c.received

abbrev pub ServerIsValid : ℕ → ChannelSpec → Type 0
ServerIsValid psm s = SpecIsValid s

abbrev pub CameIn : Option ClassicChannel → Type 0
CameIn none = ⊥
CameIn (some c) = c.incoming ≡ true

pub record ManagerIsValid (m : ChannelManager) : Type 0 where
  pub channels_valid : AllEntries ChannelIsValid m.channels
  pub servers_valid : AllEntries ServerIsValid m.servers
  pub accepted_valid : All (λ (cid : ℕ). CameIn (lookup cid m.channels)) m.accepted_channels
  pub identifier_width : m.identifier < 256

-- An action keeps the invariant, and its effect on every channel is one of the diagram.
pub record Keeps (m m' : ChannelManager) : Type 0 where
  pub valid : ManagerIsValid m'
  pub evolves : (cid : ℕ) → Evolves (lookup cid m.channels) (lookup cid m'.channels)
