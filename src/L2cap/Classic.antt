-- ===== src/L2cap/Classic.antt =====
-- The channel manager of src/l2cap/classic.rs: specifications and channels, the manager's state, and
-- what the operations share.
pub mod Validation
pub mod Options
pub mod Settlement
pub mod Fcs
pub mod Transfer
pub mod Configure
pub mod Signals
pub mod Manager
pub mod Diagram
pub mod Allocation
pub mod Delivery
pub mod Wire
pub mod Starvation
pub mod Answers
pub mod Agreement
pub mod Invariant
pub mod Examples
use swbt_bumble_backend.Base.{
  ℕ, zero, suc, ◌+◌, ◌%◌, Bool, true, false, Option, none, some, List, [], ◌∷◌, ◌++◌, Map, lookup,
  Result, ok, err, ok_or, if◌then◌else◌, ◌==◌, not,
}
use swbt_bumble_backend.Base.OrderedMap
use swbt_bumble_backend.Base.OrderedMap.{contains_key}
use swbt_bumble_backend.L2cap.{Error, invalid_packet, no_free_cid}
use swbt_bumble_backend.L2cap.Pdu.{L2capPdu}
use swbt_bumble_backend.L2cap.Signaling.{ControlFrame, to_bytes}
use swbt_bumble_backend.L2cap.Information.{InformationCapabilities, default_capabilities}
use swbt_bumble_backend.L2cap.Ertm.State.{ErtmEngine}

abbrev pub min_br_edr_mtu : ℕ
min_br_edr_mtu = 48

abbrev pub default_mtu : ℕ
default_mtu = 2048

abbrev pub default_mps : ℕ
default_mps = 1010

abbrev pub dynamic_cid_start : ℕ
dynamic_cid_start = 0x40

-- `CONFIGURATION_UNACCEPTABLE_PARAMETERS`, and the other results and option types of mod.rs.
abbrev pub unacceptable_parameters : ℕ
unacceptable_parameters = 1

abbrev pub unknown_options : ℕ
unknown_options = 3

abbrev pub option_mtu : ℕ
option_mtu = 1

abbrev pub option_retransmission : ℕ
option_retransmission = 4

abbrev pub option_fcs : ℕ
option_fcs = 5

pub record ClassicChannelSpec : Type 0 where
  pub mtu : ℕ

pub record ErtmChannelSpec : Type 0 where
  pub mtu : ℕ
  pub mps : ℕ
  pub tx_window_size : ℕ
  pub max_retransmissions : ℕ
  pub retransmission_timeout_ms : ℕ
  pub monitor_timeout_ms : ℕ
  pub fcs_enabled : Bool

unfoldable pub default_spec : ClassicChannelSpec
default_spec = record { mtu = default_mtu }

unfoldable pub default_ertm_spec : ErtmChannelSpec
default_ertm_spec = record {
  mtu = default_mtu;
  mps = default_mps;
  tx_window_size = 63;
  max_retransmissions = 1;
  retransmission_timeout_ms = 2000;
  monitor_timeout_ms = 12000;
  fcs_enabled = false;
}

pub data ClassicChannelMode : Type 0 where
  basic_mode enhanced_retransmission : ClassicChannelMode

pub data ChannelSpec : Type 0 where
  basic : ClassicChannelSpec → ChannelSpec
  ertm : ErtmChannelSpec → ChannelSpec

abbrev pub spec_mtu : ChannelSpec → ℕ
spec_mtu (basic s) = s.mtu
spec_mtu (ertm s) = s.mtu

abbrev pub spec_mode : ChannelSpec → ClassicChannelMode
spec_mode (basic _) = basic_mode
spec_mode (ertm _) = enhanced_retransmission

abbrev pub spec_ertm : ChannelSpec → Option ErtmChannelSpec
spec_ertm (basic _) = none
spec_ertm (ertm s) = some s

pub data ClassicChannelState : Type 0 where
  closed wait_connect_response configuring opened wait_disconnect : ClassicChannelState

-- `state == ClassicChannelState::Open`, and the other two states that the code asks for.
abbrev pub is_opened : ClassicChannelState → Bool
is_opened opened = true
is_opened _ = false

abbrev pub is_configuring : ClassicChannelState → Bool
is_configuring configuring = true
is_configuring _ = false

abbrev pub is_waiting : ClassicChannelState → Bool
is_waiting wait_connect_response = true
is_waiting _ = false

pub record ClassicChannel : Type 0 where
  pub psm : ℕ
  pub source_cid : ℕ
  pub destination_cid : ℕ
  pub mtu : ℕ
  pub peer_mtu : ℕ
  pub peer_mps : ℕ
  pub mode : ClassicChannelMode
  pub fcs_enabled : Bool
  pub state : ClassicChannelState
  pub connection_result : Option ℕ
  pub incoming : Bool
  pub peer_configuration_received : Bool
  pub configuration_response_received : Bool
  pub open_announced : Bool
  pub spec : ChannelSpec
  pub engine : Option ErtmEngine
  pub received : List (List ℕ)

-- `ClassicChannel::outgoing`.
unfoldable pub outgoing_channel : ℕ → ℕ → ChannelSpec → ClassicChannel
outgoing_channel psm source_cid spec = record {
  psm = psm;
  source_cid = source_cid;
  destination_cid = 0;
  mtu = spec_mtu spec;
  peer_mtu = min_br_edr_mtu;
  peer_mps = default_mps;
  mode = spec_mode spec;
  fcs_enabled = false;
  state = wait_connect_response;
  connection_result = none;
  incoming = false;
  peer_configuration_received = false;
  configuration_response_received = false;
  open_announced = false;
  spec = spec;
  engine = none;
  received = [];
}

-- `ClassicChannel::incoming`.
unfoldable pub incoming_channel : ℕ → ℕ → ℕ → ChannelSpec → ClassicChannel
incoming_channel psm source_cid destination_cid spec = record {
  psm = psm;
  source_cid = source_cid;
  destination_cid = destination_cid;
  mtu = spec_mtu spec;
  peer_mtu = min_br_edr_mtu;
  peer_mps = default_mps;
  mode = spec_mode spec;
  fcs_enabled = false;
  state = configuring;
  connection_result = some 0;
  incoming = true;
  peer_configuration_received = false;
  configuration_response_received = false;
  open_announced = false;
  spec = spec;
  engine = none;
  received = [];
}

-- Of src/l2cap/mod.rs.
pub record InformationResponse : Type 0 where
  pub identifier : ℕ
  pub info_type : ℕ
  pub result : ℕ
  pub bytes : List ℕ

pub record ChannelManager : Type 0 where
  pub servers : Map ChannelSpec
  pub channels : Map ClassicChannel
  pub accepted_channels : List ℕ
  pub outbound : List L2capPdu
  pub information : InformationCapabilities
  pub information_responses : List InformationResponse
  pub identifier : ℕ

unfoldable pub with_information_capabilities : InformationCapabilities → ChannelManager
with_information_capabilities information = record {
  servers = [];
  channels = [];
  accepted_channels = [];
  outbound = [];
  information = information;
  information_responses = [];
  identifier = 0;
}

unfoldable pub new : ChannelManager
unfolding with_information_capabilities default_capabilities
new = with_information_capabilities default_capabilities

-- A method on `&mut self`: the state comes back after an error too, as far as it was written.
abbrev pub Action : Type 0 → Type 0
Action A = ChannelManager → ChannelManager × Result Error A

-- A write through `get_mut`, or an insertion.
unfoldable pub put_channel : ℕ → ClassicChannel → ChannelManager → ChannelManager
unfolding OrderedMap.insert
put_channel cid c m = record m { channels = OrderedMap.insert cid c m.channels }

unfoldable pub push_outbound : L2capPdu → ChannelManager → ChannelManager
push_outbound pdu m = record m { outbound = m.outbound ++ pdu ∷ [] }

unfoldable pub queue_control : ControlFrame → ChannelManager → ChannelManager
unfolding push_outbound
queue_control frame = push_outbound (record { cid = 1; payload = to_bytes frame })

-- `wrapping_add(1)` on a byte, and never 0.
unfoldable pub following_identifier : ℕ → ℕ
following_identifier n = let next = (n + 1) % 256 in if next == 0 then 1 else next

-- The identifier is the one that the manager holds afterwards.
unfoldable pub next_identifier : ChannelManager → ChannelManager
unfolding following_identifier
next_identifier m = record m { identifier = following_identifier m.identifier }

-- `(start..=end).step_by(step).find(p)`, on the number of candidates.
unfoldable pub find_from : (step candidates : ℕ) → (ℕ → Bool) → ℕ → Option ℕ
find_from step zero p n = none
find_from step (suc candidates) p n =
    let rest = find_from step candidates p (n + step) in if p n then some n else rest

abbrev pub is_free : Map ClassicChannel → ℕ → Bool
is_free channels cid = not (contains_key cid channels)

-- The range has 65472 identifiers.
unfoldable pub allocate_cid : ChannelManager → Result Error ℕ
unfolding find_from
allocate_cid m =
    ok_or (find_from 1 65472 (is_free m.channels) dynamic_cid_start) (invalid_packet no_free_cid)
