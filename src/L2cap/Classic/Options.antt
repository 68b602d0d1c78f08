-- ===== src/L2cap/Classic/Options.antt =====
-- Configuration options of src/l2cap/classic.rs: the parameters of Enhanced Retransmission Mode, the
-- options that a request carries, and the loop over the options of a peer's request.
use swbt_bumble_backend.Base.{
  ℕ, Bool, ◌||◌, ◌&&◌, not, Option, none, some, List, [], ◌∷◌, ◌++◌, if◌then◌else◌, ltb, leb, ◌==◌,
  u16_to_le, u16_from_le,
}
use swbt_bumble_backend.L2cap.Configuration
use swbt_bumble_backend.L2cap.Configuration.{ConfigurationOption}
use swbt_bumble_backend.L2cap.Classic.{
  ErtmChannelSpec, ClassicChannelMode, basic_mode, enhanced_retransmission, ChannelSpec, spec_mtu,
  spec_ertm, ClassicChannel, min_br_edr_mtu, unacceptable_parameters, unknown_options, option_mtu,
  option_retransmission, option_fcs,
}

-- `RETRANSMISSION_MODE_ENHANCED`.
abbrev pub mode_enhanced : ℕ
mode_enhanced = 3

pub record ErtmOption : Type 0 where
  pub mode : ℕ
  pub tx_window_size : ℕ
  pub max_retransmissions : ℕ
  pub mps : ℕ

unfoldable pub encode_ertm_option : ErtmChannelSpec → List ℕ
encode_ertm_option s =
    mode_enhanced ∷ s.tx_window_size ∷ s.max_retransmissions ∷ u16_to_le s.retransmission_timeout_ms
    ++ (u16_to_le s.monitor_timeout_ms ++ u16_to_le s.mps)

unfoldable pub decode_ertm_option : List ℕ → Option ErtmOption
decode_ertm_option (mode ∷ window ∷ max ∷ _ ∷ _ ∷ _ ∷ _ ∷ lo ∷ hi ∷ []) = some (record {
  mode = mode;
  tx_window_size = window;
  max_retransmissions = max;
  mps = u16_from_le lo hi;
})
decode_ertm_option _ = none

-- The options of a request, in `queue_configure_request`.
unfoldable pub ertm_options : Option ErtmChannelSpec → List ConfigurationOption
unfolding encode_ertm_option Configuration.new
ertm_options none = []
ertm_options (some s) =
    Configuration.new option_retransmission (encode_ertm_option s)
    ∷ (if s.fcs_enabled then Configuration.new option_fcs (1 ∷ []) ∷ [] else [])

unfoldable pub request_options : ChannelSpec → List ConfigurationOption
unfolding ertm_options Configuration.new
request_options s =
    Configuration.new option_mtu (u16_to_le (spec_mtu s)) ∷ ertm_options (spec_ertm s)

-- The variables of `on_configure_request`, with the channel that it writes.
pub record Negotiation : Type 0 where
  pub channel : ClassicChannel
  pub result : ℕ
  pub response_options : List ConfigurationOption
  pub peer_ertm : Option ErtmOption
  pub peer_fcs : Option Bool

unfoldable pub negotiation : ClassicChannel → Negotiation
negotiation c = record {
  channel = c;
  result = 0;
  response_options = [];
  peer_ertm = none;
  peer_fcs = none;
}

-- How a pass of the loop ends.
pub data Pass : Type 0 where
  continue : Negotiation → Pass
  break : Negotiation → Pass

unfoldable pub refuse : ℕ → ConfigurationOption → Negotiation → Pass
refuse result o n = break (record n { result = result; response_options = o ∷ [] })

abbrev pub mtu_value : List ℕ → Option ℕ
mtu_value (lo ∷ hi ∷ []) = some (u16_from_le lo hi)
mtu_value _ = none

unfoldable pub take_mtu : ConfigurationOption → Option ℕ → Negotiation → Pass
unfolding refuse Configuration.new
take_mtu o none n = refuse unacceptable_parameters o n
take_mtu o (some mtu) n =
    if ltb mtu min_br_edr_mtu
    then refuse unacceptable_parameters (Configuration.new option_mtu (u16_to_le min_br_edr_mtu)) n
    else continue (record n {
      channel = record n.channel { peer_mtu = mtu };
      response_options = n.response_options ++ o ∷ [];
    })

abbrev pub expected_mode : ClassicChannelMode → ℕ
expected_mode basic_mode = 0
expected_mode enhanced_retransmission = mode_enhanced

unfoldable pub is_unacceptable : ErtmOption → ℕ → Bool
is_unacceptable p expected =
    not (p.mode == expected)
    || (p.mode == mode_enhanced && (p.tx_window_size == 0 || leb 64 p.tx_window_size || p.mps == 0))

unfoldable pub take_ertm : ConfigurationOption → Option ErtmOption → Negotiation → Pass
unfolding refuse is_unacceptable
take_ertm o none n = refuse unacceptable_parameters o n
take_ertm o (some p) n =
    if is_unacceptable p (expected_mode n.channel.mode)
    then refuse unacceptable_parameters o n
    else continue (record n { peer_ertm = some p; response_options = n.response_options ++ o ∷ [] })

abbrev pub fcs_value : List ℕ → Option Bool
fcs_value (v ∷ []) = if ltb 1 v then none else some (not (v == 0))
fcs_value _ = none

unfoldable pub take_fcs : ConfigurationOption → Option Bool → Negotiation → Pass
unfolding refuse
take_fcs o none n = refuse unacceptable_parameters o n
take_fcs o (some fcs) n =
    continue (record n { peer_fcs = some fcs; response_options = n.response_options ++ o ∷ [] })

-- The `match` on the option's type.
unfoldable pub take_option : ConfigurationOption → Negotiation → Pass
unfolding take_mtu take_ertm take_fcs decode_ertm_option refuse
take_option o n =
    if o.option_type == option_mtu
    then take_mtu o (mtu_value o.value) n
    else if o.option_type == option_retransmission
    then take_ertm o (decode_ertm_option o.value) n
    else if o.option_type == option_fcs
    then take_fcs o (fcs_value o.value) n
    else if not o.hint
    then refuse unknown_options o n
    else continue n

unfoldable pub take_options : List ConfigurationOption → Negotiation → Negotiation
unfolding take_option
take_options [] n = n
take_options (o ∷ rest) n = elim (take_option o n) [
  | continue n' ↦ take_options rest n'
  | break n' ↦ n'
]
