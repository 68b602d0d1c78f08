-- ===== src/L2cap/Classic/Settlement.antt =====
-- The end of `on_configure_request` in src/l2cap/classic.rs, when the options have been read.
use swbt_bumble_backend.Base.{
  ℕ, ◌%◌, Bool, true, false, ◌||◌, ◌&&◌, not, Option, none, some, [], ◌∷◌, Result, ok, err,
  if◌then◌else◌, ◌==◌, from_bool,
}
use swbt_bumble_backend.L2cap.{Error}
use swbt_bumble_backend.L2cap.Configuration
use swbt_bumble_backend.L2cap.Configuration.{ConfigurationOption}
use swbt_bumble_backend.L2cap.Ertm.State.{ErtmConfig, ErtmEngine}
use swbt_bumble_backend.L2cap.Ertm.State
use swbt_bumble_backend.L2cap.Classic.{
  ErtmChannelSpec, spec_ertm, closed, ClassicChannel, unacceptable_parameters,
  option_retransmission, option_fcs,
}
use swbt_bumble_backend.L2cap.Classic.Options.{ErtmOption, encode_ertm_option, Negotiation}

-- `unwrap_or(false)`.
abbrev pub or_false : Option Bool → Bool
or_false none = false
or_false (some b) = b

abbrev pub is_some {ℓ} : {A : Type ℓ} → Option A → Bool
is_some none = false
is_some (some _) = true

-- `!=` on Booleans.
abbrev pub differ : Bool → Bool → Bool
differ true b = not b
differ false b = b

unfoldable pub engine_config : ErtmChannelSpec → ErtmOption → ErtmConfig
engine_config s p = record {
  local_mtu = 65535;
  peer_mtu = 65535;
  local_mps = s.mps;
  peer_mps = p.mps;
  tx_window_size = p.tx_window_size;
  max_retransmissions = p.max_retransmissions;
  retransmission_timeout_ticks = s.retransmission_timeout_ms;
}

unfoldable pub refuse_all : ConfigurationOption → Negotiation → Negotiation
refuse_all o n = record n { result = unacceptable_parameters; response_options = o ∷ [] }

-- On what `ErtmEngine::new` returns.
unfoldable pub engage :
    ErtmChannelSpec
    → ErtmOption
    → Negotiation
    → Result Error ErtmEngine
    → Negotiation × Result Error (Unit {0})
engage s p n (ok e) = (
  record n {
    channel = record n.channel { peer_mps = p.mps; fcs_enabled = s.fcs_enabled; engine = some e };
  },
  ok tt,
)
engage s p n (err x) = (
  record n { channel = record n.channel { peer_mps = p.mps; fcs_enabled = s.fcs_enabled } },
  err x,
)

unfoldable pub start_engine :
    ErtmChannelSpec → ErtmOption → Negotiation → Negotiation × Result Error (Unit {0})
unfolding engine_config engage
start_engine s p n = engage s p n (State.new (engine_config s p))

-- An ERTM channel's side of the last fragment.
unfoldable pub conclude_ertm :
    ErtmChannelSpec → Option ErtmOption → Negotiation → Negotiation × Result Error (Unit {0})
unfolding refuse_all start_engine encode_ertm_option Configuration.new
conclude_ertm s none n =
    (refuse_all (Configuration.new option_retransmission (encode_ertm_option s)) n, ok tt)
conclude_ertm s (some p) n =
    if differ (or_false n.peer_fcs) s.fcs_enabled
    then (refuse_all (Configuration.new option_fcs (from_bool s.fcs_enabled ∷ [])) n, ok tt)
    else start_engine s p n

unfoldable pub conclude :
    Option ErtmChannelSpec → Negotiation → Negotiation × Result Error (Unit {0})
unfolding conclude_ertm
conclude (some s) n = conclude_ertm s n.peer_ertm n
conclude none n = (
  if is_some n.peer_ertm || or_false n.peer_fcs
      then record n { result = unacceptable_parameters }
      else n,
  ok tt,
)

unfoldable pub settled_channel : ℕ → ClassicChannel → ClassicChannel
settled_channel result c =
    if result == 0
    then record c { peer_configuration_received = true }
    else record c { state = closed; connection_result = some result }

unfoldable pub settle :
    Negotiation × Result Error (Unit {0}) → Negotiation × Result Error (Unit {0})
unfolding settled_channel
settle (n, ok _) = (record n { channel = settled_channel n.result n.channel }, ok tt)
settle (n, err x) = (n, err x)

-- `flags & 1` says that another fragment follows.
unfoldable pub finish : ℕ → Negotiation → Negotiation × Result Error (Unit {0})
unfolding settle conclude
finish flags n =
    if n.result == 0 && flags % 2 == 0
    then settle (conclude (spec_ertm n.channel.spec) n)
    else (n, ok tt)
