-- ===== src/L2cap/Classic/Agreement.antt =====
-- The configuration request that src/l2cap/classic.rs sends is one that it accepts.
pub mod Accepts
pub mod Snapshots
pub mod Steps
pub mod Configuring
pub mod Exchange
pub mod Rounds
pub mod Handshake
use swbt_bumble_backend.Base.{
  ℕ, ◌+◌, ◌*◌, ◌/◌, ◌%◌, ◌≤◌, ◌<◌, ◌≡◌, refl, sym, ap, ◌∙◌, arith, Bool, true, false, not, ◌||◌,
  ◌&&◌, Option, none, some, List, [], ◌∷◌, ◌++◌, length, All, IsU16, lookup, Result, ok, err, ltb,
  leb, ◌==◌, if◌then◌else◌, if_not, le→ltb, u16_to_le, u16_from_le,
}
use mathlib.Core.Path.{subst}
use swbt_bumble_backend.L2cap.{Error}
use swbt_bumble_backend.L2cap.Configuration
use swbt_bumble_backend.L2cap.Configuration.{
  ConfigurationOption, encode_configuration_options, decode_configuration_options,
}
use swbt_bumble_backend.L2cap.Configuration.RoundTrip.{IsOption, decode_configuration_options_lem}
use swbt_bumble_backend.L2cap.Ertm.State
use swbt_bumble_backend.L2cap.Ertm.State.{ErtmEngine, initial}
use swbt_bumble_backend.L2cap.Signaling.{configure_response}
use swbt_bumble_backend.L2cap.Classic.{
  ClassicChannelSpec, ErtmChannelSpec, ClassicChannelMode, basic_mode, enhanced_retransmission,
  ChannelSpec, basic, ertm, spec_mtu, spec_mode, spec_ertm, ClassicChannel, ChannelManager,
  put_channel, queue_control, option_mtu, option_retransmission, option_fcs,
}
use swbt_bumble_backend.L2cap.Classic.Options.{
  ErtmOption, mode_enhanced, encode_ertm_option, decode_ertm_option, ertm_options, request_options,
  Negotiation, negotiation, Pass, continue, break, mtu_value, take_mtu, expected_mode,
  is_unacceptable, take_ertm, fcs_value, take_fcs, take_option, take_options,
}
use swbt_bumble_backend.L2cap.Classic.Settlement.{
  or_false, differ, engine_config, engage, start_engine, conclude_ertm, conclude, settled_channel,
  settle, finish,
}
use swbt_bumble_backend.L2cap.Classic.Configure.{
  maybe_open, answer_encoded, answer_configuration, configure_found, configure_decoded,
  on_configure_request,
}
use swbt_bumble_backend.L2cap.Classic.Invariant.{SpecIsValid}
use swbt_bumble_backend.L2cap.Classic.Invariant.Negotiation.{engine_config_made}

-- The fields have the widths of their types in the source.
abbrev pub HasWidths : ChannelSpec → Type 0
HasWidths (basic s) = IsU16 s.mtu
HasWidths (ertm s) = IsU16 s.mtu × IsU16 s.mps × (s.max_retransmissions < 256)

-- The two sides' specifications agree in the mode, and in the use of the check sequence.
abbrev pub Compatible : ChannelSpec → ChannelSpec → Type 0
Compatible (basic s) (basic t) = Unit {0}
Compatible (ertm s) (ertm t) = s.fcs_enabled ≡ t.fcs_enabled
Compatible _ _ = ⊥

-- The parameters that a side offers.
abbrev pub parameters : ErtmChannelSpec → ErtmOption
parameters s = record {
  mode = mode_enhanced;
  tx_window_size = s.tx_window_size;
  max_retransmissions = s.max_retransmissions;
  mps = s.mps;
}

-- What the answering channel becomes: it knows the peer's MTU, and in Enhanced Retransmission Mode
-- it has an engine for the peer's parameters and its own timeout.
abbrev pub agreed : ChannelSpec → ChannelSpec → ClassicChannel → ClassicChannel
agreed (ertm s) (ertm t) c = record c {
  peer_mtu = s.mtu;
  peer_mps = s.mps;
  fcs_enabled = t.fcs_enabled;
  engine = some (initial (engine_config t (parameters s)));
  peer_configuration_received = true;
}
agreed s t c = record c { peer_mtu = spec_mtu s; peer_configuration_received = true }

u16_again : (w : ℕ) → w < 65536 → u16_from_le (w % 256) (w / 256 % 256) ≡ w
u16_again w h = omega arith

abbrev accepted_option : ConfigurationOption → Negotiation → Negotiation
accepted_option o n = record n { response_options = n.response_options ++ o ∷ [] }

take_mtu_option :
    (mtu : ℕ) (n : Negotiation)
    → 48 ≤ mtu
    → mtu < 65536
    → take_option (Configuration.new option_mtu (u16_to_le mtu)) n
      ≡ continue (
          accepted_option
            (Configuration.new option_mtu (u16_to_le mtu))
            (record n { channel = record n.channel { peer_mtu = mtu } }))
unfolding take_option take_mtu Configuration.new
take_mtu_option mtu n low high = rw (u16_again mtu high, le→ltb mtu 48 low) refl

is_acceptable :
    (s : ErtmChannelSpec)
    → SpecIsValid (ertm s)
    → is_unacceptable (parameters s) mode_enhanced ≡ false
unfolding is_unacceptable
is_acceptable s h = ground arith

take_ertm_option :
    (s : ErtmChannelSpec) (n : Negotiation)
    → SpecIsValid (ertm s)
    → s.mps < 65536
    → n.channel.mode ≡ enhanced_retransmission
    → take_option (Configuration.new option_retransmission (encode_ertm_option s)) n
      ≡ continue (
          accepted_option
            (Configuration.new option_retransmission (encode_ertm_option s))
            (record n { peer_ertm = some (parameters s) }))
unfolding take_option take_ertm decode_ertm_option encode_ertm_option Configuration.new
take_ertm_option s n h width mode =
    let test : is_unacceptable (parameters s) (expected_mode n.channel.mode) ≡ false =
      ap (λ m. is_unacceptable (parameters s) (expected_mode m)) mode ∙ is_acceptable s h in
    rw (u16_again s.mps width) (if_not _ _ _ test)

take_continue :
    (o : ConfigurationOption) (rest : List ConfigurationOption) (n n' : Negotiation)
    → take_option o n ≡ continue n'
    → take_options (o ∷ rest) n ≡ take_options rest n'
unfolding take_options
take_continue o rest n n' e =
    ap (λ p. elim p [ continue n'' ↦ take_options rest n'' | break n'' ↦ n'' ]) e

-- The state of the loop when every option is accepted.
abbrev pub offered_fcs : Bool → Option Bool
offered_fcs true = some true
offered_fcs false = none

abbrev pub fcs_options : Bool → List ConfigurationOption
fcs_options fcs = if fcs then Configuration.new option_fcs (1 ∷ []) ∷ [] else []

abbrev pub ertm_taken : ErtmChannelSpec → Bool → ClassicChannel → Negotiation
ertm_taken s fcs c = record {
  channel = record c { peer_mtu = s.mtu };
  result = 0;
  response_options =
      Configuration.new option_mtu (u16_to_le s.mtu)
      ∷ Configuration.new option_retransmission (encode_ertm_option s)
      ∷ fcs_options fcs;
  peer_ertm = some (parameters s);
  peer_fcs = offered_fcs fcs;
}

take_fcs_options :
    (s : ErtmChannelSpec) (fcs : Bool) (c : ClassicChannel)
    → take_options (fcs_options fcs) (record (ertm_taken s false c) { peer_fcs = none })
      ≡ ertm_taken s fcs c
unfolding take_options take_option take_fcs Configuration.new
take_fcs_options s true c = refl
take_fcs_options s false c = refl

pub take_ertm_request :
    (s : ErtmChannelSpec) (c : ClassicChannel)
    → SpecIsValid (ertm s)
    → HasWidths (ertm s)
    → c.mode ≡ enhanced_retransmission
    → take_options (request_options (ertm s)) (negotiation c) ≡ ertm_taken s s.fcs_enabled c
unfolding request_options ertm_options negotiation
take_ertm_request s c h w mode =
    take_continue (Configuration.new option_mtu (u16_to_le s.mtu)) _ (negotiation c) _
      (take_mtu_option s.mtu (negotiation c) h.0 w.0)
    ∙ take_continue (Configuration.new option_retransmission (encode_ertm_option s)) _ _ _
        (take_ertm_option s _ h w.1 mode)
    ∙ take_fcs_options s s.fcs_enabled c

pub take_basic_request :
    (s : ClassicChannelSpec) (c : ClassicChannel)
    → SpecIsValid (basic s)
    → s.mtu < 65536
    → take_options (request_options (basic s)) (negotiation c) ≡ record {
      channel = record c { peer_mtu = s.mtu };
      result = 0;
      response_options = request_options (basic s);
      peer_ertm = none;
      peer_fcs = none;
    }
unfolding request_options ertm_options negotiation take_options
take_basic_request s c h w =
    take_continue (Configuration.new option_mtu (u16_to_le s.mtu)) [] (negotiation c) _
      (take_mtu_option s.mtu (negotiation c) h w)
