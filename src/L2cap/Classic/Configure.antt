-- ===== src/L2cap/Classic/Configure.antt =====
-- The configuration of a channel in src/l2cap/classic.rs: the request that each side sends, the
-- answer to the peer's, and the opening of the channel when both are settled.
use swbt_bumble_backend.Base.{
  ℕ, Bool, true, ◌||◌, ◌&&◌, not, Option, none, some, List, [], ◌∷◌, ◌++◌, lookup, Result, ok, err,
  if◌then◌else◌, ◌==◌,
}
use swbt_bumble_backend.L2cap.{
  Error, invalid_packet, channel_not_found, unknown_configuration_request,
  unknown_configuration_response,
}
use swbt_bumble_backend.L2cap.Configuration.{
  ConfigurationOption, encode_configuration_options, decode_configuration_options,
}
use swbt_bumble_backend.L2cap.Signaling.{configure_request, configure_response}
use swbt_bumble_backend.L2cap.Classic.{
  ClassicChannel, ChannelManager, Action, put_channel, queue_control, next_identifier, closed,
  opened, is_configuring,
}
use swbt_bumble_backend.L2cap.Classic.Options.{
  request_options, Negotiation, negotiation, take_options,
}
use swbt_bumble_backend.L2cap.Classic.Settlement.{finish}

-- The identifier is taken before the options are encoded.
unfoldable pub queue_encoded : ℕ → Result Error (List ℕ) → Action (Unit {0})
unfolding queue_control
queue_encoded remote (ok options) m =
    (queue_control (configure_request m.identifier remote 0 options) m, ok tt)
queue_encoded remote (err x) m = (m, err x)

unfoldable pub queue_configure_found : ℕ → Option ClassicChannel → Action (Unit {0})
unfolding queue_encoded next_identifier request_options encode_configuration_options
queue_configure_found cid none m = (m, err (invalid_packet (channel_not_found cid)))
queue_configure_found cid (some c) m =
    queue_encoded c.destination_cid (encode_configuration_options (request_options c.spec))
      (next_identifier m)

unfoldable pub queue_configure_request : ℕ → Action (Unit {0})
unfolding queue_configure_found
queue_configure_request cid m = queue_configure_found cid (lookup cid m.channels) m

abbrev pub is_settled : ClassicChannel → Bool
is_settled c =
    c.peer_configuration_received && c.configuration_response_received && is_configuring c.state

abbrev pub must_announce : ClassicChannel → Bool
must_announce c = c.incoming && not c.open_announced

unfoldable pub open_channel : ℕ → ClassicChannel → ChannelManager → ChannelManager
unfolding put_channel
open_channel cid c m =
    let opened_channel = record c {
      state = opened;
      open_announced = c.open_announced || must_announce c;
    } in
    record (put_channel cid opened_channel m) {
      accepted_channels =
          if must_announce c then m.accepted_channels ++ cid ∷ [] else m.accepted_channels;
    }

unfoldable pub maybe_open_found : ℕ → Option ClassicChannel → ChannelManager → ChannelManager
unfolding open_channel
maybe_open_found cid none m = m
maybe_open_found cid (some c) m = if is_settled c then open_channel cid c m else m

unfoldable pub maybe_open : ℕ → ChannelManager → ChannelManager
unfolding maybe_open_found
maybe_open cid m = maybe_open_found cid (lookup cid m.channels) m

-- The answer carries the options that were accepted, or those that were not.
unfoldable pub answer_encoded :
    (identifier cid remote result : ℕ) → Result Error (List ℕ) → Action (Unit {0})
unfolding maybe_open queue_control
answer_encoded identifier cid remote result (ok options) m = (
  maybe_open cid (queue_control (configure_response identifier remote 0 result options) m),
  ok tt,
)
answer_encoded identifier cid remote result (err x) m = (m, err x)

unfoldable pub answer_configuration :
    (identifier cid remote : ℕ) → Negotiation × Result Error (Unit {0}) → Action (Unit {0})
unfolding answer_encoded put_channel encode_configuration_options
answer_configuration identifier cid remote (n, ok _) m =
    answer_encoded identifier cid remote n.result (encode_configuration_options n.response_options)
      (put_channel cid n.channel m)
answer_configuration identifier cid remote (n, err x) m = (put_channel cid n.channel m, err x)

unfoldable pub configure_found :
    (identifier cid flags : ℕ)
    → List ConfigurationOption
    → Option ClassicChannel
    → Action (Unit {0})
unfolding answer_configuration finish take_options negotiation
configure_found identifier cid flags options none m =
    (m, err (invalid_packet (unknown_configuration_request cid)))
configure_found identifier cid flags options (some c) m =
    answer_configuration identifier cid c.destination_cid
      (finish flags (take_options options (negotiation c))) m

unfoldable pub configure_decoded :
    (identifier cid flags : ℕ) → Result Error (List ConfigurationOption) → Action (Unit {0})
unfolding configure_found
configure_decoded identifier cid flags (ok options) m =
    configure_found identifier cid flags options (lookup cid m.channels) m
configure_decoded identifier cid flags (err x) m = (m, err x)

unfoldable pub on_configure_request : (identifier cid flags : ℕ) → List ℕ → Action (Unit {0})
unfolding configure_decoded decode_configuration_options
on_configure_request identifier cid flags encoded =
    configure_decoded identifier cid flags (decode_configuration_options encoded)

unfoldable pub answered_channel : ℕ → ClassicChannel → ClassicChannel
answered_channel result c =
    if result == 0
    then record c { configuration_response_received = true }
    else record c { connection_result = some result; state = closed }

unfoldable pub configured_found : ℕ → ℕ → Option ClassicChannel → Action (Unit {0})
unfolding answered_channel maybe_open put_channel
configured_found cid result none m = (m, err (invalid_packet (unknown_configuration_response cid)))
configured_found cid result (some c) m =
    (maybe_open cid (put_channel cid (answered_channel result c) m), ok tt)

unfoldable pub on_configure_response : ℕ → ℕ → Action (Unit {0})
unfolding configured_found
on_configure_response cid result m = configured_found cid result (lookup cid m.channels) m
