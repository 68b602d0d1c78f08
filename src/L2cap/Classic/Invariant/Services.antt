-- ===== src/L2cap/Classic/Invariant/Services.antt =====
-- Registration, connection and polling in src/l2cap/classic.rs keep the invariant.
use swbt_bumble_backend.Base.{
  ℕ, ◌≡◌, inl, refl, sym, arith, Option, none, some, List, [], ◌∷◌, All, lookup, Result, ok, err,
  OnOk, if_both,
}
use mathlib.Core.Path.{subst}
use swbt_bumble_backend.Base.OrderedMap.{contains_key, OnSome, insert-AllEntries, remove-AllEntries}
use swbt_bumble_backend.L2cap.{Error}
use swbt_bumble_backend.L2cap.Classic.{
  ClassicChannelSpec, ErtmChannelSpec, ChannelSpec, basic, ertm, ClassicChannelMode, basic_mode,
  enhanced_retransmission, ClassicChannel, ChannelManager, put_channel, next_identifier,
  allocate_cid, outgoing_channel,
}
use swbt_bumble_backend.L2cap.Classic.Validation.{validate_psm, validate_spec, validate_ertm_spec}
use swbt_bumble_backend.L2cap.Classic.Allocation.{allocate_cid_lem, IsFreeCid}
use swbt_bumble_backend.L2cap.Classic.Diagram.{Kept-refl, others-Kept, stay, Evolves}
use swbt_bumble_backend.L2cap.Classic.Manager.{
  request_information, chosen_psm, register_chosen, register_server_with_spec, behind,
  register_server, register_ertm_server, unregister_server, connect_from, connect_with_spec,
  connect, connect_ertm, behind_first, poll_accepted_channel, pop_found, pop_received,
}
use swbt_bumble_backend.L2cap.Classic.Invariant.{
  SpecIsValid, ServerIsValid, ReceivedFits, ChannelIsValid, CameIn, ManagerIsValid, Keeps,
}
use swbt_bumble_backend.L2cap.Classic.Invariant.Pieces.{
  Keeps-refl, Keeps-trans, found-IsValid, queue_control-Keeps, next_identifier-Keeps,
  put_channel-Keeps, put_found-Keeps,
}
use swbt_bumble_backend.L2cap.Classic.Invariant.Signals.{outgoing-IsValid}

behind-Keeps :
    {A : Type 0} {B : Type 0} (r : Result Error B)
    (next : ChannelManager → ChannelManager × Result Error A) (m : ChannelManager)
    → ManagerIsValid m
    → ((b : B) → r ≡ ok b → Keeps m (next m).0)
    → Keeps m (behind r next m).0
behind-Keeps (ok b) next m h k = k b refl
behind-Keeps (err x) next m h k = Keeps-refl m h

validate_spec_lem :
    (s : ClassicChannelSpec) (u : Unit {0}) → validate_spec s ≡ ok u → SpecIsValid (basic s)
unfolding validate_spec
validate_spec_lem s u h = ground arith

validate_ertm_spec_lem :
    (s : ErtmChannelSpec) (u : Unit {0}) → validate_ertm_spec s ≡ ok u → SpecIsValid (ertm s)
unfolding validate_ertm_spec validate_spec
validate_ertm_spec_lem s u h =
    (ground arith, ground arith, ground arith, ground arith, ground arith, ground arith)

register_chosen-Keeps :
    (spec : ChannelSpec) (r : Result Error ℕ) (m : ChannelManager)
    → SpecIsValid spec
    → ManagerIsValid m
    → Keeps m (register_chosen spec r m).0
unfolding register_chosen
register_chosen-Keeps spec (err x) m v h = Keeps-refl m h
register_chosen-Keeps spec (ok psm) m v h =
    if_both (λ (p : ChannelManager × Result Error ℕ). Keeps m p.0) (contains_key psm m.servers) _ _
      (λ _. Keeps-refl m h)
      λ _. record {
        valid = record {
          channels_valid = h.channels_valid;
          servers_valid = insert-AllEntries ServerIsValid psm spec m.servers h.servers_valid v;
          accepted_valid = h.accepted_valid;
          identifier_width = h.identifier_width;
        };
        evolves = (Keeps-refl m h).evolves;
      }

register-Keeps :
    (psm : Option ℕ) (spec : ChannelSpec) (m : ChannelManager)
    → SpecIsValid spec
    → ManagerIsValid m
    → Keeps m (register_server_with_spec psm spec m).0
unfolding register_server_with_spec
register-Keeps psm spec m v h = register_chosen-Keeps spec (chosen_psm psm m) m v h

outgoing_enters :
    (psm cid : ℕ) (spec : ChannelSpec) → Evolves none (some (outgoing_channel psm cid spec))
unfolding outgoing_channel
outgoing_enters psm cid spec = inl stay

same_channels : (m : ChannelManager) → (next_identifier m).channels ≡ m.channels
unfolding next_identifier
same_channels m = refl

connect_from-Keeps :
    (psm : ℕ) (spec : ChannelSpec) (r : Result Error ℕ) (m : ChannelManager)
    → SpecIsValid spec
    → OnOk (IsFreeCid m) r
    → ManagerIsValid m
    → Keeps m (connect_from psm spec r m).0
unfolding connect_from
connect_from-Keeps psm spec (err x) m v free h = Keeps-refl m h
connect_from-Keeps psm spec (ok cid) m v (low, high, free) h =
    let c = outgoing_channel psm cid spec in
    let n = next_identifier m in
    let numbered = next_identifier-Keeps m h in
    let still_free : lookup cid n.channels ≡ none = rw (same_channels m) free in
    let written =
      put_channel-Keeps cid c n numbered.valid
        (subst (λ o. Evolves o (some c)) (sym still_free) (outgoing_enters psm cid spec))
        (outgoing-IsValid psm cid spec (low, high) v) in
    Keeps-trans numbered
      (Keeps-trans written (queue_control-Keeps _ (put_channel cid c n) written.valid))

connect_with_spec-Keeps :
    (psm : ℕ) (spec : ChannelSpec) (m : ChannelManager)
    → SpecIsValid spec
    → ManagerIsValid m
    → Keeps m (connect_with_spec psm spec m).0
unfolding connect_with_spec
connect_with_spec-Keeps psm spec m v h =
    connect_from-Keeps psm spec (allocate_cid m) m v (allocate_cid_lem m) h

pub register_server-Keeps :
    (psm : Option ℕ) (spec : ClassicChannelSpec) (m : ChannelManager)
    → ManagerIsValid m
    → Keeps m (register_server psm spec m).0
unfolding register_server
register_server-Keeps psm spec m h =
    behind-Keeps (validate_spec spec) (register_server_with_spec psm (basic spec)) m h
      (λ u e. register-Keeps psm (basic spec) m (validate_spec_lem spec u e) h)

pub register_ertm_server-Keeps :
    (psm : Option ℕ) (spec : ErtmChannelSpec) (m : ChannelManager)
    → ManagerIsValid m
    → Keeps m (register_ertm_server psm spec m).0
unfolding register_ertm_server
register_ertm_server-Keeps psm spec m h =
    behind-Keeps (validate_ertm_spec spec) (register_server_with_spec psm (ertm spec)) m h
      (λ u e. register-Keeps psm (ertm spec) m (validate_ertm_spec_lem spec u e) h)

pub unregister_server-Keeps :
    (psm : ℕ) (m : ChannelManager) → ManagerIsValid m → Keeps m (unregister_server psm m).0
unfolding unregister_server
unregister_server-Keeps psm m h = record {
  valid = record {
    channels_valid = h.channels_valid;
    servers_valid = remove-AllEntries ServerIsValid psm m.servers h.servers_valid;
    accepted_valid = h.accepted_valid;
    identifier_width = h.identifier_width;
  };
  evolves = (Keeps-refl m h).evolves;
}

pub connect-Keeps :
    (psm : ℕ) (spec : ClassicChannelSpec) (m : ChannelManager)
    → ManagerIsValid m
    → Keeps m (connect psm spec m).0
unfolding connect
connect-Keeps psm spec m h = behind-Keeps (validate_psm psm) _ m h λ _ _.
    behind-Keeps (validate_spec spec) (connect_with_spec psm (basic spec)) m h
      (λ u e. connect_with_spec-Keeps psm (basic spec) m (validate_spec_lem spec u e) h)

pub connect_ertm-Keeps :
    (psm : ℕ) (spec : ErtmChannelSpec) (m : ChannelManager)
    → ManagerIsValid m
    → Keeps m (connect_ertm psm spec m).0
unfolding connect_ertm
connect_ertm-Keeps psm spec m h = behind-Keeps (validate_psm psm) _ m h λ _ _.
    behind-Keeps (validate_ertm_spec spec) (connect_with_spec psm (ertm spec)) m h
      (λ u e. connect_with_spec-Keeps psm (ertm spec) m (validate_ertm_spec_lem spec u e) h)

pub request_information-Keeps :
    (info_type : ℕ) (m : ChannelManager)
    → ManagerIsValid m
    → Keeps m (request_information info_type m).0
unfolding request_information
request_information-Keeps info_type m h =
    let numbered = next_identifier-Keeps m h in
    Keeps-trans numbered (queue_control-Keeps _ (next_identifier m) numbered.valid)

popped_fits :
    (mode : ClassicChannelMode) (mtu : ℕ) (received : List (List ℕ))
    → ReceivedFits mode mtu received
    → ReceivedFits mode mtu (behind_first received)
popped_fits basic_mode mtu [] h = tt
popped_fits basic_mode mtu (sdu ∷ rest) h = h.1
popped_fits enhanced_retransmission mtu received h = tt

pop_found-Keeps :
    (cid : ℕ) (o : Option ClassicChannel) (m : ChannelManager)
    → ManagerIsValid m
    → lookup cid m.channels ≡ o
    → Keeps m (pop_found cid o m).0
unfolding pop_found
pop_found-Keeps cid none m h here = Keeps-refl m h
pop_found-Keeps cid (some c) m h here =
    let v = subst (OnSome (ChannelIsValid cid)) here (found-IsValid cid m h) in
    let c' : ClassicChannel = record c { received = behind_first c.received } in
    put_found-Keeps cid c c' m h here (others-Kept c c c' (Kept-refl c)) (record {
      source = v.source;
      range = v.range;
      specified = v.specified;
      mode_valid = v.mode_valid;
      mtu_valid = v.mtu_valid;
      peer_mtu_valid = v.peer_mtu_valid;
      settled = v.settled;
      engine_valid = v.engine_valid;
      received_fits = popped_fits c.mode c.mtu c.received v.received_fits;
    })

pub pop_received-Keeps :
    (cid : ℕ) (m : ChannelManager) → ManagerIsValid m → Keeps m (pop_received cid m).0
unfolding pop_received
pop_received-Keeps cid m h = pop_found-Keeps cid (lookup cid m.channels) m h refl

behind_first-All : (P : ℕ → Type 0) (xs : List ℕ) → All P xs → All P (behind_first xs)
behind_first-All P [] h = tt
behind_first-All P (x ∷ xs) h = h.1

pub poll_accepted_channel-Keeps :
    (m : ChannelManager) → ManagerIsValid m → Keeps m (poll_accepted_channel m).0
unfolding poll_accepted_channel
poll_accepted_channel-Keeps m h = record {
  valid = record {
    channels_valid = h.channels_valid;
    servers_valid = h.servers_valid;
    accepted_valid =
        behind_first-All (λ cid. CameIn (lookup cid m.channels)) m.accepted_channels
          h.accepted_valid;
    identifier_width = h.identifier_width;
  };
  evolves = (Keeps-refl m h).evolves;
}
