-- ===== src/L2cap/Ertm/State.antt =====
-- The state of the ERTM engine of src/l2cap/ertm.rs, its configuration, sequence arithmetic, and the
-- actions on the state.
use Prim.Native.Nat.{min}
use swbt_bumble_backend.Base.{
  ℕ, ◌+◌, ◌-◌, ◌%◌, ◌^◌, Bool, false, ◌||◌, ◌&&◌, not, Option, none, some, List, [], ◌++◌, ltb, leb,
  ◌==◌, u16_to_le, Result, ok, err, ◌>>=◌, ◌>>◌, fail_if,
}
use swbt_bumble_backend.L2cap.{
  Error, invalid_packet, zero_mtu, zero_mps, window_out_of_range, zero_timeout,
}
use swbt_bumble_backend.L2cap.Ertm.Control.{
  SegmentationAndReassembly, information, to_bytes, ertm_sequence_modulus,
}

pub record ErtmConfig : Type 0 where
  pub local_mtu : ℕ
  pub peer_mtu : ℕ
  pub local_mps : ℕ
  pub peer_mps : ℕ
  pub tx_window_size : ℕ
  -- Zero means no limit.
  pub max_retransmissions : ℕ
  pub retransmission_timeout_ticks : ℕ

unfoldable pub default_config : ErtmConfig
default_config = record {
  local_mtu = 2048;
  peer_mtu = 2048;
  local_mps = 1010;
  peer_mps = 1010;
  tx_window_size = 63;
  max_retransmissions = 0;
  retransmission_timeout_ticks = 2000;
}

unfoldable pub validate : ErtmConfig → Result Error ErtmConfig
validate c = do
  fail_if (c.local_mtu == 0 || c.peer_mtu == 0) (invalid_packet zero_mtu)
  fail_if (c.local_mps == 0 || c.peer_mps == 0) (invalid_packet zero_mps)
  fail_if (not (leb 1 c.tx_window_size && ltb c.tx_window_size ertm_sequence_modulus))
      (invalid_packet window_out_of_range)
  fail_if (c.retransmission_timeout_ticks == 0) (invalid_packet zero_timeout)
  ok c

pub record PendingFrame : Type 0 where
  pub payload : List ℕ
  pub tx_seq : ℕ
  pub sar : SegmentationAndReassembly
  pub sdu_length : Option ℕ

-- The two bytes of the SDU length, in a start frame.
unfoldable pub length_bytes : Option ℕ → List ℕ
length_bytes none = []
length_bytes (some n) = u16_to_le n

-- `PendingFrame::encode`.
unfoldable pub encode : PendingFrame → ℕ → Bool → Result Error (List ℕ)
unfolding length_bytes
encode f request final_bit = do
  control ← to_bytes (information f.tx_seq final_bit request f.sar)
  ok (control ++ (length_bytes f.sdu_length ++ f.payload))

pub record TransmittedFrame : Type 0 where
  pub frame : PendingFrame
  pub transmissions : ℕ

pub record ErtmEngine : Type 0 where
  pub config : ErtmConfig
  pub pending : List PendingFrame
  pub tx_window : List TransmittedFrame
  pub outbound : List (List ℕ)
  pub received : List (List ℕ)
  pub next_tx_seq : ℕ
  pub last_acked_tx_seq : ℕ
  pub expected_tx_seq : ℕ
  pub last_acked_rx_seq : ℕ
  pub remote_busy : Bool
  pub local_busy : Bool
  pub input_sdu : List ℕ
  pub input_sdu_length : Option ℕ
  pub now : ℕ
  pub retransmission_deadline : Option ℕ
  pub failed : Bool

-- The body of `new`, behind the validation.
unfoldable pub initial : ErtmConfig → ErtmEngine
initial c = record {
  config = c;
  pending = [];
  tx_window = [];
  outbound = [];
  received = [];
  next_tx_seq = 0;
  last_acked_tx_seq = 0;
  expected_tx_seq = 0;
  last_acked_rx_seq = 0;
  remote_busy = false;
  local_busy = false;
  input_sdu = [];
  input_sdu_length = none;
  now = 0;
  retransmission_deadline = none;
  failed = false;
}

-- `ErtmEngine::new`.
unfoldable pub new : ErtmConfig → Result Error ErtmEngine
unfolding validate initial
new config = do c ← validate config; ok (initial c)

-- `wrapping_add` and `wrapping_sub` are on bytes.
unfoldable pub sequence_add : ℕ → ℕ → ℕ
sequence_add sequence delta = (sequence + delta) % 256 % ertm_sequence_modulus

unfoldable pub sequence_distance : ℕ → ℕ → ℕ
sequence_distance from to =
    ((to + ertm_sequence_modulus) % 256 + 256 - from) % 256 % ertm_sequence_modulus

-- `u64::saturating_add`.
abbrev pub saturating_add : ℕ → ℕ → ℕ
saturating_add a b = min (a + b) (2 ^ 64 - 1)

-- A method on `&mut self`: the state comes back after an error too, as far as it was written.
abbrev pub Action : Type 0
Action = ErtmEngine → ErtmEngine × Result Error (Unit {0})

abbrev pub done : Action
done e = (e, ok tt)

abbrev pub raise : Error → Action
raise x e = (e, err x)

-- `first?; second`.
infixr 5 ◌then_do◌
abbrev pub ◌then_do◌ : Action → Action → Action
◌then_do◌ first second e =
    let (e', r) = first e in elim r [ ok _ ↦ second e' | err x ↦ (e', err x) ]
