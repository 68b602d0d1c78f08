-- ===== src/L2cap/Ertm/Sending/Sdu.antt =====
-- `send_sdu` of src/l2cap/ertm.rs: what it accepts, and what it then holds.
use swbt_bumble_backend.Base.{
  ℕ, ◌≤◌, ◌<◌, ◌≡◌, ◌⊎◌, inl, inr, refl, sym, ap, ◌∙◌, arith, Bool, true, false, List, [], ◌∷◌,
  ◌++◌, length, map, All, Result, ok, err, ltb, leb, ltb→lt, Bool-cases, if◌then◌else◌, chunks,
  concat, concat-chunks, IsChunk, chunks-IsChunk, none,
}
use mathlib.Core.List.{append-nil}
use mathlib.Core.Path.{subst}
use swbt_bumble_backend.L2cap.{Error, invalid_packet, engine_failed}
use swbt_bumble_backend.L2cap.Ertm.Control.{unsegmented}
use swbt_bumble_backend.L2cap.Ertm.State.{PendingFrame, ErtmEngine, ◌then_do◌, sequence_add}
use swbt_bumble_backend.L2cap.Ertm.Output.{process_output}
use swbt_bumble_backend.L2cap.Ertm.Engine.{
  ensure_active, push_frame, push_segments, send_active, send_sdu,
}
use swbt_bumble_backend.L2cap.Ertm.Order.{frames}
use swbt_bumble_backend.L2cap.Ertm.Sending.{IsReady}
use swbt_bumble_backend.L2cap.Ertm.Sending.Window.{process_output_lem}
use swbt_bumble_backend.L2cap.Ertm.Sending.Segments.{
  segment_frames, segment_frames-payload, with_pending-IsReady, push_segments-IsReady,
}

abbrev pub payloads : List PendingFrame → List (List ℕ)
payloads fs = map (λ (f : PendingFrame). f.payload) fs

-- The engine holds new frames behind the others, which carry the SDU in pieces of at most `mps`.
abbrev pub Carries : List ℕ → ErtmEngine → ErtmEngine → Type 0
Carries sdu e e' =
    (added : List PendingFrame) × (frames e' ≡ frames e ++ added)
    × (concat (payloads added) ≡ sdu)
    × All (λ payload. length payload ≤ e.config.peer_mps) (payloads added)

-- The outcomes of `send_sdu`.
abbrev pub Sent : List ℕ → ErtmEngine → ErtmEngine × Result Error (Unit {0}) → Type 0
Sent sdu e (e', ok _) = (e.failed ≡ false) × (length sdu ≤ e.config.peer_mtu) × Carries sdu e e'
Sent sdu e (e', err x) =
    (e' ≡ e) × ((e.failed ≡ true) ⊎ (e.config.peer_mtu < length sdu) ⊎ (65535 < length sdu))

accepted :
    (sdu : List ℕ) (e e' : ErtmEngine)
    → e.failed ≡ false
    → length sdu ≤ e.config.peer_mtu
    → IsReady e'
    → Carries sdu e e'
    → IsReady (process_output e').0 × Sent sdu e (process_output e')
accepted sdu e e' active fits ready (added, behind, whole, short) =
    let (sends, armed, full) = process_output_lem e' ready.0 ready.1 in
    let outcome : Result Error (Unit {0}) → Type 0 = λ r. Sent sdu e ((process_output e').0, r) in
    (
      (sends.1, armed),
      subst outcome (sym sends.0) (active, fits, (added, sends.2 ∙ behind, whole, short)),
    )

send_whole-Carries :
    (sdu : List ℕ) (e : ErtmEngine)
    → IsReady e
    → length sdu ≤ e.config.peer_mps
    → IsReady (push_frame sdu unsegmented none e)
      × Carries sdu e (push_frame sdu unsegmented none e)
unfolding push_frame
send_whole-Carries sdu e ready small =
    let f : PendingFrame = record {
      payload = sdu;
      tx_seq = e.next_tx_seq;
      sar = unsegmented;
      sdu_length = none;
    } in
    let (still, behind) =
      with_pending-IsReady (f ∷ []) (sequence_add e.next_tx_seq 1) e (refl, refl) ready in
    (still, (f ∷ [], behind, append-nil sdu, (small, tt)))

chunks-short : (n : ℕ) (cs : List (List ℕ)) → All (IsChunk n) cs → All (λ c. length c ≤ n) cs
chunks-short n [] h = tt
chunks-short n (c ∷ cs) h = (h.0.1, chunks-short n cs h.1)

send_pieces-Carries :
    (sdu : List ℕ) (e : ErtmEngine)
    → IsReady e
    → let e' = push_segments e.config.peer_mps (length sdu) 0 (chunks e.config.peer_mps sdu) e in
      IsReady e' × Carries sdu e e'
send_pieces-Carries sdu e ready =
    let mps = e.config.peer_mps in
    let cs = chunks mps sdu in
    let (still, behind) = push_segments-IsReady mps (length sdu) cs e ready in
    let same = segment_frames-payload e.next_tx_seq mps (length sdu) 0 cs in
    (
      still,
      (
        segment_frames e.next_tx_seq mps (length sdu) 0 cs,
        behind,
        ap concat same ∙ concat-chunks mps sdu ready.0.mps,
        subst (All (λ payload. length payload ≤ mps)) (sym same)
            (chunks-short mps cs (chunks-IsChunk mps sdu ready.0.mps)),
      ),
    )

send_active_lem :
    (sdu : List ℕ) (e : ErtmEngine)
    → IsReady e
    → e.failed ≡ false
    → IsReady (send_active sdu e).0 × Sent sdu e (send_active sdu e)
unfolding send_active
send_active_lem sdu e ready active =
    let mps = e.config.peer_mps in
    let pieces = push_segments mps (length sdu) 0 (chunks mps sdu) e in
    elim (Bool-cases (ltb e.config.peer_mtu (length sdu))) [
      | inl large ↦ rw large (ready, (refl, inr (inl (ltb→lt _ _ large))))
      | inr fits ↦
          let within : length sdu ≤ e.config.peer_mtu = ground arith in
          elim (Bool-cases (leb (length sdu) mps)) [
            | inl small ↦
                let (still, carries) = send_whole-Carries sdu e ready (ground arith) in
                rw (fits, small)
                  (accepted sdu e (push_frame sdu unsegmented none e) active within still carries)
            | inr several ↦ elim (Bool-cases (ltb 65535 (length sdu))) [
              | inl wide ↦ rw (fits, several, wide) (ready, (refl, inr (inr (ltb→lt _ _ wide))))
              | inr narrow ↦
                  let (still, carries) = send_pieces-Carries sdu e ready in
                  rw (fits, several, narrow) (accepted sdu e pieces active within still carries)
            ]
          ]
    ]

-- `send_sdu` leaves a ready engine ready. If it succeeds, the SDU was within the peer's MTU, and
-- behind the frames that were held there are new ones whose payloads, none larger than the peer's
-- MPS, are together the SDU. If it fails nothing has changed, and the engine had failed before or
-- the SDU is larger than the peer's MTU or 65535 bytes.
pub send_sdu_lem :
    (sdu : List ℕ) (e : ErtmEngine)
    → IsReady e
    → IsReady (send_sdu sdu e).0 × Sent sdu e (send_sdu sdu e)
unfolding send_sdu ensure_active
send_sdu_lem sdu e ready =
    let outcome : Bool → ErtmEngine × Result Error (Unit {0}) = λ failed.
      ((λ _. (e, if failed then err (invalid_packet engine_failed) else ok tt))
          then_do send_active sdu)
        e in
    let P : ErtmEngine × Result Error (Unit {0}) → Type 0 = λ p. IsReady p.0 × Sent sdu e p in
    elim (Bool-cases e.failed) [
      | inl failed ↦ subst (λ b. P (outcome b)) (sym failed) (ready, (refl, inl failed))
      | inr active ↦ subst (λ b. P (outcome b)) (sym active) (send_active_lem sdu e ready active)
    ]
