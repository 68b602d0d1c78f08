-- ===== src/L2cap/Ertm/Sending/Operations.antt =====
-- The operations of `ErtmEngine` (src/l2cap/ertm.rs) keep the sending half's invariant.
use swbt_bumble_backend.Base.{
  ℕ, inl, inr, refl, sym, ◌∙◌, Bool, true, false, not, ◌&&◌, length, Result, ok, err, ◌==◌,
  Bool-cases, if◌then◌else◌,
}
use mathlib.Core.Path.{subst}
use swbt_bumble_backend.L2cap.{Error, invalid_packet, engine_failed}
use swbt_bumble_backend.L2cap.Ertm.Control.{receiver_ready, receiver_not_ready}
use swbt_bumble_backend.L2cap.Ertm.State.{ErtmEngine, Action, done, ◌then_do◌, saturating_add}
use swbt_bumble_backend.L2cap.Ertm.Output.{process_output, retransmit_all, send_supervisory}
use swbt_bumble_backend.L2cap.Ertm.Engine.{
  ensure_active, busy_changes, set_busy, set_receiver_busy, is_due, advance, tick,
}
use swbt_bumble_backend.L2cap.Ertm.Sending.{IsReady, Keeps, unrelated-IsReady}
use swbt_bumble_backend.L2cap.Ertm.Sending.Window.{process_output_lem}
use swbt_bumble_backend.L2cap.Ertm.Sending.Retransmit.{retransmit_all-Keeps}
use swbt_bumble_backend.L2cap.Ertm.Sending.SelectiveReject.{send_supervisory-Keeps}

next-holds :
    (P : ErtmEngine → Type 0) (p : ErtmEngine × Result Error (Unit {0})) (second : Action)
    (e : ErtmEngine)
    → P p.0
    → ((e' : ErtmEngine) → P e' → P (second e').0)
    → P (((λ _. p) then_do second) e).0
next-holds P (e', ok u) second e h k = k e' h
next-holds P (e', err x) second e h k = h

-- What the first action brings about and the second one keeps holds after both.
pub then_do-holds :
    (P : ErtmEngine → Type 0) (first second : Action) (e : ErtmEngine)
    → P (first e).0
    → ((e' : ErtmEngine) → P e' → P (second e').0)
    → P ((first then_do second) e).0
then_do-holds P first second e h k = next-holds P (first e) second e h k

-- What both branches of a test bring about.
pub if-holds :
    (P : ErtmEngine → Type 0) (b : Bool) (p q : ErtmEngine × Result Error (Unit {0}))
    → P p.0
    → P q.0
    → P (if b then p else q).0
if-holds P true p q h k = h
if-holds P false p q h k = k

-- An action that keeps a ready state ready, and every frame in its place.
abbrev pub KeepsFrames : Action → Type 0
KeepsFrames action = (e : ErtmEngine) → IsReady e → Keeps e (action e).0

pub Keeps-trans : (a b c : ErtmEngine) → Keeps a b → Keeps b c → Keeps a c
Keeps-trans a b c h k = (k.0, k.1 ∙ h.1)

pub kept_then :
    (first second : Action)
    → KeepsFrames first
    → KeepsFrames second
    → KeepsFrames (first then_do second)
kept_then first second h k e ready =
    then_do-holds (Keeps e) first second e (h e ready)
      (λ e' kept. Keeps-trans e e' (second e').0 kept (k e' kept.0))

pub kept_if :
    (b : Bool) (first second : Action)
    → KeepsFrames first
    → KeepsFrames second
    → KeepsFrames (λ e. if b then first e else second e)
kept_if true first second h k = h
kept_if false first second h k = k

pub done-Keeps : KeepsFrames done
done-Keeps e ready = (ready, refl)

pub process_output-Keeps : KeepsFrames process_output
process_output-Keeps e ready =
    let (sends, armed, full) = process_output_lem e ready.0 ready.1 in ((sends.1, armed), sends.2)

ensure_active-Keeps : KeepsFrames ensure_active
unfolding ensure_active
ensure_active-Keeps e ready = (ready, refl)

-- What holds of the state, and after the action, holds after the action behind the guard.
pub ensure_active-holds :
    (P : ErtmEngine → Type 0) (action : Action) (e : ErtmEngine)
    → P e
    → P (action e).0
    → P ((ensure_active then_do action) e).0
unfolding ensure_active
ensure_active-holds P action e h k =
    let outcome : Bool → ErtmEngine × Result Error (Unit {0}) = λ failed.
      ((λ _. (e, if failed then err (invalid_packet engine_failed) else ok tt)) then_do action) e in
    elim (Bool-cases e.failed) [
      | inl failed ↦ subst (λ b. P (outcome b).0) (sym failed) h
      | inr active ↦ subst (λ b. P (outcome b).0) (sym active) k
    ]

set_busy-Keeps : (busy : Bool) → KeepsFrames (set_busy busy)
unfolding set_busy
set_busy-Keeps busy e ready =
    let told : ErtmEngine = record e { local_busy = busy } in
    let function = if busy then receiver_not_ready else receiver_ready in
    if-holds (Keeps e) (busy_changes e.local_busy busy) (send_supervisory function false false told)
      (done e)
      (send_supervisory-Keeps function false false told
        (unrelated-IsReady e told e.expected_tx_seq ready.0.expected ready))
      (done-Keeps e ready)

-- `set_receiver_busy`, whether it succeeds or not, leaves the state ready and every frame in its
-- place.
pub set_receiver_busy-Keeps :
    (busy : Bool) (e : ErtmEngine) → IsReady e → Keeps e (set_receiver_busy busy e).0
unfolding set_receiver_busy
set_receiver_busy-Keeps busy =
    kept_then ensure_active (set_busy busy) ensure_active-Keeps (set_busy-Keeps busy)

advance-Keeps : (ticks : ℕ) → KeepsFrames (advance ticks)
unfolding advance
advance-Keeps ticks e ready =
    let later : ErtmEngine = record e { now = saturating_add e.now ticks } in
    let still = unrelated-IsReady e later e.expected_tx_seq ready.0.expected ready in
    if-holds (Keeps e)
      (is_due later.retransmission_deadline later.now && not (length later.tx_window == 0))
      (retransmit_all later) (done later) (retransmit_all-Keeps later still)
      (done-Keeps later still)

-- `tick`, whether or not the timer is due and whether or not the retransmission limit is reached,
-- leaves the state ready and every frame in its place.
pub tick-Keeps : (ticks : ℕ) (e : ErtmEngine) → IsReady e → Keeps e (tick ticks e).0
unfolding tick
tick-Keeps ticks = kept_then ensure_active (advance ticks) ensure_active-Keeps (advance-Keeps ticks)
