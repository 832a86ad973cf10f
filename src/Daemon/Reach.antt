-- ===== src/Daemon/Reach.antt =====
-- What reaches the firewall through the whole read-only daemon: the listener, the session and the
-- controller, src/core/controller, over the activation service of src/daemon/main.cpp with the
-- policy of src/core/daemon/read_only_activation_policy.cpp.
use sasd_gatehold.Prelude.{
  ℕ, ◌≡◌, ◌⊎◌, inl, inr, refl, ap, Bool, Option, none, some, ◌∙◌, false, List, arith, String,
}
use sasd_gatehold.Text.{Bytes}
use sasd_gatehold.Host.{Os, World, Disk}
use sasd_gatehold.Logging.Event.{Severity}
use sasd_gatehold.Logging.Journal.{append-quiet}
use sasd_gatehold.Firewall.Activation.Types.{ActivationStatus, ActivationRequest, ActivationResult}
use sasd_gatehold.Firewall.Activation.Service as Activation
use sasd_gatehold.Controller.Privileged.Defs as Controller
use sasd_gatehold.Controller.Privileged.Defs.{
  ControllerState, ready, read_only, is_ready, is_rollback_failed, note, judge_activation,
}
use sasd_gatehold.Controller.Privileged.States.{activate-rejected}
use sasd_gatehold.Controller.Protocol.Session.Defs.{PeerCredentialPolicy}
use sasd_gatehold.Controller.Listener.Serve.{Round, LocalControllerListener, serve_one}
use sasd_gatehold.Controller.Listener.Gate.{serve_one-Admitted}
use sasd_gatehold.Controller.Listener.Defs.{ControllerConnectionAcceptor}
use sasd_gatehold.Controller.Service.Defs.{ControllerServiceConfig}
use sasd_gatehold.Controller.Service.Loop.{Loop, loop}
use sasd_gatehold.Controller.Service.Effect.{Kept, Leaves, loop-Leaves}
use sasd_gatehold.Daemon.ReadOnly.{read_only_service, Refusal, activate-Refused}

-- The state of the controller when the loop has ended; `c` where its fuel is spent.
abbrev pub controller_after : {L : Type 0} → ControllerState → Option (Loop L) → ControllerState
controller_after c none = c
controller_after c (some s) = s.shared.0

module _ (os : Os) where
  -- The disk and the disks passed through are as before, and the state is as before or read-only.
  abbrev pub Harmless : World → ControllerState → World → ControllerState → Type 0
  Harmless w c w' c' =
      (w'.disk ≡ w.disk) × (w'.past ≡ w.past) × ((c' ≡ c) ⊎ (c' ≡ ControllerState.read_only))

  Harmless-trans :
      (w v u : World) (c c' : ControllerState)
      → (v.disk ≡ w.disk) × (v.past ≡ w.past)
      → Harmless v c u c'
      → Harmless w c u c'
  Harmless-trans w v u c c' (d, p) (d', p', s) = (d' ∙ d, p' ∙ p, s)

  note-quiet :
      (s : Severity) (id : String) (operation : Bytes) (action outcome words : String)
      (state : ControllerState) (w : World)
      → let w' = (note os s id operation action outcome words state w).1 in
        (w'.disk ≡ w.disk) × (w'.past ≡ w.past)
  unfolding note
  note-quiet s id operation action outcome words state w = append-quiet os _ _

  Refusal-status :
      (request : ActivationRequest) (w : World) (valid : Bool) (status : ActivationStatus)
      → Refusal os request w valid status
      → is_rollback_failed status ≡ false
  Refusal-status request w valid status h = ground arith

  module _ (request : ActivationRequest) where
    judge_activation-Harmless :
        (a : ActivationResult) (w : World)
        → is_rollback_failed a.status ≡ false
        → let x = judge_activation os read_only_service request a w in
          Harmless w ControllerState.ready x.1 x.0.state
    unfolding judge_activation
    judge_activation-Harmless a w h = grind (arith, note-quiet)

    activate-Harmless :
        (c : ControllerState) (w : World)
        → let x = Controller.activate os read_only_service request c w in Harmless w c x.1 x.0.state
    unfolding Controller.activate
    activate-Harmless ControllerState.ready w =
        let s = Activation.activate os read_only_service request w in
        let (idle, r) = activate-Refused os request w in
        let x = judge_activation os read_only_service request s.result s.world in
        Harmless-trans w s.world x.1 ControllerState.ready x.0.state (idle.0, idle.1)
          (judge_activation-Harmless s.result s.world (Refusal-status request w _ _ r))
    activate-Harmless c w =
        let (s, _, d, p) = activate-rejected os read_only_service request c w refl in (d, p, inl s)

  -- Whatever connections, failures and interruptions an admission of the read-only daemon meets,
  -- and whatever the state of the controller: the disk and the disks passed through are as they
  -- were, and the state of the controller is as it was or read-only.
  pub serve_one-Harmless :
      (policy : PeerCredentialPolicy) (ticks : ℕ) (rs : List Round) (accept_timeout t : ℕ)
      (c : ControllerState) (l : LocalControllerListener) (w : World)
      → let x = serve_one os read_only_service policy ticks rs accept_timeout t (c, l) w in
        Harmless w c x.1 x.0.1.0
  serve_one-Harmless policy ticks rs accept_timeout t c l w =
      elim (serve_one-Admitted os read_only_service policy ticks rs accept_timeout t c l w) [
        | inl (d, p, s) ↦ (d, p, inl s)
        | inr (_, _, _, _, a) ↦
            let g = a.dispatched in
            let i = g.activates in
            let h = activate-Harmless i.activation c i.before in
            (
              ap (λ v. v.disk) a.world ∙ i.left.0 ∙ h.0 ∙ i.disk ∙ g.disk,
              ap (λ v. v.past) a.world ∙ i.left.1 ∙ h.1 ∙ i.past ∙ g.past,
              elim h.2 [
                | inl e ↦ inl (a.state ∙ i.left.2 ∙ e)
                | inr e ↦ inr (a.state ∙ i.left.2 ∙ e)
              ],
            )
      ]

  -- Each admission of a listener is one of the source's listener, over some connections and a
  -- read-only daemon.
  abbrev pub Serves : {L : Type 0} → ControllerConnectionAcceptor L → Type 0
  Serves {L} acceptor =
      (p q : ℕ) (x : ControllerState × L) (w : World)
      → (policy : PeerCredentialPolicy) × (ticks : ℕ) × (rs : List Round)
        × (l : LocalControllerListener) × let y =
              serve_one os read_only_service policy ticks rs p q (x.0, l) w in
            let z = acceptor.serve_one p q x w in (z.1 ≡ y.1) × (z.0.1.0 ≡ y.0.1.0)

  module _ {L : Type 0} (acceptor : ControllerConnectionAcceptor L)
      (config : ControllerServiceConfig) (serves : Serves acceptor) where
    abbrev Reached : World → ControllerState → Disk → List Disk → ControllerState → Type 0
    Reached w c d past c' =
        (d ≡ w.disk) × (past ≡ w.past) × ((c' ≡ c) ⊎ (c' ≡ ControllerState.read_only))

    serve_one-Kept : (w : World) (c : ControllerState) → Kept os acceptor config (Reached w c)
    serve_one-Kept w c p q x v (d, past, s) =
        let (policy, ticks, rs, l, same) = serves p q x v in
        let h = serve_one-Harmless policy ticks rs p q x.0 l v in
        (
          ap (λ u. u.disk) same.0 ∙ h.0 ∙ d,
          ap (λ u. u.past) same.0 ∙ h.1 ∙ past,
          elim h.2 [
            | inr e ↦ inr (same.1 ∙ e)
            | inl e ↦ elim s [ inl e' ↦ inl (same.1 ∙ e ∙ e') | inr e' ↦ inr (same.1 ∙ e ∙ e') ]
          ],
        )

    -- The admission loop of the service, over a listener whose admissions are admissions of the
    -- source's listener in the read-only daemon: after any number of rounds, the disk and the
    -- disks passed through are as they were when the loop began, and the state of the controller
    -- is as it was or read-only; where the fuel is spent, only the disks are spoken of.
    pub loop-Harmless :
        (stops : ℕ → Bool) (fuel n : ℕ) (s : Loop L) (w : World)
        → let r = loop os acceptor config stops fuel n s w in
          Harmless w s.shared.0 r.1 (controller_after s.shared.0 r.0)
    loop-Harmless stops fuel n s w = settle (loop os acceptor config stops fuel n s w) (
        loop-Leaves os acceptor config (Reached w s.shared.0) stops fuel n s w
          (serve_one-Kept w s.shared.0) (refl, refl, inl refl))
      where
        settle :
            (x : Option (Loop L) × World)
            → Leaves os acceptor config (Reached w s.shared.0) x
            → Harmless w s.shared.0 x.1 (controller_after s.shared.0 x.0)
        settle (none, v) h = (h.1.0, h.1.1, inl refl)
        settle (some s', v) h = h
