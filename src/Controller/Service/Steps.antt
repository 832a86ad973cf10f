-- ===== src/Controller/Service/Steps.antt =====
-- One test and one round of the admission loop, src/core/controller/controller_service.cpp.
use sasd_gatehold.Prelude.{ℕ, suc, ◌+◌, ◌≡◌, Bool, true, false, some, arith}
use sasd_gatehold.Host.{Os, World}
use sasd_gatehold.Controller.Listener.Defs.{ControllerConnectionAcceptor}
use sasd_gatehold.Controller.Service.Defs.{ControllerServiceConfig}
use sasd_gatehold.Controller.Service.Loop.{Loop, round, loop}

module _ {L : Type 0} (os : Os) (acceptor : ControllerConnectionAcceptor L)
    (config : ControllerServiceConfig) (stops : ℕ → Bool) (fuel n : ℕ) (s : Loop L)
    (w : World) where
  pub loop-stopped : stops n ≡ true → loop os acceptor config stops (suc fuel) n s w ≡ (some s, w)
  unfolding loop
  loop-stopped e = ground arith

  pub loop-left :
      stops n ≡ false
      → let r = round os acceptor config s w in
        r.0.0 ≡ true → loop os acceptor config stops (suc fuel) n s w ≡ (some r.0.1, r.1)
  unfolding loop
  loop-left e over = ground arith

  pub loop-goes_on :
      stops n ≡ false
      → let r = round os acceptor config s w in
        r.0.0 ≡ false
        → loop os acceptor config stops (suc fuel) n s w
          ≡ loop os acceptor config stops fuel (n + 1) r.0.1 r.1
  unfolding loop
  loop-goes_on e on = ground arith
