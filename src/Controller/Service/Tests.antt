-- ===== src/Controller/Service/Tests.antt =====
-- Runs of the controller service, and the theorems applied to them.
use sasd_gatehold.Prelude.{
  ℕ, ◌≡◌, ◌⊎◌, inl, refl, Bool, true, false, none, some, List, [], ◌∷◌, arith, is_some, ◌==◌,
  Option,
}
use sasd_gatehold.Firewall.Activation.Service as Run
use sasd_gatehold.Firewall.Activation.Admission as Admission
use sasd_gatehold.Firewall.Activation.Rollback as Undo
use sasd_gatehold.Firewall.Activation.Loading as Trial
use sasd_gatehold.Firewall.Activation.Flow as Flow
use sasd_gatehold.Firewall.Activation.Recovery as Recovery
use sasd_gatehold.Logging.Journal as Journal
use sasd_gatehold.Logging.Event as Event
use sasd_gatehold.Logging.Format.Defs as Format
use sasd_gatehold.Text as Text
use sasd_gatehold.Text.Decimal as Decimal
use sasd_gatehold.Firewall.Revision.Store as Revisions
use sasd_gatehold.Firewall.Pfctl.Run as Pfctl
use sasd_gatehold.Firewall.Transaction.Store as Transactions
use sasd_gatehold.Firewall.Transaction.Record as Record
use sasd_gatehold.Firewall.Activation.Events as Events
use sasd_gatehold.Controller.Privileged.Defs as Controller
use sasd_gatehold.Controller.Privileged.Defs.{ControllerState, is_ready}
use sasd_gatehold.Firewall.Activation.Recovered.{Recovered}
use sasd_gatehold.Host.{World}
use sasd_gatehold.Firewall.Tests.{calm_os, start, at_risk, crashed, crashed-Holds}
use sasd_gatehold.Controller.Listener.Defs as Listener
use sasd_gatehold.Controller.Listener.Defs.{
  LocalListenerStatus, LocalListenerResult, ControllerConnectionAcceptor,
}
use sasd_gatehold.Controller.Service.Defs as Service
use sasd_gatehold.Controller.Service.Defs.{
  ControllerServiceConfig, service_result, stopped, ControllerServiceResult,
}
use sasd_gatehold.Controller.Service.Loop as Loop
use sasd_gatehold.Controller.Service.Loop.{Loop, loop}
use sasd_gatehold.Controller.Service.Run as Serve
use sasd_gatehold.Controller.Service.Run.{ServiceRun, run}
use sasd_gatehold.Controller.Service.Bounds.{Running, Ended}
use sasd_gatehold.Controller.Service.History.{Tallied, Told, loop-Ended}
use sasd_gatehold.Controller.Service.Stopping.{Failing, GivenUp, loop-GivenUp, run-Returns}
use sasd_gatehold.Controller.Service.Startup.{Spares, Started, run-Recovered}

abbrev answer : LocalListenerStatus → LocalListenerResult
answer s = record { status = s; event_id = []; message = []; session = none }

-- A listener that plays the statuses of a list, and fails behind its end.
abbrev scripted : ControllerConnectionAcceptor (List LocalListenerStatus)
scripted = record {
  start = λ l w. ((answer Listener.listening, l), w);
  serve_one = λ p q x w. elim x.1 [
    | [] ↦ ((answer Listener.io_error, x), w)
    | s ∷ l ↦ ((answer s, (x.0, l)), w)
  ];
  stop = λ l w. ((answer Listener.stopped, l), w);
}

abbrev config : ControllerServiceConfig
config = record {
  accept_poll_interval = 250;
  session_io_timeout = 5000;
  maximum_consecutive_listener_errors = 3;
}

abbrev never : ℕ → Bool
never k = false

abbrev result : ControllerServiceResult
result = service_result stopped [] [] ControllerState.ready

abbrev opening : List LocalListenerStatus → Loop (List LocalListenerStatus)
opening l = record {
  output = result;
  consecutive_errors = 0;
  rate_limit_audited = false;
  shared = (ControllerState.ready, l);
}

opening-Running : (l : List LocalListenerStatus) → Running calm_os scripted config 3 (opening l)
opening-Running l = record {
  running = refl;
  failures = omega arith;
  errors = omega arith;
  below = omega arith;
}

abbrev script : List LocalListenerStatus
script =
    Listener.io_error ∷ Listener.session_completed ∷ Listener.rate_limited ∷ Listener.rate_limited
    ∷ Listener.accept_timed_out ∷ []

abbrev last : Option (Loop (List LocalListenerStatus)) → Loop (List LocalListenerStatus)
last none = opening []
last (some s) = s

abbrev closing : Loop (List LocalListenerStatus)
closing = last (loop calm_os scripted config never 9 1 (opening script) start).0

ends_by_errors :
    ((loop calm_os scripted config never 9 1 (opening script) start).0 ≡ some closing)
    × (closing.output.status ≡ Service.listener_failed)
    × (closing.output.listener_errors ≡ 4)
    × (closing.output.rate_limited_connections ≡ 2)
unfolding loop Loop.round Loop.judge_round Loop.count_admission Loop.after_rate_limit Service.note
    Service.service_event Journal.append Journal.has_required_fields Event.emplace Format.format
    Format.severity_text Format.escape_byte Format.escape Format.quoted Format.field
    Format.lowercase Format.starts_with Format.contains Format.any_within Format.is_sensitive_key
    Format.attribute_fields Text.text Text.eq_bytes Text.valid_identifier Decimal.to_string
    Decimal.from_chars Text.strip_prefix
ends_by_errors = (refl, refl, refl, refl)

opening-Tallied : Tallied [] (opening script)
opening-Tallied = record {
  sessions = refl;
  failures = refl;
  timeouts = refl;
  limited = refl;
  errors = refl;
  in_a_row = refl;
}

loop-Ended_example :
    Ended calm_os scripted config 3 closing
    × Told calm_os scripted config
        (opening script)
        start
        closing
        (loop calm_os scripted config never 9 1 (opening script) start).1
loop-Ended_example =
    loop-Ended calm_os scripted config never 9 1 (opening script) closing start refl
      (opening-Running script) opening-Tallied ends_by_errors.0

-- A listener that always fails.
abbrev broken : ControllerConnectionAcceptor (List LocalListenerStatus)
broken = record {
  start = λ l w. ((answer Listener.listening, l), w);
  serve_one = λ p q x w. ((answer Listener.io_error, x), w);
  stop = λ l w. ((answer Listener.stopped, l), w);
}

broken-Failing : Failing calm_os broken config
broken-Failing p q x w = refl

broken-Running : Running calm_os broken config 3 (opening [])
broken-Running = record {
  running = refl;
  failures = omega arith;
  errors = omega arith;
  below = omega arith;
}

loop-GivenUp_example :
    GivenUp calm_os broken config (loop calm_os broken config never 3 1 (opening []) start).0
loop-GivenUp_example =
    loop-GivenUp calm_os broken config never 3 1 (opening []) start refl broken-Failing (λ k. refl)
      broken-Running (omega arith)

run-Returns_example :
    is_some
      (run calm_os scripted config (λ k. k == 4) 4 false (ControllerState.created, script) start).0
    ≡ true
run-Returns_example =
    run-Returns calm_os scripted config (λ k. k == 4) 4 4 false ControllerState.created script start
      refl (omega arith)

abbrev careless : ControllerServiceConfig
careless = record {
  accept_poll_interval = 5;
  session_io_timeout = 5000;
  maximum_consecutive_listener_errors = 3;
}

abbrev recovery : Option (ServiceRun (List LocalListenerStatus))
recovery = (run calm_os scripted careless never 0 false (ControllerState.created, []) crashed).0

abbrev ended :
    Option (ServiceRun (List LocalListenerStatus)) → ServiceRun (List LocalListenerStatus)
ended none = record { result = result; controller = ControllerState.blocked; listener = [] }
ended (some x) = x

recovers_first : (recovery ≡ some (ended recovery)) × (is_ready (ended recovery).controller ≡ true)
unfolding Run.workflow Run.activate Run.carry_out Run.mark_target Run.commit_transaction
    Run.finish_commit Admission.check_request Admission.valid_request Admission.distinct_probes
    Admission.record_event Admission.audited Admission.authorize Admission.judge_authorization
    Admission.note_authorization Admission.resolve_previous Admission.choose_previous
    Admission.accept_previous Admission.refuse_previous Admission.resolve_target
    Admission.revalidate Undo.begin_transaction Undo.note_transaction Undo.announce_load
    Undo.clear_transaction Undo.abandon_transaction Undo.rollback_to_previous
    Undo.revalidate_previous Undo.reload_previous Undo.remark_previous Undo.restore_failed
    Undo.finish_rollback Trial.load_target Trial.advance_to Trial.run_probes Trial.run_probe
    Trial.confirm Trial.judge_confirmation Trial.note_confirmation Flow.◌>>=◌ Flow.pure Flow.lift
    Flow.asks Flow.assign Flow.return_with Flow.note_journal Flow.append Recovery.record_recovery
    Recovery.clear_pending Recovery.note_clear Recovery.report Recovery.clean_committed
    Recovery.recover_committed Recovery.clear_rolled_back Recovery.mark_rolled_back
    Recovery.load_rolled_back Recovery.recover_uncommitted Recovery.recover_transaction
    Recovery.dispatch_pending Recovery.recovery_workflow Recovery.recover_pending Journal.append
    Journal.has_required_fields Event.emplace Format.format Format.severity_text Format.escape_byte
    Format.escape Format.quoted Format.field Format.lowercase Format.starts_with Format.contains
    Format.any_within Format.is_sensitive_key Format.attribute_fields Text.text Text.eq_bytes
    Text.valid_identifier Decimal.to_string Decimal.from_chars Revisions.last_known_good
    Revisions.usable_root Revisions.find_marker Revisions.read_marker Revisions.parse_marker
    Revisions.check_marker Revisions.chop_feed Revisions.load Revisions.mark_last_known_good
    Revisions.store Pfctl.validate Pfctl.judge_validation Pfctl.load Pfctl.judge_load
    Transactions.begin Transactions.load Transactions.advance Transactions.clear
    Record.valid_transaction Record.phase_text Record.parse_phase Record.valid_transition
    Record.line Record.serialize Record.take_line Text.strip_prefix Record.parse_revision
    Record.parse_fields Record.parse Events.activation_event Events.load_event
    Events.transaction_event Events.make_validation_event Controller.note Controller.finish_start
    Controller.start Service.note Service.service_event Serve.announce Serve.continue_run Serve.run
recovers_first = (refl, refl)

-- A run whose listener opens, and whose third test of the loop asks for a stop.
abbrev third : ℕ → Bool
third k = k == 3

abbrev served : Option (ServiceRun (List LocalListenerStatus))
served = (run calm_os scripted config third 3 false (ControllerState.created, script) crashed).0

is_some-ended :
    (o : Option (ServiceRun (List LocalListenerStatus))) → is_some o ≡ true → o ≡ some (ended o)
is_some-ended none h = cc
is_some-ended (some x) h = refl

served_ends : served ≡ some (ended served)
served_ends = is_some-ended served (
    run-Returns calm_os scripted config third 3 3 false ControllerState.created script crashed refl
      (omega arith))

scripted-Spares : Spares calm_os scripted config third
scripted-Spares = record {
  opening = λ l w. (refl, refl);
  serving = λ p q x w. spared x w;
  closing = λ l w. (refl, refl);
}
  where
    spared :
        (x : ControllerState × List LocalListenerStatus) (w : World)
        → let r = scripted.serve_one 250 5000 x w in
          (r.1.disk ≡ w.disk)
          × (r.1.past ≡ w.past)
          × ((r.0.1.0 ≡ x.0) ⊎ (r.0.1.0 ≡ ControllerState.read_only))
    spared (c, []) w = (refl, refl, inl refl)
    spared (c, s ∷ l) w = (refl, refl, inl refl)

run-Recovered_example :
    let d =
      (run calm_os scripted config third 3 false (ControllerState.created, script) crashed).1 in
    Started calm_os scripted config third crashed d.disk d.past (ended served).controller
    × ((is_ready (ended served).controller ≡ false) ⊎ Recovered calm_os at_risk crashed.disk d.disk)
run-Recovered_example =
    run-Recovered calm_os scripted config third at_risk 3 script crashed (ended served)
      scripted-Spares crashed-Holds refl served_ends
