-- ===== src/Controller/Protocol/Response.antt =====
-- The text of a response, src/core/controller/local_protocol.cpp.
use sasd_gatehold.Prelude.{Option, none, some, [], ◌∷◌, ◌++◌, String}
use sasd_gatehold.Text.{Bytes, text}
use sasd_gatehold.Firewall.Activation.Types as Types
use sasd_gatehold.Firewall.Activation.Types.{ActivationStatus}
use sasd_gatehold.Controller.Privileged.Defs.{ControllerState, state_text}

abbrev pub activation_status : ActivationStatus → String
activation_status Types.committed = "committed"
activation_status Types.invalid_request = "invalid_request"
activation_status Types.authorization_denied = "authorization_denied"
activation_status Types.authorization_error = "authorization_error"
activation_status Types.last_known_good_unavailable = "last_known_good_unavailable"
activation_status Types.target_unavailable = "target_unavailable"
activation_status Types.native_revalidation_failed = "native_revalidation_failed"
activation_status Types.activation_failed = "activation_failed"
activation_status Types.verification_failed_rolled_back = "verification_failed_rolled_back"
activation_status Types.confirmation_failed_rolled_back = "confirmation_failed_rolled_back"
activation_status Types.commit_failed_rolled_back = "commit_failed_rolled_back"
activation_status Types.transaction_conflict = "transaction_conflict"
activation_status Types.transaction_store_failed = "transaction_store_failed"
activation_status Types.committed_with_warning = "committed_with_warning"
activation_status Types.committed_cleanup_pending = "committed_cleanup_pending"
activation_status Types.audit_failed = "audit_failed"
activation_status Types.audit_failed_rolled_back = "audit_failed_rolled_back"
activation_status Types.rollback_failed = "rollback_failed"

abbrev activation_line : Option Bytes → Bytes
activation_line none = []
activation_line (some a) = text "activation_status=" ++ (a ++ b'\n' ∷ [])

-- Appended from the right, so that each line stands before its rest.
unfoldable pub response_payload :
    Bytes → Bytes → ControllerState → Bytes → Bytes → Option Bytes → Bytes
response_payload request_id result state event_id message activation =
    text "gatehold-controller-v1"
    ++ (b'\n'
        ∷ (text "request_id="
            ++ (request_id
                ++ (b'\n'
                    ∷ (text "result="
                        ++ (result
                            ++ (b'\n'
                                ∷ (text "controller_state="
                                    ++ (text (state_text state)
                                        ++ (b'\n'
                                            ∷ (text "event_id="
                                                ++ (event_id
                                                    ++ (b'\n'
                                                        ∷ (text "message="
                                                            ++ (message
                                                            ++ (b'\n'
                                                            ∷ activation_line
                                                            activation))))))))))))))))
