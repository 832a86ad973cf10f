-- ===== src/Controller/Protocol/Request/Sound.antt =====
-- What a request satisfies that the parser of src/core/controller/local_protocol.cpp accepts.
use sasd_gatehold.Prelude.{
  ℕ, ◌≤◌, ◌≡◌, refl, true, false, Option, none, some, List, [], ◌∷◌, arith, ◌==◌, is_some,
  Option-cases, inl, inr, ltb,
}
use sasd_gatehold.Text.{Bytes, valid_identifier}
use sasd_gatehold.Text.Decimal.{max_u64, from_chars, from_chars_bound}
use sasd_gatehold.Firewall.Activation.Types.{ActivationRequest}
use sasd_gatehold.Firewall.Activation.Admission.{valid_request}
use sasd_gatehold.Controller.Protocol.Request.{
  RequestOperation, status, activate, ParsedRequest, ParseResult, identifier_value, parse_revision,
  parse_timeout, activation_fields, parse_activation, parse_operation, parse_lines, parse_request,
}

-- What a chain gives, if it gives anything.
abbrev pub Yields : {A : Type 0} → (A → Type 0) → Option A → Type 0
Yields P none = Unit
Yields P (some a) = P a

identifier_value-Yields :
    (line key : Bytes) → Yields (λ v. valid_identifier v ≡ true) (identifier_value line key)
unfolding identifier_value
identifier_value-Yields line key = ground arith

from_chars-Yields : (max : ℕ) (s : Bytes) → Yields (λ n. n ≤ max) (from_chars max s)
from_chars-Yields max s = elim (Option-cases (from_chars max s)) [
  | inl e ↦ rw e tt
  | inr (n, e) ↦ rw e (from_chars_bound max s n e)
]

parse_revision-Yields :
    (s : Bytes) → Yields (λ n. ((n == 0) ≡ false) × (n ≤ max_u64)) (parse_revision s)
unfolding parse_revision
parse_revision-Yields s = ground (arith, from_chars-Yields max_u64 s)

parse_timeout-Yields :
    (lo hi : ℕ) (s : Bytes)
    → Yields (λ n. (ltb n lo ≡ false) × (ltb hi n ≡ false)) (parse_timeout lo hi s)
unfolding parse_timeout
parse_timeout-Yields lo hi s = ground arith

abbrev pub IsSound : ActivationRequest → Type 0
IsSound q = (valid_request q ≡ true) × (q.revision ≤ max_u64)

activation_fields-Yields :
    (l3 l4 l5 l6 l7 : Bytes) → Yields IsSound (activation_fields l3 l4 l5 l6 l7)
unfolding activation_fields valid_request
activation_fields-Yields l3 l4 l5 l6 l7 =
    grind (arith, identifier_value-Yields, parse_revision-Yields, parse_timeout-Yields)

-- The operation says whether there is an activation, which is then one that the service finds
-- valid.
abbrev Matches : RequestOperation → Option ActivationRequest → Type 0
Matches status none = Unit
Matches status (some a) = ⊥
Matches activate none = ⊥
Matches activate (some a) = IsSound a

abbrev pub IsChecked : ParsedRequest → Type 0
IsChecked r = (valid_identifier r.request_id ≡ true) × Matches r.operation r.activation

-- `valid` is set exactly where there is a request.
abbrev pub Judged : ParseResult → Type 0
Judged r = (r.valid ≡ is_some r.request) × Yields IsChecked r.request

parse_activation-Judged :
    (id : Bytes) (ls : List Bytes) → valid_identifier id ≡ true → Judged (parse_activation id ls)
unfolding parse_activation
parse_activation-Judged id (l3 ∷ l4 ∷ l5 ∷ l6 ∷ l7 ∷ []) h =
    ground (arith, activation_fields-Yields l3 l4 l5 l6 l7)
parse_activation-Judged id [] h = (refl, tt)
parse_activation-Judged id (_ ∷ []) h = (refl, tt)
parse_activation-Judged id (_ ∷ _ ∷ []) h = (refl, tt)
parse_activation-Judged id (_ ∷ _ ∷ _ ∷ []) h = (refl, tt)
parse_activation-Judged id (_ ∷ _ ∷ _ ∷ _ ∷ []) h = (refl, tt)
parse_activation-Judged id (_ ∷ _ ∷ _ ∷ _ ∷ _ ∷ _ ∷ _) h = (refl, tt)

parse_lines-Judged : (ls : List Bytes) → Judged (parse_lines ls)
unfolding parse_lines parse_operation
parse_lines-Judged [] = (refl, tt)
parse_lines-Judged (_ ∷ []) = (refl, tt)
parse_lines-Judged (_ ∷ _ ∷ []) = (refl, tt)
parse_lines-Judged (l0 ∷ l1 ∷ l2 ∷ rest) =
    grind (arith, identifier_value-Yields, parse_activation-Judged)

-- Whatever bytes the parser is given: it sets `valid` exactly if it returns a request, the
-- identifier of a returned request is valid, and the request carries an activation exactly if it
-- asks for one, which the activation service finds valid and whose revision fits in 64 bits.
pub parse_request-Judged : (payload : Bytes) → Judged (parse_request payload)
unfolding parse_request
parse_request-Judged payload = grind (arith, parse_lines-Judged)
