-- ===== src/Controller/Listener/Gate.antt =====
-- What an admission of the listener, src/core/controller/local_listener.cpp, can do to the disk of the
-- firewall and to the state of the controller.
use sasd_gatehold.Prelude.{
  ℕ, ◌≡◌, ◌⊎◌, inl, inr, refl, true, false, not, ◌||◌, Option, none, some, List, [], ◌∷◌, arith,
  String, if-elim,
}
use sasd_gatehold.Host.{Os, World, M}
use sasd_gatehold.Logging.Event.{Severity}
use sasd_gatehold.Logging.Journal.{append-quiet}
use sasd_gatehold.Firewall.Activation.Types.{Service}
use sasd_gatehold.Controller.Limiter.Defs as Limiter
use sasd_gatehold.Controller.Limiter.Defs.{AdmissionRateLimiter, AdmissionRateDecision}
use sasd_gatehold.Controller.Privileged.Defs.{ControllerState}
use sasd_gatehold.Controller.Protocol.Session.Defs.{PeerCredentialPolicy, Socket}
use sasd_gatehold.Controller.Protocol.Session.Serve.{serve}
use sasd_gatehold.Controller.Protocol.Session.Gate.{Dispatched, serve-Dispatched}
use sasd_gatehold.Controller.Listener.Serve.{
  Round, connected, retried, refused, expired, LocalControllerListener, valid_timeout, note, Answer,
  serve_session, admit, fail_accept, accept_loop, serve_one,
}

module _ (os : Os) (svc : Service) (policy : PeerCredentialPolicy) (ticks : ℕ) where
  abbrev pub Quiet : World → ControllerState → Answer os svc policy ticks × World → Type 0
  Quiet w c x = (x.1.disk ≡ w.disk) × (x.1.past ≡ w.past) × (x.0.1.0 ≡ c)

  -- The connection that an admission meets, with the time at which it was accepted: the first one,
  -- behind nothing but calls that are tried again.
  abbrev pub first_connection : List Round → Option (Socket × ℕ)
  first_connection (retried ∷ rs) = first_connection rs
  first_connection (connected socket now ∷ rs) = some (socket, now)
  first_connection _ = none

  -- The connection that the rounds meet was within the rate at the time of its acceptance, and its
  -- session has dispatched an activation; the answer leaves what the session left.
  pub record Admitted (rs : List Round) (session_timeout : ℕ) (c : ControllerState)
      (l : LocalControllerListener) (w : World) (x : Answer os svc policy ticks × World)
      : Type 0 where
    pub socket : Socket
    pub now : ℕ
    pub met : first_connection rs ≡ some (socket, now)
    pub admitted : (Limiter.try_admit ticks now l.admission_rate_limiter).0.admitted ≡ true
    pub dispatched :
        Dispatched os svc socket policy c w (serve os svc socket policy session_timeout c w)
    pub world : x.1 ≡ (serve os svc socket policy session_timeout c w).1
    pub state : x.0.1.0 ≡ (serve os svc socket policy session_timeout c w).0.state

  abbrev Gated :
      List Round
      → ℕ
      → ControllerState
      → LocalControllerListener
      → World
      → M (Answer os svc policy ticks)
      → Type 0
  Gated rs t c l w m = Quiet w c (m w) ⊎ Admitted rs t c l w (m w)

  note-quiet :
      (s : Severity) (id outcome words : String) (w : World)
      → let w' = (note os svc policy ticks s id outcome words w).1 in
        (w'.disk ≡ w.disk) × (w'.past ≡ w.past)
  unfolding note
  note-quiet s id outcome words w = append-quiet os _ _

  admit-Gated :
      (t : ℕ) (socket : Socket) (now : ℕ) (c : ControllerState) (l : LocalControllerListener)
      (rs : List Round) (w : World)
      → first_connection rs ≡ some (socket, now)
      → Gated rs t c l w (
          admit os svc policy ticks t socket c l
            (Limiter.try_admit ticks now l.admission_rate_limiter))
  unfolding admit serve_session
  admit-Gated t socket now c l rs w met =
      let d = Limiter.try_admit ticks now l.admission_rate_limiter in
      if-elim (Gated rs t c l w) (not d.0.admitted) _ _ (λ late. inl (refl, refl, refl))
        (λ in_time. elim (serve-Dispatched os svc socket policy t c w) [
          | inl q ↦ inl q
          | inr g ↦ inr (record {
            socket = socket;
            now = now;
            met = met;
            admitted = ground arith;
            dispatched = g;
            world = refl;
            state = refl;
          })
        ])

  accept_loop-Gated :
      (t : ℕ) (rs : List Round) (c : ControllerState) (l : LocalControllerListener) (w : World)
      → Gated rs t c l w (accept_loop os svc policy ticks t rs c l)
  unfolding accept_loop fail_accept
  accept_loop-Gated t [] c l w = inl (refl, refl, refl)
  accept_loop-Gated t (expired ∷ rs) c l w = inl (refl, refl, refl)
  accept_loop-Gated t (retried ∷ rs) c l w = elim (accept_loop-Gated t rs c l w) [
    | inl q ↦ inl q
    | inr a ↦ inr (record {
      socket = a.socket;
      now = a.now;
      met = a.met;
      admitted = a.admitted;
      dispatched = a.dispatched;
      world = a.world;
      state = a.state;
    })
  ]
  accept_loop-Gated t (refused ∷ rs) c l w = let (d, p) = note-quiet _ _ _ _ w in inl (d, p, refl)
  accept_loop-Gated t (connected socket now ∷ rs) c l w =
      admit-Gated t socket now c l (connected socket now ∷ rs) w refl

  -- The same, with the conditions on the listener and the timeouts.
  abbrev Open :
      List Round
      → ℕ
      → ℕ
      → ControllerState
      → LocalControllerListener
      → World
      → M (Answer os svc policy ticks)
      → Type 0
  Open rs a t c l w m =
      Quiet w c (m w)
      ⊎ ((l.listening ≡ true)
          × (l.serving ≡ false)
          × (valid_timeout a ≡ true)
          × (valid_timeout t ≡ true)
          × Admitted rs t c l w (m w))

  -- Whatever connections, failures and interruptions an admission meets: it leaves the disk, the
  -- disks passed through and the state of the controller as they were, unless the listener is
  -- open and serves nobody else, both timeouts are within their bounds, and the first connection
  -- of the rounds, behind nothing but calls that are tried again, is one that the rate limiter
  -- admitted at the time of its acceptance and whose session has dispatched an activation, with
  -- all that `Dispatched` says of it; then it leaves what that session left.
  pub serve_one-Admitted :
      (rs : List Round) (accept_timeout t : ℕ) (c : ControllerState) (l : LocalControllerListener)
      (w : World)
      → let x = serve_one os svc policy ticks rs accept_timeout t (c, l) w in
        Quiet w c x
        ⊎ ((l.listening ≡ true)
            × (l.serving ≡ false)
            × (valid_timeout accept_timeout ≡ true)
            × (valid_timeout t ≡ true)
            × Admitted rs t c l w x)
  unfolding serve_one
  serve_one-Admitted rs accept_timeout t c l w =
      if-elim (Open rs accept_timeout t c l w) l.serving _ _
        (λ taken. let (d, p) = note-quiet _ _ _ _ w in inl (d, p, refl))
        (λ idle.
          if-elim (Open rs accept_timeout t c l w) (not l.listening) _ _
            (λ shut. inl (refl, refl, refl))
            (λ live.
              if-elim (Open rs accept_timeout t c l w)
                (not (valid_timeout accept_timeout) || not (valid_timeout t)) _ _
                (λ bad. inl (refl, refl, refl))
                (λ good. elim (accept_loop-Gated t rs c l w) [
                  | inl q ↦ inl q
                  | inr a ↦ inr (ground arith, idle, ground arith, ground arith, a)
                ])))
