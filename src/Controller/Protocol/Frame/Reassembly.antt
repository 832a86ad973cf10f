-- ===== src/Controller/Protocol/Frame/Reassembly.antt =====
-- A frame and the bytes of the stream, src/core/controller/local_protocol.cpp.
use sasd_gatehold.Prelude.{
  ℕ, zero, suc, ◌-◌, ◌≤◌, ◌<◌, ◌≡◌, refl, ap, ◌∙◌, true, false, List, [], ◌∷◌, ◌++◌, arith,
  is_empty, length, length-append, take, drop, ltb, append-nil, inl, inr, sym, Bool-cases,
}
use sasd_gatehold.Text.{Bytes}
use sasd_gatehold.Prelude.Slices.{
  length-take, take-append_short, drop-append_short, take-append_long, drop-append_long,
  drop-ne_empty, take-append, take-append-drop,
}
use sasd_gatehold.Controller.Protocol.Frame.{
  IoStatus, completed, Arrival, received, Departure, Reading, read_exact, payload_size,
  is_completed, read_payload, read_frame, write_exact, header, write_frame, maximum_payload_size,
  accepted,
}

-- What arrives, put together.
abbrev pub stream : List Arrival → Bytes
stream [] = []
stream (received s ∷ arrivals) = s ++ stream arrivals
stream (_ ∷ arrivals) = stream arrivals

-- The socket gives at least one byte at a time, interrupts at will, and neither closes, fails nor
-- meets the deadline.
abbrev pub Steady : List Arrival → Type 0
Steady [] = Unit
Steady (received s ∷ arrivals) = (is_empty s ≡ false) × Steady arrivals
Steady (Arrival.retried ∷ arrivals) = Steady arrivals
Steady (_ ∷ arrivals) = ⊥

abbrev Complete : ℕ → List Arrival → Reading → Type 0
Complete n arrivals r =
    (is_completed r.status ≡ true)
    × (r.bytes ≡ take n (stream arrivals))
    × Steady r.left
    × (stream r.left ≡ drop n (stream arrivals))

received-Complete :
    (n : ℕ) (s : Bytes) (arrivals : List Arrival)
    → is_empty s ≡ false
    → Steady arrivals
    → (length s ≤ suc n
        → Complete (suc n - length s) arrivals (read_exact (suc n - length s) arrivals))
    → Complete (suc n) (received s ∷ arrivals) (read_exact (suc n) (received s ∷ arrivals))
unfolding read_exact
received-Complete n s arrivals full h again = elim (Bool-cases (ltb (suc n) (length s))) [
  | inl e ↦
      let less : suc n < length s = ground arith in
      rw full (
        rw e (
          refl,
          sym (take-append_short (suc n) s (stream arrivals) (omega arith)),
          (drop-ne_empty (suc n) s less, h),
          sym (drop-append_short (suc n) s (stream arrivals) (omega arith)),
        ))
  | inr e ↦
      let long : length s ≤ suc n = ground arith in
      let (c, b, st, l) = again long in
      rw full (
        rw e (
          c,
          ap (λ t. s ++ t) b ∙ sym (take-append_long (suc n) s (stream arrivals) long),
          st,
          l ∙ sym (drop-append_long (suc n) s (stream arrivals) long),
        ))
]

read_exact-Complete :
    (n : ℕ) (arrivals : List Arrival)
    → Steady arrivals
    → n ≤ length (stream arrivals)
    → Complete n arrivals (read_exact n arrivals)
unfolding read_exact
read_exact-Complete zero arrivals h k = (refl, refl, h, refl)
read_exact-Complete (suc n) [] h k = ground arith
read_exact-Complete (suc n) (Arrival.retried ∷ arrivals) h k =
    read_exact-Complete (suc n) arrivals h k
read_exact-Complete (suc n) (Arrival.refused ∷ arrivals) h k = absurd h
read_exact-Complete (suc n) (Arrival.expired ∷ arrivals) h k = absurd h
read_exact-Complete (suc n) (received s ∷ arrivals) h k =
    let total = length-append s (stream arrivals) in
    received-Complete n s arrivals h.0 h.1
      (λ long. read_exact-Complete (suc n - length s) arrivals h.1 (omega arith))

-- Whatever arrives, a completed read has the length that was asked for.
read_exact-length :
    (n : ℕ) (arrivals : List Arrival)
    → is_completed (read_exact n arrivals).status ≡ true
    → length (read_exact n arrivals).bytes ≡ n
unfolding read_exact
read_exact-length zero arrivals h = refl
read_exact-length (suc n) [] h = ground arith
read_exact-length (suc n) (Arrival.retried ∷ arrivals) h = read_exact-length (suc n) arrivals h
read_exact-length (suc n) (Arrival.refused ∷ arrivals) h = ground arith
read_exact-length (suc n) (Arrival.expired ∷ arrivals) h = ground arith
read_exact-length (suc n) (received s ∷ arrivals) h = ground (
  arith,
  read_exact-length (suc n - length s) arrivals,
  length-take (suc n) s,
  length-append s (read_exact (suc n - length s) arrivals).bytes,
)

-- Whatever a peer sends, a frame that is read has a payload of 1 to 4096 bytes, and a frame that
-- is not read has none.
pub read_frame_bound :
    (arrivals : List Arrival)
    → let r = read_frame arrivals in
      (is_completed r.status ≡ true → (1 ≤ length r.payload) × (length r.payload ≤ 4096))
      × (is_completed r.status ≡ false → r.payload ≡ [])
unfolding read_frame read_payload
read_frame_bound arrivals =
    let h = read_exact 4 arrivals in ground (arith, read_exact-length (payload_size h.bytes) h.left)

payload_size-header : (n : ℕ) → n ≤ 4096 → payload_size (header n) ≡ n
payload_size-header n h = omega arith

is_completed→≡ : (s : IoStatus) → is_completed s ≡ true → s ≡ completed
is_completed→≡ s h = ground arith

read_payload-Steady :
    (payload rest : Bytes) (arrivals : List Arrival)
    → 1 ≤ length payload
    → length payload ≤ maximum_payload_size
    → Steady arrivals
    → stream arrivals ≡ payload ++ rest
    → read_payload (length payload) arrivals ≡ record { status = completed; payload = payload }
unfolding read_payload
read_payload-Steady payload rest arrivals lo hi h e =
    let total = ap length e ∙ length-append payload rest in
    let (c, b, st, l) = read_exact-Complete (length payload) arrivals h (omega arith) in
    let all : (read_exact (length payload) arrivals).bytes ≡ payload =
      b ∙ ap (λ t. take (length payload) t) e ∙ take-append payload rest in
    ground (arith, is_completed→≡ (read_exact (length payload) arrivals).status c)

-- A frame whose bytes arrive, in whatever pieces.
read_frame-Steady :
    (payload rest : Bytes) (arrivals : List Arrival)
    → 1 ≤ length payload
    → length payload ≤ maximum_payload_size
    → Steady arrivals
    → stream arrivals ≡ header (length payload) ++ (payload ++ rest)
    → read_frame arrivals ≡ record { status = completed; payload = payload }
unfolding read_frame
read_frame-Steady payload rest arrivals lo hi h e =
    let total = ap length e in
    let (c, b, st, l) = read_exact-Complete 4 arrivals h (omega arith) in
    let size : payload_size (read_exact 4 arrivals).bytes ≡ length payload =
      ap payload_size (b ∙ ap (λ t. take 4 t) e) ∙ payload_size-header (length payload) hi in
    rw c (
      rw size (
        read_payload-Steady payload rest (read_exact 4 arrivals).left lo hi st
          (l ∙ ap (λ t. drop 4 t) e)))

write_exact-completed :
    (s : Bytes) (ds : List Departure)
    → is_completed (write_exact s ds).status ≡ true
    → (write_exact s ds).bytes ≡ s
unfolding write_exact
write_exact-completed [] ds h = refl
write_exact-completed (c ∷ s) [] h = ground arith
write_exact-completed (c ∷ s) (Departure.retried ∷ ds) h = write_exact-completed (c ∷ s) ds h
write_exact-completed (c ∷ s) (Departure.refused ∷ ds) h = ground arith
write_exact-completed (c ∷ s) (Departure.expired ∷ ds) h = ground arith
write_exact-completed (c ∷ s) (accepted n ∷ ds) h =
    ground (arith, write_exact-completed (drop n (c ∷ s)) ds, take-append-drop n (c ∷ s))

-- What a completed write has sent is the header and the payload, which is within the limit.
pub write_frame-completed :
    (payload : Bytes) (ds : List Departure)
    → is_completed (write_frame payload ds).status ≡ true
    → ((write_frame payload ds).bytes ≡ header (length payload) ++ payload)
      × (1 ≤ length payload)
      × (length payload ≤ maximum_payload_size)
unfolding write_frame
write_frame-completed payload ds h =
    let r = write_exact (header (length payload)) ds in
    ground (
      arith,
      write_exact-completed (header (length payload)) ds,
      write_exact-completed payload r.left,
    )

-- If `write_frame` completes, however the socket took its bytes, and the other side receives what
-- was sent, in whatever pieces of at least one byte and with whatever interruptions, but with no
-- failure, end of stream or deadline, then `read_frame` completes there with the payload.
pub read_frame-write_frame :
    (payload : Bytes) (ds : List Departure) (arrivals : List Arrival)
    → is_completed (write_frame payload ds).status ≡ true
    → Steady arrivals
    → stream arrivals ≡ (write_frame payload ds).bytes
    → read_frame arrivals ≡ record { status = completed; payload = payload }
read_frame-write_frame payload ds arrivals h steady e =
    let (sent, lo, hi) = write_frame-completed payload ds h in
    read_frame-Steady payload [] arrivals lo hi steady
      (e ∙ sent ∙ ap (λ t. header (length payload) ++ t) (sym (append-nil payload)))
