-- ===== src/Collab/Protocol/RoundTrip.antt =====
-- What is written is read back.
use mathlib.Core.List.{append_assoc, append-nil}
use native.Mathlib.Nat.{add-mul}
use assaybank.Prelude.{
  ℕ, zero, suc, ◌+◌, ◌*◌, ◌/◌, ◌%◌, ◌≤◌, ◌<◌, ◌≡◌, refl, [], ◌∷◌, ◌++◌, ok, length, Result, false,
  length-append, take-append, drop-append, sym, ltb, arith, ap,
}
use assaybank.Collab.Protocol.{
  Bytes, max_safe_integer, write_loop, write_var_uint, write_var_uint8_array, read_loop,
  ProtocolError, read_var_uint, read_bytes, read_var_uint8_array, encode_sync, encode_sync_step_1,
  encode_sync_step_2, encode_sync_update, encode_awareness, InboundFrame, sync_step_1, sync_step_2,
  sync_update, awareness, decode_payload, decode_sync, decode_message, decode_frame,
}

split : (n m : ℕ) → n % 128 * m + n / 128 * (m * 128) ≡ n * m
split n m =
    let e : n % 128 + n / 128 * 128 ≡ n = omega arith in
    omega (arith, ap (λ (t : ℕ). t * m) e, add-mul (n % 128) (n / 128 * 128) m)

grows : (n m : ℕ) → 127 < n → m * 128 ≤ n * m
grows n m h = grind arith

read-write :
    (fuel n value m : ℕ) (rest : Bytes)
    → n < fuel
    → value + n * m ≤ max_safe_integer
    → read_loop value m (write_loop fuel n ++ rest) ≡ ok (value + n * m, rest)
unfolding write_loop read_loop
read-write zero n value m rest h k = absurd (omega arith)
read-write (suc fuel) n value m rest h k =
    ground
      (arith, split n m, grows n m, read-write fuel (n / 128) (value + n % 128 * m) (m * 128) rest)

-- An integer that can be written is read back, whatever follows it.
pub read_var_uint-write :
    (n : ℕ) (rest : Bytes)
    → n ≤ max_safe_integer
    → (bytes : Bytes) × (write_var_uint n ≡ ok bytes)
      × (read_var_uint (bytes ++ rest) ≡ ok (n, rest))
unfolding write_var_uint read_var_uint
read_var_uint-write n rest h = (
  write_loop (suc n) n,
  ground arith,
  ground (arith, read-write (suc n) n 0 1 rest (omega arith) (omega arith)),
)

write_loop-read :
    (n : ℕ) (rest : Bytes)
    → n ≤ max_safe_integer
    → read_var_uint (write_loop (suc n) n ++ rest) ≡ ok (n, rest)
unfolding read_var_uint
write_loop-read n rest h = ground (arith, read-write (suc n) n 0 1 rest (omega arith) (omega arith))

write_var_uint_lem : (n : ℕ) → n ≤ max_safe_integer → write_var_uint n ≡ ok (write_loop (suc n) n)
unfolding write_var_uint
write_var_uint_lem n h = ground arith

abbrev framed : Bytes → Bytes
framed payload = write_loop (suc (length payload)) (length payload) ++ payload

write_var_uint8_array_lem :
    (payload : Bytes)
    → length payload ≤ max_safe_integer
    → write_var_uint8_array payload ≡ ok (framed payload)
unfolding write_var_uint8_array
write_var_uint8_array_lem payload h = rw (write_var_uint_lem (length payload) h) refl

read_bytes-append :
    (payload rest : Bytes) → read_bytes (length payload) (payload ++ rest) ≡ ok (payload, rest)
unfolding read_bytes
read_bytes-append payload rest =
    let e : ltb (length payload + length rest) (length payload) ≡ false = ground arith in
    rw (length-append payload rest, e, take-append payload rest, drop-append payload rest) refl

-- A payload that can be measured is read back, whatever follows it.
read_var_uint8_array-framed :
    (payload rest : Bytes)
    → length payload ≤ max_safe_integer
    → read_var_uint8_array (framed payload ++ rest) ≡ ok (payload, rest)
unfolding read_var_uint8_array
read_var_uint8_array-framed payload rest h =
    rw
      (
        append_assoc (write_loop (suc (length payload)) (length payload)) payload rest,
        write_loop-read (length payload) (payload ++ rest) h,
      )
      (read_bytes-append payload rest)

-- The bytes exist, and are decoded as the frame.
unfoldable pub Decodes : Result Bytes ProtocolError → InboundFrame → Type 0
Decodes encoded frame = (bytes : Bytes) × (encoded ≡ ok bytes) × (decode_frame bytes ≡ ok frame)

decode_payload-framed :
    (frame : Bytes → InboundFrame) (payload : Bytes)
    → length payload ≤ max_safe_integer
    → decode_payload frame (framed payload) ≡ ok (frame payload)
unfolding decode_payload
decode_payload-framed frame payload h =
    let e = read_var_uint8_array-framed payload [] h in
    rw (sym (append-nil (framed payload)), e) refl

one_byte :
    (step : ℕ) (payload : Bytes)
    → step ≤ 2
    → ◌≡◌ {A = Result Bytes ProtocolError}
        (ok (write_loop 1 0 ++ (write_loop (suc step) step ++ framed payload)))
        (ok (0 ∷ step ∷ framed payload))
unfolding write_loop
one_byte step payload k = ground arith

encode_sync_lem :
    (step : ℕ) (payload : Bytes)
    → step ≤ 2
    → length payload ≤ max_safe_integer
    → encode_sync step payload ≡ ok (0 ∷ step ∷ framed payload)
unfolding encode_sync
encode_sync_lem step payload k h =
    rw (write_var_uint_lem step (omega arith), write_var_uint8_array_lem payload h)
      (one_byte step payload k)

encode_awareness_lem :
    (payload : Bytes)
    → length payload ≤ max_safe_integer
    → encode_awareness payload ≡ ok (1 ∷ framed payload)
unfolding encode_awareness
encode_awareness_lem payload h = rw (write_var_uint8_array_lem payload h) refl

-- A payload of any frame that an encoder writes is decoded as it was, if its length can be written.
pub decode_frame-encode :
    (payload : Bytes)
    → length payload ≤ max_safe_integer
    → Decodes (encode_sync_step_1 payload) (sync_step_1 payload)
      × Decodes (encode_sync_step_2 payload) (sync_step_2 payload)
      × Decodes (encode_sync_update payload) (sync_update payload)
      × Decodes (encode_awareness payload) (awareness payload)
unfolding Decodes encode_sync_step_1 encode_sync_step_2 encode_sync_update decode_frame
    decode_message decode_sync
decode_frame-encode payload h = (
  (
    0 ∷ 0 ∷ framed payload,
    encode_sync_lem 0 payload (omega arith) h,
    decode_payload-framed sync_step_1 payload h,
  ),
  (
    0 ∷ 1 ∷ framed payload,
    encode_sync_lem 1 payload (omega arith) h,
    decode_payload-framed sync_step_2 payload h,
  ),
  (
    0 ∷ 2 ∷ framed payload,
    encode_sync_lem 2 payload (omega arith) h,
    decode_payload-framed sync_update payload h,
  ),
  (1 ∷ framed payload, encode_awareness_lem payload h, decode_payload-framed awareness payload h),
)
