-- ===== src/Collab/Protocol.antt =====
-- apps/collab/src/protocol.ts: the frames on the wire. A byte is a natural number, a frame is the
-- list of its bytes, and a reader is the list of the bytes that it has not consumed.
pub mod RoundTrip
use assaybank.Prelude.{
  ℕ, zero, suc, ◌+◌, ◌*◌, ◌/◌, ◌%◌, List, [], ◌∷◌, ◌++◌, Result, ok, err, ◌>>=◌, length, take, drop,
  ltb, ◌==◌, if◌then◌else◌,
}

abbrev pub Bytes : Type 0
Bytes = List ℕ

pub data ProtocolError : Type 0 where
  unsafe_integer ended_in_varuint declares_too_many unknown_sync_step : ProtocolError

-- `Number.MAX_SAFE_INTEGER`
abbrev pub max_safe_integer : ℕ
max_safe_integer = 9_007_199_254_740_991

abbrev message_sync : ℕ
message_sync = 0

abbrev message_awareness : ℕ
message_awareness = 1

abbrev message_query_awareness : ℕ
message_query_awareness = 3

abbrev sync_step_1_tag : ℕ
sync_step_1_tag = 0

abbrev sync_step_2_tag : ℕ
sync_step_2_tag = 1

abbrev sync_update_tag : ℕ
sync_update_tag = 2

-- The loop of `writeVarUint`; seven bits a byte, the lowest first.
unfoldable pub write_loop : ℕ → ℕ → Bytes
write_loop zero remaining = []
write_loop (suc fuel) remaining =
    let rest = write_loop fuel (remaining / 128) in
    if ltb 127 remaining then (128 + remaining % 128) ∷ rest else (remaining % 128) ∷ []

-- It is called with tags and lengths, which are natural numbers.
unfoldable pub write_var_uint : ℕ → Result Bytes ProtocolError
unfolding write_loop
write_var_uint value =
    if ltb max_safe_integer value then err unsafe_integer else ok (write_loop (suc value) value)

unfoldable pub write_var_uint8_array : Bytes → Result Bytes ProtocolError
unfolding write_var_uint
write_var_uint8_array bytes = do size ← write_var_uint (length bytes); ok (size ++ bytes)

-- The loop of `readVarUint`: the integer, and what follows it.
unfoldable pub read_loop : ℕ → ℕ → Bytes → Result (ℕ × Bytes) ProtocolError
read_loop value multiplier [] = err ended_in_varuint
read_loop value multiplier (byte ∷ bytes) =
    let value' = value + byte % 128 * multiplier in
    let more = read_loop value' (multiplier * 128) bytes in
    if ltb byte 128
    then (if ltb max_safe_integer value' then err unsafe_integer else ok (value', bytes))
    else if ltb max_safe_integer (multiplier * 128)
    then err unsafe_integer
    else more

unfoldable pub read_var_uint : Bytes → Result (ℕ × Bytes) ProtocolError
unfolding read_loop
read_var_uint bytes = read_loop 0 1 bytes

unfoldable pub read_bytes : ℕ → Bytes → Result (Bytes × Bytes) ProtocolError
read_bytes size bytes =
    if ltb (length bytes) size then err declares_too_many else ok (take size bytes, drop size bytes)

unfoldable pub read_var_uint8_array : Bytes → Result (Bytes × Bytes) ProtocolError
unfolding read_var_uint read_bytes
read_var_uint8_array bytes = do read ← read_var_uint bytes; read_bytes read.0 read.1

-- A message tag, a tag of the sync protocol, and a payload.
unfoldable pub encode_sync : ℕ → Bytes → Result Bytes ProtocolError
unfolding write_var_uint write_var_uint8_array
encode_sync step payload = do
  message ← write_var_uint message_sync
  tag ← write_var_uint step
  body ← write_var_uint8_array payload
  ok (message ++ (tag ++ body))

unfoldable pub encode_sync_step_1 : Bytes → Result Bytes ProtocolError
unfolding encode_sync
encode_sync_step_1 state_vector = encode_sync sync_step_1_tag state_vector

unfoldable pub encode_sync_step_2 : Bytes → Result Bytes ProtocolError
unfolding encode_sync
encode_sync_step_2 update = encode_sync sync_step_2_tag update

unfoldable pub encode_sync_update : Bytes → Result Bytes ProtocolError
unfolding encode_sync
encode_sync_update update = encode_sync sync_update_tag update

unfoldable pub encode_awareness : Bytes → Result Bytes ProtocolError
unfolding write_var_uint write_var_uint8_array
encode_awareness payload = do
  message ← write_var_uint message_awareness
  body ← write_var_uint8_array payload
  ok (message ++ body)

pub data InboundFrame : Type 0 where
  sync_step_1 sync_step_2 sync_update awareness : Bytes → InboundFrame
  query_awareness : InboundFrame
  ignored : ℕ → InboundFrame

-- The frame with the payload that follows.
unfoldable pub decode_payload : (Bytes → InboundFrame) → Bytes → Result InboundFrame ProtocolError
unfolding read_var_uint8_array
decode_payload frame bytes = do payload ← read_var_uint8_array bytes; ok (frame payload.0)

unfoldable pub decode_sync : ℕ → Bytes → Result InboundFrame ProtocolError
unfolding decode_payload
decode_sync step bytes =
    if step == sync_step_1_tag
    then decode_payload sync_step_1 bytes
    else if step == sync_step_2_tag
    then decode_payload sync_step_2 bytes
    else if step == sync_update_tag
    then decode_payload sync_update bytes
    else err unknown_sync_step

unfoldable pub decode_message : ℕ → Bytes → Result InboundFrame ProtocolError
unfolding read_var_uint decode_sync decode_payload
decode_message message_type bytes =
    if message_type == message_sync
    then (read_var_uint bytes >>= λ step. decode_sync step.0 step.1)
    else if message_type == message_awareness
    then decode_payload awareness bytes
    else if message_type == message_query_awareness
    then ok query_awareness
    else ok (ignored message_type)

unfoldable pub decode_frame : Bytes → Result InboundFrame ProtocolError
unfolding read_var_uint decode_message
decode_frame bytes = do message ← read_var_uint bytes; decode_message message.0 message.1
