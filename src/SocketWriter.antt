-- ===== src/SocketWriter.antt =====
-- libcrocofix/socket_writer.cppm and libcrocofix/socket_writer.cpp: the two write buffers and the
-- handler of `async_write`. Of a buffer the bytes in front of its `offset` are kept, so that their
-- number is the offset. What was handed to the socket and what it has sent stands beside them.
pub mod Order
pub mod Wait
mod Examples
use crocofix.Base.{
  ℕ, zero, suc, ◌+◌, ◌-◌, Bool, true, false, List, [], ◌∷◌, ◌++◌, ltb, leb, ◌==◌, if◌then◌else◌,
  length,
}
use crocofix.Base.Bytes.{Bytes, text}
use crocofix.Base.Exec.{Result, ok, err, out_of_range, runtime_error}
use crocofix.Message.{Message}
use crocofix.Message.Encode.{encode}

abbrev pub buffer_size : ℕ
buffer_size = 8192

abbrev pub buffer_high_water_mark : ℕ
buffer_high_water_mark = 7500

-- `writing` are the buffers of the `async_write` that have not completed, the oldest first, and `sent`
-- the bytes of those that have.
pub record SocketWriter : Type 0 where
  pub pending_buffer : Bytes
  pub active_buffer : Bytes
  pub writing : List Bytes
  pub sent : Bytes

abbrev pub socket_writer : SocketWriter
socket_writer = record { pending_buffer = []; active_buffer = []; writing = []; sent = [] }

-- `std::swap` and `async_write`
abbrev pub start_write : SocketWriter → SocketWriter
start_write w = record w {
  pending_buffer = w.active_buffer;
  active_buffer = w.pending_buffer;
  writing = w.writing ++ w.pending_buffer ∷ [];
}

unfoldable pub flush_pending_writes : SocketWriter → SocketWriter
flush_pending_writes w = if ltb 0 (length w.active_buffer) then w else start_write w

-- The call's end, the writer and the message as encoding leaves it.
pub record Written : Type 0 where
  pub ended : Result (Unit {0})
  pub writer : SocketWriter
  pub message : Message

abbrev pub written : Result (Unit {0}) → SocketWriter → Message → Written
written x w m = record { ended = x; writer = w; message = m }

abbrev pub append_pending : SocketWriter → Bytes → SocketWriter
append_pending w b = record w { pending_buffer = w.pending_buffer ++ b }

abbrev pub write_encoded : SocketWriter → Result Bytes × Message → Written
write_encoded w (err e, m) = written (err e) w m
write_encoded w (ok b, m) =
    if length b == 0
    then written (err (runtime_error (text "failed to encode message"))) w m
    else written (ok tt) (flush_pending_writes (append_pending w b)) m

-- `write` up to the wait below: `at` refuses the offset behind the last byte.
unfoldable pub write : SocketWriter → Message → ℕ → Written
unfolding encode flush_pending_writes
write w m options =
    if leb buffer_size (length w.pending_buffer)
    then written (err (out_of_range (text "array::at"))) w m
    else write_encoded w (encode m (buffer_size - length w.pending_buffer) options)

-- The handler of `async_write`, for the oldest write and without an error.
abbrev pub emptied : SocketWriter → Bytes → List Bytes → SocketWriter
emptied w b ws = record w { active_buffer = []; writing = ws; sent = w.sent ++ b }

abbrev pub flush_rest : SocketWriter → SocketWriter
flush_rest w = if ltb 0 (length w.pending_buffer) then flush_pending_writes w else w

abbrev pub complete_oldest : SocketWriter → List Bytes → SocketWriter
complete_oldest w [] = w
complete_oldest w (b ∷ ws) = flush_rest (emptied w b ws)

unfoldable pub complete : SocketWriter → SocketWriter
unfolding flush_pending_writes
complete w = complete_oldest w w.writing

-- The wait at the end of `write`, when the handlers that `run_one` runs are this writer's.
abbrev pub over_high_water : SocketWriter → Bool
over_high_water w = ltb buffer_high_water_mark (length w.pending_buffer)

unfoldable pub drain_active : ℕ → SocketWriter → SocketWriter
unfolding complete
drain_active zero w = w
drain_active (suc fuel) w = elim (ltb 0 (length w.active_buffer)) [
  | true ↦ drain_active fuel (complete w)
  | false ↦ w
]

unfoldable pub wait_below : ℕ → SocketWriter → SocketWriter
unfolding drain_active
wait_below fuel w = if over_high_water w then drain_active fuel w else w
