-- ===== src/SocketWriter/Examples.antt =====
-- Two Heartbeats, on which the theorems about the writer are run.
use crocofix.Base.{
  replicate, length-replicate, ℕ, ◌≡◌, ◌≤◌, refl, [], ◌∷◌, ◌++◌, arith, length, ◌⊎◌, ◌<◌,
}
use crocofix.Base.Bytes.{Bytes, codes, to_string, digits}
use crocofix.Field.{set, try_get}
use crocofix.Message.{
  standard, buffer_checksum, calculate_body_length, number_of_digits, format_checksum,
}
use crocofix.Message.Encode.{encode}
use crocofix.Message.Examples.{heartbeat}
use crocofix.SocketWriter.{
  SocketWriter, socket_writer, buffer_high_water_mark, write, complete, wait_below,
  flush_pending_writes,
}
use crocofix.SocketWriter.Order.{
  IsValid, accepted, Run, constructed, wrote, completed, Run-accepted,
}
use crocofix.SocketWriter.Wait.{AllSent, wait_below-enough}

abbrev first : SocketWriter
first = (write socket_writer heartbeat standard).writer

abbrev heartbeat_bytes : Bytes
heartbeat_bytes =
    codes "8=FIX.4.4" ++ (1 ∷ codes "9=5") ++ (1 ∷ codes "35=0") ++ (1 ∷ codes "10=163") ++ 1 ∷ []

once : Run heartbeat_bytes first
unfolding encode write set try_get to_string digits calculate_body_length number_of_digits
    format_checksum buffer_checksum
once = wrote heartbeat standard heartbeat_bytes constructed refl refl

twice : Run (heartbeat_bytes ++ heartbeat_bytes) (write first heartbeat standard).writer
unfolding encode write flush_pending_writes set try_get to_string digits calculate_body_length
    number_of_digits format_checksum buffer_checksum
twice = wrote heartbeat standard heartbeat_bytes once refl refl

Run-accepted_example :
    IsValid (complete (write first heartbeat standard).writer)
    × (accepted (complete (write first heartbeat standard).writer)
        ≡ heartbeat_bytes ++ heartbeat_bytes)
Run-accepted_example =
    Run-accepted (heartbeat_bytes ++ heartbeat_bytes)
      (complete (write first heartbeat standard).writer) (completed twice)

-- A buffer over the high water mark, behind a write under way.
abbrev waiting : SocketWriter
waiting = record {
  pending_buffer = replicate 7501 b'8';
  active_buffer = b'8' ∷ [];
  writing = (b'8' ∷ []) ∷ [];
  sent = [];
}

waiting-IsValid : IsValid waiting
waiting-IsValid = record {
  in_flight = (refl, omega arith);
  pending_fits = omega (arith, length-replicate {A = ℕ} 7501 b'8');
  active_fits = omega arith;
}

wait_below-enough_example :
    (AllSent waiting (wait_below 2 waiting)
      × (buffer_high_water_mark < length waiting.pending_buffer))
    ⊎ ((wait_below 2 waiting ≡ waiting) × (length waiting.pending_buffer ≤ buffer_high_water_mark))
wait_below-enough_example = wait_below-enough 2 waiting waiting-IsValid (omega arith)
