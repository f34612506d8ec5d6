-- ===== src/Midi/Echo.antt =====
-- src/midiio.rs: the echo of a received message to an output port. `MidiIo` has the settings that the
-- echo reads. The backend is a parameter: `deliver` is its answer to a packet, with that of its lock,
-- and a call gives the packets that it hands to the backend beside its result. The casts of an `i32`
-- sum keep its low bits.
mod Routes
mod Tests
use freewheeling_plus.Prelude.{
  ℕ, zero, suc, ◌-◌, ◌^◌, Bool, true, false, min, leb, if◌then◌else◌, Option, none, some, List, [],
  ◌∷◌, Result, ok, err,
}
use freewheeling_plus.Prelude.Int.{ℤ, pos, negsuc, ◌+ℤ◌}
use freewheeling_plus.Prelude.Options.{unwrap_or}
use freewheeling_plus.Prelude.Words.{low_bits_ℤ}
use freewheeling_plus.Midi.{
  Message, note_off, note_on, polyphonic_pressure, controller, program_change, channel_pressure,
  pitch_bend,
}

pub record MidiIo : Type 0 where
  pub outputs : ℕ
  pub echo_port : ℤ
  pub echo_channel : Option ℕ
  pub note_transpose : ℤ
  pub bend_tune : ℤ

pub data SendError : Type 0 where
  output_port_out_of_range backend_lock_poisoned backend_failed : SendError

-- The packets for the backend, and the result of the call.
abbrev pub Sending : Type 0
Sending = List (ℕ × Message) × Result SendError (Unit {0})

unfoldable pub send : (ℕ × Message → Result SendError (Unit {0})) → MidiIo → ℕ → Message → Sending
send deliver io port message =
    if leb io.outputs port
    then ([], err output_port_out_of_range)
    else ((port, message) ∷ [], deliver (port, message))

pub mapped_channel : MidiIo → ℕ → ℕ
mapped_channel io original = min (unwrap_or io.echo_channel original) 15

pub mapped_note : MidiIo → ℕ → ℕ
mapped_note io original = low_bits_ℤ 8 (pos original +ℤ io.note_transpose)

pub mapped_echo : MidiIo → Message → Message
mapped_echo io (note_on c n velocity) = note_on (mapped_channel io c) (mapped_note io n) velocity
mapped_echo io (note_off c n velocity) = note_off (mapped_channel io c) (mapped_note io n) velocity
mapped_echo io (controller c control value) = controller (mapped_channel io c) control value
mapped_echo io (program_change c program) = program_change (mapped_channel io c) program
mapped_echo io (channel_pressure c value) = channel_pressure (mapped_channel io c) value
mapped_echo io (pitch_bend c value) =
    pitch_bend (mapped_channel io c) (low_bits_ℤ 16 (pos value +ℤ io.bend_tune))
mapped_echo io message = message

-- `checked_sub(1)` and the cast to `usize`: a port number counts from one.
pub zero_based : ℤ → Option ℕ
zero_based (pos zero) = none
zero_based (pos (suc n)) = some n
zero_based (negsuc n) = none

pub echo_on : (ℕ × Message → Result SendError (Unit {0})) → MidiIo → Option ℕ → Message → Sending
echo_on deliver io none message = ([], ok tt)
echo_on deliver io (some port) message = send deliver io port message

pub echo : (ℕ × Message → Result SendError (Unit {0})) → MidiIo → Message → Sending
echo deliver io message = echo_on deliver io (zero_based io.echo_port) (mapped_echo io message)

-- `set_echo_port`: the port counts from one, and zero turns the echo off.
pub set_echo_port : MidiIo → ℤ → MidiIo × Bool
set_echo_port io (negsuc n) = (io, false)
set_echo_port io (pos n) =
    if leb n (min io.outputs (2 ^ 31 - 1))
    then (record io { echo_port = pos n }, true)
    else (io, false)

-- The channel of a route replaces that of every message that has one.
pub on_channel : ℕ → Message → Message
on_channel c (note_off _ n v) = note_off (min c 15) n v
on_channel c (note_on _ n v) = note_on (min c 15) n v
on_channel c (polyphonic_pressure _ n v) = polyphonic_pressure (min c 15) n v
on_channel c (controller _ n v) = controller (min c 15) n v
on_channel c (program_change _ p) = program_change (min c 15) p
on_channel c (channel_pressure _ v) = channel_pressure (min c 15) v
on_channel c (pitch_bend _ v) = pitch_bend (min c 15) v
on_channel c message = message

pub echo_to_route : (ℕ × Message → Result SendError (Unit {0})) → MidiIo → ℤ → ℕ → Message → Sending
echo_to_route deliver io output_port channel message =
    echo_on deliver io (zero_based output_port) (on_channel channel (mapped_echo io message))
