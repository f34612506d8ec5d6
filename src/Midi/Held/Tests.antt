-- ===== src/Midi/Held/Tests.antt =====
-- src/midiio.rs: held notes at concrete messages.
use freewheeling_plus.Prelude.{ℕ, ◌≡◌, refl, none, List, [], ◌∷◌, replicate, Option, Result, ok}
use freewheeling_plus.Prelude.Int.{pos}
use freewheeling_plus.Midi.Echo.{MidiIo, SendError, send}
use freewheeling_plus.Midi.{Message, note_on, note_off}
use freewheeling_plus.Midi.Held.{receive, release_notes, release_held_notes, port_byte, port_of}
use freewheeling_plus.Midi.Held.Release.{receive_all}

abbrev ports : List (Option ℕ)
ports = replicate 128 none

-- Note 60 sounds on two channels of port 3, and ends on one of them.
abbrev messages : List (ℕ × Message)
messages = (3, note_on 0 60 90) ∷ (3, note_on 1 60 90) ∷ (3, note_off 0 60 0) ∷ []

-- Four outputs, and a backend that takes every packet.
abbrev io : MidiIo
io = record {
  outputs = 4;
  echo_port = pos 0;
  echo_channel = none;
  note_transpose = pos 0;
  bend_tune = pos 0;
}

abbrev deliver : ℕ × Message → Result SendError (Unit {0})
deliver packet = ok tt

-- The release of the note that still sounds goes to port 0, since the other channel's note-off
-- cleared its port.
release_port :
    (release_held_notes deliver io
      (receive_all (record { held_notes = []; note_port = ports }) messages)).1
    ≡ (0, note_off 1 60 0) ∷ []
unfolding release_held_notes release_notes receive_all receive port_of port_byte send
release_port = refl
