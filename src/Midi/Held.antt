-- ===== src/Midi/Held.antt =====
-- src/midiio.rs: the notes that `MidiIo` knows to be held. A message that the backend received comes
-- with its port, and its note is below 128, as `decode` makes sure; `note_port` has 128 entries.
mod Release
mod Tests
use freewheeling_plus.Prelude.{
  ℕ, ◌^◌, Bool, not, ◌||◌, Option, none, some, List, [], ◌∷◌, ◌++◌, Result, ◌==◌, ltb,
  if◌then◌else◌, get_or, set, retain,
}
use freewheeling_plus.Prelude.Options.{unwrap_or}
use freewheeling_plus.Midi.{Message, note_on, note_off}
use freewheeling_plus.Midi.Echo.{MidiIo, SendError, send}

pub record HeldNotes : Type 0 where
  pub held_notes : List (ℕ × ℕ)
  pub note_port : List (Option ℕ)

-- `u8::try_from(port).ok()`
pub port_byte : ℕ → Option ℕ
port_byte port = if ltb port 256 then some port else none

-- `receive` with what the backend gave.
pub receive : HeldNotes → ℕ → Message → HeldNotes
receive h port (note_on channel note velocity) = record {
  held_notes = h.held_notes ++ (note, channel) ∷ [];
  note_port = set h.note_port note (port_byte port);
}
receive h port (note_off channel note velocity) = record {
  held_notes = retain (λ k. not (k.0 == note) || not (k.1 == channel)) h.held_notes;
  note_port = set h.note_port note none;
}
receive h port message = h

-- The port that the release of a note goes to.
pub port_of : List (Option ℕ) → ℕ → ℕ
port_of note_port note = unwrap_or (get_or note_port note none) 0

-- The packets that the releases hand to the backend; what `send` answers is dropped.
pub release_notes :
    (ℕ × Message → Result SendError (Unit {0}))
    → MidiIo
    → List (Option ℕ)
    → List (ℕ × ℕ)
    → List (ℕ × Message)
release_notes deliver io note_port [] = []
release_notes deliver io note_port (k ∷ held) =
    (send deliver io (port_of note_port k.0) (note_off k.1 k.0 0)).0
    ++ release_notes deliver io note_port held

-- `release_held_notes`: nothing is held any more.
pub release_held_notes :
    (ℕ × Message → Result SendError (Unit {0}))
    → MidiIo
    → HeldNotes
    → HeldNotes × List (ℕ × Message)
release_held_notes deliver io h =
    (record h { held_notes = [] }, release_notes deliver io h.note_port h.held_notes)
