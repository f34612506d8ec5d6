-- ===== src/Midi/Held/Release.antt =====
-- src/midiio.rs: which notes `release_held_notes` releases.
use freewheeling_plus.Prelude.{ℕ, Bool, false, not, ◌&&◌, ◌||◌, List, [], ◌∷◌, ◌==◌}
use freewheeling_plus.Midi.{Message, note_off, note_on}
use freewheeling_plus.Midi.Held.{HeldNotes, receive}

unfoldable pub receive_all : HeldNotes → List (ℕ × Message) → HeldNotes
receive_all h [] = h
receive_all h (m ∷ ms) = receive_all (receive h m.0 m.1) ms

-- Whether a key sounds after a message, from whether it sounded before.
pub after : ℕ → ℕ → Message → Bool → Bool
after note channel (note_on c n _) b = b || n == note && c == channel
after note channel (note_off c n _) b = b && not (n == note && c == channel)
after note channel _ b = b

-- Whether the key sounds after some messages: the last one on it counts.
pub sounding : ℕ → ℕ → Bool → List (ℕ × Message) → Bool
sounding note channel b [] = b
sounding note channel b (m ∷ ms) = sounding note channel (after note channel m.1 b) ms

has : List (ℕ × ℕ) → ℕ → ℕ → Bool
has [] note channel = false
has (k ∷ ks) note channel = (k.0 == note && k.1 == channel) || has ks note channel

-- Whether a message is the note-off of a key.
pub is_off : ℕ → ℕ → Message → Bool
is_off note channel (note_off c n _) = n == note && c == channel
is_off note channel _ = false

-- Whether a packet among these is the note-off of a key.
pub releases : List (ℕ × Message) → ℕ → ℕ → Bool
releases [] note channel = false
releases (p ∷ ps) note channel = is_off note channel p.1 || releases ps note channel
