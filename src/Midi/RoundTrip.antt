-- ===== src/Midi/RoundTrip.antt =====
-- src/midiio.rs: `decode` and `encode` are inverse to one another on the wire format.
use freewheeling_plus.Prelude.{
  ℕ, ◌-◌, ◌*◌, ◌/◌, ◌%◌, ◌≤◌, ◌<◌, ◌≡◌, refl, true, ◌&&◌, Option, none, some, List, [], ◌∷◌, ◌==◌,
  ltb, leb, if◌then◌else◌, length, get_elem?, arith, Bool-cases, ltb→lt, inl, inr, subst,
}
use freewheeling_plus.Midi.{
  Message, note_off, note_on, polyphonic_pressure, controller, program_change, channel_pressure,
  pitch_bend, time_code_quarter_frame, song_position, song_select, tune_request, clock, start,
  continue, stop, active_sensing, reset, system_exclusive, decode, decode_channel, decode_system,
  last_is, encode,
}

-- A message as the wire carries it: channels below 16, data below 128, a bend or position that two
-- data bytes hold, and a sounding `note_on`.
abbrev pub IsWire : Message → Type 0
IsWire (note_off channel note velocity) = (channel < 16) × (note < 128) × (velocity < 128)
IsWire (note_on channel note velocity) =
    (channel < 16) × (note < 128) × (velocity < 128) × (0 < velocity)
IsWire (polyphonic_pressure channel note value) = (channel < 16) × (note < 128) × (value < 128)
IsWire (controller channel control value) = (channel < 16) × (control < 128) × (value < 128)
IsWire (program_change channel program) = (channel < 16) × (program < 128)
IsWire (channel_pressure channel value) = (channel < 16) × (value < 128)
IsWire (pitch_bend channel value) = (channel < 16) × (value % 256 < 128) × (value / 256 < 128)
IsWire (time_code_quarter_frame v) = v < 128
IsWire (song_position v) = v < 128 * 128
IsWire (song_select v) = v < 128
IsWire (system_exclusive bytes) =
    (get_elem? bytes 0 ≡ some 0xf0) × (2 ≤ length bytes) × (last_is 0xf7 bytes ≡ true)
IsWire _ = Unit

-- `decode` reads back what `encode` writes, for every message that the wire can carry.
pub decode-encode : (m : Message) → IsWire m → decode (encode m) ≡ some m
unfolding decode encode
decode-encode (note_off channel note velocity) w = ground arith
decode-encode (note_on channel note velocity) w = ground arith
decode-encode (polyphonic_pressure channel note value) w = ground arith
decode-encode (controller channel control value) w = ground arith
decode-encode (program_change channel program) w = ground arith
decode-encode (channel_pressure channel value) w = ground arith
decode-encode (pitch_bend channel value) w = ground arith
decode-encode (time_code_quarter_frame v) w = ground arith
decode-encode (song_position v) w = ground arith
decode-encode (song_select v) w = ground arith
decode-encode tune_request w = refl
decode-encode clock w = refl
decode-encode start w = refl
decode-encode continue w = refl
decode-encode stop w = refl
decode-encode active_sensing w = refl
decode-encode reset w = refl
decode-encode (system_exclusive bytes) w = ground arith

-- The bytes of a `note_on` without velocity are those of the `note_off`; all others stay.
abbrev pub canonical : List ℕ → List ℕ
canonical (status ∷ note ∷ velocity ∷ []) =
    if leb 0x90 status && (leb status 0x9f && velocity == 0)
    then (status - 16) ∷ note ∷ 0 ∷ []
    else status ∷ note ∷ velocity ∷ []
canonical bytes = bytes

abbrev Answers : List ℕ → Option Message → Type 0
Answers bytes none = Unit
Answers bytes (some m) = (encode m ≡ canonical bytes) × IsWire m

decode_channel-Answers :
    (status : ℕ) (rest : List ℕ)
    → 0x80 ≤ status
    → status < 0xf0
    → Answers (status ∷ rest) (decode_channel (status ∷ rest) status)
unfolding decode_channel encode
decode_channel-Answers s [] l h = ground arith
decode_channel-Answers s (a ∷ []) l h = ground arith
decode_channel-Answers s (a ∷ b ∷ []) l h = ground arith
decode_channel-Answers s (a ∷ b ∷ c ∷ r) l h = ground arith

decode_channel-low :
    (bytes : List ℕ) (status : ℕ) → status < 0x80 → decode_channel bytes status ≡ none
unfolding decode_channel
decode_channel-low bytes status h = ground arith

decode_system-Answers :
    (status : ℕ) (rest : List ℕ) → Answers (status ∷ rest) (decode_system (status ∷ rest) status)
unfolding decode_system encode
decode_system-Answers s [] = ground arith
decode_system-Answers s (a ∷ []) = ground arith
decode_system-Answers s (a ∷ b ∷ []) = ground arith
decode_system-Answers s (a ∷ b ∷ c ∷ r) = ground arith

decode-Answers : (bytes : List ℕ) → Answers bytes (decode bytes)
unfolding decode
decode-Answers [] = tt
decode-Answers (s ∷ rest) = elim (Bool-cases (ltb s 0xf0)) [
  | inr high ↦ rw high (decode_system-Answers s rest)
  | inl low ↦ rw low (elim (Bool-cases (ltb s 0x80)) [
    | inl e ↦ rw (decode_channel-low (s ∷ rest) s (ltb→lt s 0x80 e)) tt
    | inr e ↦ decode_channel-Answers s rest (ground arith) (ltb→lt s 0xf0 low)
  ])
]

-- A message that `decode` accepts is one that the wire carries, and `encode` gives back the bytes
-- that it was read from; the bytes of a `note_on` without velocity come back as a `note_off`.
pub encode-decode :
    (bytes : List ℕ) (m : Message) → decode bytes ≡ some m → (encode m ≡ canonical bytes) × IsWire m
encode-decode bytes m h = subst (Answers bytes) h (decode-Answers bytes)
