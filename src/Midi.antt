-- ===== src/Midi.antt =====
-- src/midiio.rs: MIDI messages with `decode` and `encode`. A byte is a number below 256. The bit
-- operations are written as arithmetic: `& 0x0f` is `% 16`, `& 0x7f` is `% 128`, `>> 7` is `/ 128`,
-- and `|` of parts without a common bit is `+`.
mod RoundTrip
pub mod Echo
mod Held
mod Tests
use freewheeling_plus.Prelude.{
  ℕ, ◌+◌, ◌*◌, ◌/◌, ◌%◌, ◌^◌, min, Bool, true, false, ◌&&◌, Option, none, some, List, [], ◌∷◌, ◌==◌,
  ltb, leb, if◌then◌else◌, length, get_elem?,
}
use freewheeling_plus.Prelude.Options.{◌>>=◌, keep_if}

pub data Message : Type 0 where
  note_off : (channel note velocity : ℕ) → Message
  note_on : (channel note velocity : ℕ) → Message
  polyphonic_pressure : (channel note value : ℕ) → Message
  controller : (channel control value : ℕ) → Message
  program_change : (channel program : ℕ) → Message
  channel_pressure : (channel value : ℕ) → Message
  pitch_bend : (channel value : ℕ) → Message
  time_code_quarter_frame : ℕ → Message
  song_position : ℕ → Message
  song_select : ℕ → Message
  tune_request : Message
  clock : Message
  start : Message
  continue : Message
  stop : Message
  active_sensing : Message
  reset : Message
  system_exclusive : List ℕ → Message

-- `lo..=hi` as a pattern.
abbrev in_range : ℕ → ℕ → ℕ → Bool
in_range lo hi x = leb lo x && leb x hi

-- The closure `data7`: a data byte has its high bit clear.
pub data7 : List ℕ → ℕ → Option ℕ
data7 bytes index = keep_if (λ v. ltb v 0x80) (get_elem? bytes index)

pub last_is : ℕ → List ℕ → Bool
last_is a [] = false
last_is a (x ∷ []) = x == a
last_is a (x ∷ y ∷ ys) = last_is a (y ∷ ys)

-- The arms of the channel messages, 0x80 to 0xef.
decode_channel : List ℕ → ℕ → Option Message
unfolding data7
decode_channel bytes status =
    let channel = status % 16 in
    if in_range 0x80 0x8f status && length bytes == 3
    then (do note ← data7 bytes 1; velocity ← data7 bytes 2; some (note_off channel note velocity))
    else if in_range 0x90 0x9f status && length bytes == 3
    then (do
      note ← data7 bytes 1
      velocity ← data7 bytes 2
      some
          (if velocity == 0 then note_off channel note velocity else note_on channel note velocity))
    else if in_range 0xa0 0xaf status && length bytes == 3
    then (do
      note ← data7 bytes 1
      value ← data7 bytes 2
      some (polyphonic_pressure channel note value))
    else if in_range 0xb0 0xbf status && length bytes == 3
    then (do
      control ← data7 bytes 1
      value ← data7 bytes 2
      some (controller channel control value))
    else if in_range 0xc0 0xcf status && length bytes == 2
    then (do program ← data7 bytes 1; some (program_change channel program))
    else if in_range 0xd0 0xdf status && length bytes == 2
    then (do value ← data7 bytes 1; some (channel_pressure channel value))
    else if in_range 0xe0 0xef status && length bytes == 3
    then (do
      lsb ← data7 bytes 1
      msb ← data7 bytes 2
      some (pitch_bend channel (lsb + msb * 2 ^ 8)))
    else none

-- The arms of the system messages, 0xf0 to 0xff.
decode_system : List ℕ → ℕ → Option Message
unfolding data7 last_is
decode_system bytes status =
    if status == 0xf0 && (leb 2 (length bytes) && last_is 0xf7 bytes)
    then some (system_exclusive bytes)
    else if status == 0xf1 && length bytes == 2
    then (do v ← data7 bytes 1; some (time_code_quarter_frame v))
    else if status == 0xf2 && length bytes == 3
    then (do lsb ← data7 bytes 1; msb ← data7 bytes 2; some (song_position (lsb + msb * 2 ^ 7)))
    else if status == 0xf3 && length bytes == 2
    then (do v ← data7 bytes 1; some (song_select v))
    else if status == 0xf6 && length bytes == 1
    then some tune_request
    else if status == 0xf8 && length bytes == 1
    then some clock
    else if status == 0xfa && length bytes == 1
    then some start
    else if status == 0xfb && length bytes == 1
    then some continue
    else if status == 0xfc && length bytes == 1
    then some stop
    else if status == 0xfe && length bytes == 1
    then some active_sensing
    else if status == 0xff && length bytes == 1
    then some reset
    else none

-- The patterns of the two groups do not overlap, so the order of the arms is kept.
pub decode : List ℕ → Option Message
unfolding decode_channel decode_system
decode [] = none
decode (status ∷ rest) =
    if ltb status 0xf0
    then decode_channel (status ∷ rest) status
    else decode_system (status ∷ rest) status

pub encode : Message → List ℕ
encode (note_off channel note velocity) =
    (0x80 + min channel 15) ∷ min note 127 ∷ min velocity 127 ∷ []
encode (note_on channel note velocity) =
    (0x90 + min channel 15) ∷ min note 127 ∷ min velocity 127 ∷ []
encode (polyphonic_pressure channel note value) =
    (0xa0 + min channel 15) ∷ min note 127 ∷ min value 127 ∷ []
encode (controller channel control value) =
    (0xb0 + min channel 15) ∷ min control 127 ∷ min value 127 ∷ []
encode (program_change channel program) = (0xc0 + min channel 15) ∷ min program 127 ∷ []
encode (channel_pressure channel value) = (0xd0 + min channel 15) ∷ min value 127 ∷ []
encode (pitch_bend channel value) =
    (0xe0 + min channel 15) ∷ (value % 128) ∷ (value / 2 ^ 8 % 128) ∷ []
encode (time_code_quarter_frame v) = 0xf1 ∷ (v % 128) ∷ []
encode (song_position v) = 0xf2 ∷ (v % 128) ∷ (v / 2 ^ 7 % 128) ∷ []
encode (song_select v) = 0xf3 ∷ (v % 128) ∷ []
encode tune_request = 0xf6 ∷ []
encode clock = 0xf8 ∷ []
encode start = 0xfa ∷ []
encode continue = 0xfb ∷ []
encode stop = 0xfc ∷ []
encode active_sensing = 0xfe ∷ []
encode reset = 0xff ∷ []
encode (system_exclusive bytes) = bytes
