-- ===== src/Midi/Tests.antt =====
-- src/midiio.rs: the codec at single messages.
use freewheeling_plus.Prelude.{◌≡◌, refl, some, [], ◌∷◌, arith}
use freewheeling_plus.Midi.{note_off, pitch_bend, decode, encode}
use freewheeling_plus.Midi.RoundTrip.{IsWire, canonical, decode-encode, encode-decode}

decode-encode_example : decode (encode (pitch_bend 3 0x2105)) ≡ some (pitch_bend 3 0x2105)
decode-encode_example = decode-encode (pitch_bend 3 0x2105) (omega arith)

silent_note : decode (0x92 ∷ 60 ∷ 0 ∷ []) ≡ some (note_off 2 60 0)
unfolding decode
silent_note = refl

encode-decode_example :
    (encode (note_off 2 60 0) ≡ canonical (0x92 ∷ 60 ∷ 0 ∷ [])) × IsWire (note_off 2 60 0)
encode-decode_example = encode-decode (0x92 ∷ 60 ∷ 0 ∷ []) (note_off 2 60 0) silent_note
