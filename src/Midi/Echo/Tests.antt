-- ===== src/Midi/Echo/Tests.antt =====
-- src/midiio.rs: the echo at one message.
use freewheeling_plus.Prelude.{
  ◌≡◌, true, ◌<◌, ◌+◌, ◌==◌, refl, some, ok, err, [], ◌∷◌, if◌then◌else◌,
}
use freewheeling_plus.Prelude.Int.{pos, negsuc}
use freewheeling_plus.Midi.{note_on}
use freewheeling_plus.Midi.Echo.{
  MidiIo, backend_failed, set_echo_port, echo, mapped_echo, mapped_channel, mapped_note, send,
  zero_based, echo_on, on_channel, echo_to_route,
}
use freewheeling_plus.Midi.Echo.Routes.{
  Deliver, echoed, channel_of, routed_channel, echo_to_route-sent, echo-set_echo_port,
}

-- Two outputs, and notes go an octave down.
abbrev io : MidiIo
io = record {
  outputs = 2;
  echo_port = pos 1;
  echo_channel = some 4;
  note_transpose = negsuc 11;
  bend_tune = pos 0;
}

-- A backend that takes every packet of port 0 only.
abbrev deliver : Deliver
deliver packet = if packet.0 == 0 then ok tt else err backend_failed

routed : (echo_to_route deliver io (pos 2) 9 (note_on 0 60 100)).0 ≡ (1, note_on 9 48 100) ∷ []
unfolding echo_to_route echo_on zero_based send on_channel mapped_echo mapped_channel mapped_note
    freewheeling_plus.Prelude.Int.◌+ℤ◌
routed = refl

echo_to_route-sent_example :
    (pos 2 ≡ pos (1 + 1))
    × (1 < 2)
    × (channel_of (note_on 9 48 100) ≡ routed_channel 9 (channel_of (note_on 0 60 100)))
    × ((echo_to_route deliver io (pos 2) 9 (note_on 0 60 100)).1 ≡ err backend_failed)
echo_to_route-sent_example =
    echo_to_route-sent deliver io (pos 2) 9 (note_on 0 60 100) (1, note_on 9 48 100) routed

accepted : (set_echo_port io (pos 2)).1 ≡ true
unfolding set_echo_port
accepted = refl

echo-set_echo_port_example :
    echo deliver (set_echo_port io (pos 2)).0 (note_on 0 60 100)
    ≡ echoed deliver 2 (mapped_echo io (note_on 0 60 100))
echo-set_echo_port_example = echo-set_echo_port deliver io 2 (note_on 0 60 100) accepted
