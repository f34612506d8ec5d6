-- ===== src/Midi/Echo/Routes.antt =====
-- src/midiio.rs: where the echo goes, and on which channel.
use freewheeling_plus.Prelude.{
  ℕ, zero, suc, ◌+◌, ◌<◌, ◌≡◌, refl, ◌∙◌, ap, min, leb, Option, none, some, [], ◌∷◌, sym, Result,
  ok, arith, Bool-cases, inl, inr, ◌-◌, ◌^◌, ◌≤◌, true, false, min,
}
use freewheeling_plus.Prelude.Int.{ℤ, pos, negsuc}
use freewheeling_plus.Midi.{
  Message, note_off, note_on, polyphonic_pressure, controller, program_change, channel_pressure,
  pitch_bend, time_code_quarter_frame, song_position, song_select, tune_request, clock, start,
  continue, stop, active_sensing, reset, system_exclusive,
}
use freewheeling_plus.Midi.Echo.{
  MidiIo, Sending, SendError, set_echo_port, echo, mapped_channel, mapped_note, send, mapped_echo,
  zero_based, echo_on, on_channel, echo_to_route,
}

-- The channel of a message that has one.
pub channel_of : Message → Option ℕ
channel_of (note_off c _ _) = some c
channel_of (note_on c _ _) = some c
channel_of (polyphonic_pressure c _ _) = some c
channel_of (controller c _ _) = some c
channel_of (program_change c _) = some c
channel_of (channel_pressure c _) = some c
channel_of (pitch_bend c _) = some c
channel_of _ = none

-- The route's channel on what had a channel, and nothing else.
pub routed_channel : ℕ → Option ℕ → Option ℕ
routed_channel c none = none
routed_channel c (some _) = some (min c 15)

on_channel-routed :
    (io : MidiIo) (c : ℕ) (m : Message)
    → channel_of (on_channel c (mapped_echo io m)) ≡ routed_channel c (channel_of m)
unfolding channel_of on_channel mapped_echo routed_channel
on_channel-routed io c (note_off _ _ _) = refl
on_channel-routed io c (note_on _ _ _) = refl
on_channel-routed io c (polyphonic_pressure _ _ _) = refl
on_channel-routed io c (controller _ _ _) = refl
on_channel-routed io c (program_change _ _) = refl
on_channel-routed io c (channel_pressure _ _) = refl
on_channel-routed io c (pitch_bend _ _) = refl
on_channel-routed io c (time_code_quarter_frame _) = refl
on_channel-routed io c (song_position _) = refl
on_channel-routed io c (song_select _) = refl
on_channel-routed io c tune_request = refl
on_channel-routed io c clock = refl
on_channel-routed io c start = refl
on_channel-routed io c continue = refl
on_channel-routed io c stop = refl
on_channel-routed io c active_sensing = refl
on_channel-routed io c reset = refl
on_channel-routed io c (system_exclusive _) = refl

-- What a call answers when it handed the packet to the backend.
abbrev pub Deliver : Type 0
Deliver = ℕ × Message → Result SendError (Unit {0})

send-some :
    (deliver : Deliver) (io : MidiIo) (port : ℕ) (m : Message) (packet : ℕ × Message)
    → (send deliver io port m).0 ≡ packet ∷ []
    → (packet ≡ (port, m)) × (port < io.outputs) × ((send deliver io port m).1 ≡ deliver packet)
unfolding send
send-some deliver io port m packet e = elim (Bool-cases (leb io.outputs port)) [
  | inl beyond ↦ absurd cc
  | inr within ↦
      let same : packet ≡ (port, m) = cc in (same, ground arith, rw within (ap deliver (sym same)))
]

-- A message that `echo_to_route` hands to the backend goes to the open port that its one-based number
-- names, and on the route's channel, at most 15, if it has a channel at all; the call answers what the
-- backend answers.
pub echo_to_route-sent :
    (deliver : ℕ × Message → Result SendError (Unit {0})) (io : MidiIo) (output_port : ℤ) (c : ℕ)
    (m : Message) (packet : ℕ × Message)
    → (echo_to_route deliver io output_port c m).0 ≡ packet ∷ []
    → (output_port ≡ pos (packet.0 + 1))
      × (packet.0 < io.outputs)
      × (channel_of packet.1 ≡ routed_channel c (channel_of m))
      × ((echo_to_route deliver io output_port c m).1 ≡ deliver packet)
unfolding echo_to_route echo_on zero_based
echo_to_route-sent deliver io (pos zero) c m packet e = absurd cc
echo_to_route-sent deliver io (negsuc n) c m packet e = absurd cc
echo_to_route-sent deliver io (pos (suc n)) c m packet e =
    let (same, within, answer) =
      send-some deliver io n (on_channel c (mapped_echo io m)) packet e in
    let port : packet.0 ≡ n = ap (λ p. p.0) same in
    (
      ap pos (omega (arith, port)),
      omega (arith, port, within),
      ap (λ p. channel_of p.1) same ∙ on_channel-routed io c m,
      answer,
    )

mapped_echo_port :
    (io : MidiIo) (port : ℤ) (m : Message)
    → mapped_echo (record io { echo_port = port }) m ≡ mapped_echo io m
unfolding mapped_echo mapped_channel mapped_note
mapped_echo_port io port (note_off _ _ _) = refl
mapped_echo_port io port (note_on _ _ _) = refl
mapped_echo_port io port (polyphonic_pressure _ _ _) = refl
mapped_echo_port io port (controller _ _ _) = refl
mapped_echo_port io port (program_change _ _) = refl
mapped_echo_port io port (channel_pressure _ _) = refl
mapped_echo_port io port (pitch_bend _ _) = refl
mapped_echo_port io port (time_code_quarter_frame _) = refl
mapped_echo_port io port (song_position _) = refl
mapped_echo_port io port (song_select _) = refl
mapped_echo_port io port tune_request = refl
mapped_echo_port io port clock = refl
mapped_echo_port io port start = refl
mapped_echo_port io port continue = refl
mapped_echo_port io port stop = refl
mapped_echo_port io port active_sensing = refl
mapped_echo_port io port reset = refl
mapped_echo_port io port (system_exclusive _) = refl

-- What an echo to a port comes to: nothing where the port is zero, else the backend's answer.
pub echoed : Deliver → ℕ → Message → Sending
echoed deliver zero m = ([], ok tt)
echoed deliver (suc n) m = ((n, m) ∷ [], deliver (n, m))

echo_on_port :
    (deliver : Deliver) (io : MidiIo) (port : ℕ) (m : Message)
    → port ≤ io.outputs
    → echo_on deliver
        (record io { echo_port = pos port })
        (zero_based (pos port))
        (mapped_echo (record io { echo_port = pos port }) m)
      ≡ echoed deliver port (mapped_echo io m)
unfolding echo_on zero_based send echoed
echo_on_port deliver io zero m fits = refl
echo_on_port deliver io (suc n) m fits =
    let within : leb io.outputs n ≡ false = ground arith in
    rw within (ap (λ r. ((n, r) ∷ [], deliver (n, r))) (mapped_echo_port io (pos (suc n)) m))

-- Once `set_echo_port` accepted a port, no echo fails but by the backend: the mapped message is handed
-- to that port of the backend, whose answer is the result, and nothing is sent where the port is zero.
pub echo-set_echo_port :
    (deliver : ℕ × Message → Result SendError (Unit {0})) (io : MidiIo) (port : ℕ) (m : Message)
    → (set_echo_port io (pos port)).1 ≡ true
    → echo deliver (set_echo_port io (pos port)).0 m ≡ echoed deliver port (mapped_echo io m)
unfolding set_echo_port echo
echo-set_echo_port deliver io port m accepted =
    elim (Bool-cases (leb port (min io.outputs (2 ^ 31 - 1)))) [
      | inr refused ↦ absurd cc
      | inl fits ↦ simp fits (echo_on_port deliver io port m (ground arith))
    ]
