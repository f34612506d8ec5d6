-- ===== src/Engine/Runtime/Ended.antt =====
-- src/native_dsp_graph.rs: what `stop_recording` makes of the loop that was recorded.
use freewheeling_plus.Prelude.{
  ℕ, ◌%◌, ◌^◌, ◌<◌, ◌≡◌, ◌≢◌, refl, ap, ◌∙◌, Bool, not, ◌&&◌, ◌||◌, none, some, ◌∷◌, ◌==◌,
  get_elem?, get_elem?-lt, get_elem?-set_self, get_elem?-set_ne, All-get, if◌then◌else◌, arith,
}
use freewheeling_plus.Prelude.Floats.{Float32}
use freewheeling_plus.Engine.Command.{empty, playing}
use freewheeling_plus.Engine.Blocks.{BlockPool}
use freewheeling_plus.Engine.Pulse.{PulseClock}
use freewheeling_plus.Engine.Loop.{LoopSlot}
use freewheeling_plus.Engine.Runtime.{Engine, is_recording, is_overdubbing, loop_completed}
use freewheeling_plus.Engine.Runtime.Recording.{end_slot, stop_recording}
use freewheeling_plus.Engine.Runtime.Room.{IsSame}
use freewheeling_plus.Engine.Runtime.Valid.{IsLoop, IsEngine}
use freewheeling_plus.Engine.Runtime.Open.{IsEngine-IsOpen}
use freewheeling_plus.Engine.Runtime.Stop.{stop_open-IsStopped}

-- A loop `t` that the recording of `s` ended with: it plays all frames that were recorded.
pub record IsPlayable {F : Type 0} (s t : LoopSlot F) : Type 0 where
  pub len : t.len ≡ s.len
  pub recorded_frames : t.recorded_frames ≡ s.len % 2 ^ 32
  pub mode : t.mode ≡ (if s.len == 0 then empty else playing)
  pub inside : 0 < s.len → t.position < s.len

ended-IsPlayable :
    {F : Type 0} (c : PulseClock) (s x : LoopSlot F)
    → IsSame s x
    → IsLoop (end_slot c x)
    → IsPlayable s (end_slot c x)
unfolding end_slot
ended-IsPlayable c s x g v = record {
  len = g.len;
  recorded_frames = ap (λ n. n % 2 ^ 32) g.len;
  mode = rw g.len refl;
  inside = λ h. omega (arith, v.placed (omega (arith, h, g.len)), g.len);
}

-- In a well-formed engine that records a loop, `stop_recording` comes to an end. It keeps the number
-- of frames that were recorded, with its low 32 bits as `recorded_frames`, lets the loop play from a position inside it, or be empty if it has
-- none, leaves all other loops alone, and reports the loop if it is asked to, the loop has frames and
-- was being recorded or overdubbed.
pub stop_recording-IsPlayable :
    (f : Float32) (P : BlockPool f.F) (e : Engine P) (index : ℕ) (s : LoopSlot f.F) (notify : Bool)
    → IsEngine e
    → e.recorder.recording ≡ some index
    → get_elem? e.loops index ≡ some s
    → (t : Engine P) × (u : LoopSlot f.F) × (stop_recording f P e notify ≡ some t)
      × (t.recorder.recording ≡ none)
      × (get_elem? t.loops index ≡ some u)
      × IsPlayable s u
      × ((other : ℕ) → index ≢ other → get_elem? t.loops other ≡ get_elem? e.loops other)
      × (t.sent ≡ (
          if notify && not (s.len == 0) && (is_recording s.mode || is_overdubbing s.mode)
          then loop_completed index ∷ e.sent
          else e.sent))
stop_recording-IsPlayable f P e index s notify v r at =
    let w = All-get IsLoop e.loops index s v.loops_valid at in
    let t =
      stop_open-IsStopped f P e index s notify (IsEngine-IsOpen f P e index v) r at w.roomy
        (λ _. w.placed) in
    let u = end_slot e.clock t.3.taken in
    let found : get_elem? t.0.loops index ≡ some u =
      ap (λ ls. get_elem? ls index) t.3.loops
      ∙ get_elem?-set_self e.loops index u (get_elem?-lt e.loops index at) in
    (
      t.0,
      u,
      t.1,
      t.2.idle,
      found,
      ended-IsPlayable e.clock s t.3.taken t.3.same
          (All-get IsLoop t.0.loops index u t.2.valid.loops_valid found),
      λ other ne. ap (λ ls. get_elem? ls other) t.3.loops ∙ get_elem?-set_ne e.loops u ne,
      t.3.sent,
    )
