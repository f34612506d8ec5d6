-- ===== src/Engine/Runtime/Valid.antt =====
-- src/native_dsp_graph.rs: the well-formed engines.
use freewheeling_plus.Prelude.{
  ℕ, ◌+◌, ◌≤◌, ◌<◌, ◌≡◌, refl, Bool, true, false, some, length, length-set, All, All-set, arith,
  if◌then◌else◌,
}
use freewheeling_plus.Prelude.Words.{u32_max, usize_max}
use freewheeling_plus.Engine.Transfer.{TransferSlot}
use freewheeling_plus.Engine.Blocks.{BlockPool}
use freewheeling_plus.Engine.Pulse.{PulseClock, extend_pulse_long_count}
use freewheeling_plus.Engine.Loop.{LoopSlot, loop_smooth_frames}
use freewheeling_plus.Engine.Runtime.{Engine, put_loop, on_mixer, send_status, RuntimeStatus}
use freewheeling_plus.Engine.Mixer.{Mixer}
use freewheeling_plus.Engine.Runtime.Pcm.{is_queued}
use freewheeling_plus.Engine.Runtime.Room.{IsRoomy, IsKept, kept-IsRoomy}

-- A loop within its storage that stands at one of its frames, if it has any.
pub record IsLoop {F : Type 0} (s : LoopSlot F) : Type 0 where
  pub roomy : IsRoomy s
  pub placed : 0 < s.len → s.position < s.len

-- The vectors of a transfer are equally long, and the frames that wait for an import lie in them.
pub record IsTransfer {F : Type 0} (t : TransferSlot F) : Type 0 where
  pub level : length t.pcm.left ≡ length t.pcm.right
  pub fits : is_queued t.state ≡ true → t.pcm.len ≤ length t.pcm.left
  pub short : is_queued t.state ≡ true → t.pcm.len + loop_smooth_frames ≤ usize_max

-- The long count leaves the phase of the pulse as it is.
pub extend_pulse_long_count-position :
    (c : PulseClock) (beats : ℕ) (justify : Bool)
    → (extend_pulse_long_count c beats justify).pulse_position ≡ c.pulse_position
unfolding extend_pulse_long_count
extend_pulse_long_count-position c beats justify = ground arith

pub ended-position :
    (c : PulseClock) (beats : ℕ) (justify extends : Bool)
    → (if extends then extend_pulse_long_count c beats justify else c).pulse_position
      ≡ c.pulse_position
ended-position c beats justify true = extend_pulse_long_count-position c beats justify
ended-position c beats justify false = refl

-- A change that keeps the storage of a loop.
pub changed-IsLoop :
    {F : Type 0} (s t : LoopSlot F)
    → IsLoop s
    → IsKept s t
    → (0 < t.len → t.position < t.len)
    → IsLoop t
changed-IsLoop s t v k p = record { roomy = kept-IsRoomy s t k v.roomy; placed = p }

module _ {F : Type 0} {P : BlockPool F} where
  pub record IsEngine (e : Engine P) : Type 0 where
    pub pool_valid : P.IsPool e.loop_storage
    pub loops_valid : All IsLoop e.loops
    pub recorded : (index : ℕ) → e.recorder.recording ≡ some index → index < length e.loops
    pub phase_fits : e.clock.pulse_position ≤ u32_max
    pub history_level : length e.history.left ≡ length e.history.right
    pub history_fits : e.history.len ≤ length e.history.left
    pub transfers_valid : All IsTransfer e.transfers.slots

  -- A change of one loop that keeps it well formed.
  pub put_loop-IsEngine :
      (e : Engine P) (index : ℕ) (s : LoopSlot F)
      → IsEngine e
      → IsLoop s
      → IsEngine (put_loop e index s)
  unfolding put_loop
  put_loop-IsEngine e index s v w = record {
    pool_valid = v.pool_valid;
    loops_valid = All-set IsLoop e.loops index s v.loops_valid w;
    recorded = λ i h. omega (arith, v.recorded i h, length-set e.loops index s);
    phase_fits = v.phase_fits;
    history_level = v.history_level;
    history_fits = v.history_fits;
    transfers_valid = v.transfers_valid;
  }

  pub send_status-IsEngine :
      (e : Engine P) (status : RuntimeStatus F) → IsEngine e → IsEngine (send_status e status)
  unfolding send_status
  send_status-IsEngine e status v = record {
    pool_valid = v.pool_valid;
    loops_valid = v.loops_valid;
    recorded = v.recorded;
    phase_fits = v.phase_fits;
    history_level = v.history_level;
    history_fits = v.history_fits;
    transfers_valid = v.transfers_valid;
  }

  pub on_mixer-IsEngine :
      (e : Engine P) (change : Mixer F → Mixer F) → IsEngine e → IsEngine (on_mixer e change)
  unfolding on_mixer
  on_mixer-IsEngine e change v = record {
    pool_valid = v.pool_valid;
    loops_valid = v.loops_valid;
    recorded = v.recorded;
    phase_fits = v.phase_fits;
    history_level = v.history_level;
    history_fits = v.history_fits;
    transfers_valid = v.transfers_valid;
  }

  pub paid-IsEngine :
      (e : Engine P) (p : P.Pool)
      → IsEngine e
      → P.IsPool p
      → IsEngine (record e { loop_storage = p })
  paid-IsEngine e p v w = record {
    pool_valid = w;
    loops_valid = v.loops_valid;
    recorded = v.recorded;
    phase_fits = v.phase_fits;
    history_level = v.history_level;
    history_fits = v.history_fits;
    transfers_valid = v.transfers_valid;
  }
