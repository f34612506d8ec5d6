-- ===== src/Engine/Runtime/Open.antt =====
-- src/native_dsp_graph.rs: the end of a recording, in an engine whose recorded loop is about to be written.
use freewheeling_plus.Prelude.{
  ℕ, ◌≤◌, ◌<◌, ◌≡◌, refl, sym, ap, ◌∙◌, subst, max, Bool, true, false, not, ◌&&◌, ◌||◌, some, ◌==◌,
  length, set, length-set, set-set, All, All-set, if◌then◌else◌, arith, Bool-cases, inl, inr,
}
use freewheeling_plus.Prelude.Words.{u32_max}
use freewheeling_plus.Prelude.Floats.{Float32}
use freewheeling_plus.Engine.Blocks.{BlockPool}
use freewheeling_plus.Engine.Pulse.{PulseClock}
use freewheeling_plus.Engine.Pulse.InStep.{pulse_synced_loop_position-lt}
use freewheeling_plus.Engine.Loop.{LoopSlot}
use freewheeling_plus.Engine.Runtime.{
  Engine, put_loop, send_status, loop_completed, is_overdubbing, is_recording,
}
use freewheeling_plus.Engine.Runtime.Recording.{end_slot, is_synced_take, end_take, complete}
use freewheeling_plus.Engine.Runtime.Room.{IsRoomy, IsKept, IsSame, kept-IsRoomy}
use freewheeling_plus.Engine.Runtime.Keep.{is_busy}
use freewheeling_plus.Engine.Runtime.Valid.{
  ended-position, IsLoop, IsTransfer, IsEngine, send_status-IsEngine,
}

module _ {F : Type 0} where
  end_slot-IsKept : (c : PulseClock) (s : LoopSlot F) → IsKept s (end_slot c s)
  unfolding end_slot
  end_slot-IsKept c s = record {
    left = refl;
    right = refl;
    blocks = refl;
    data_offset = refl;
    len = omega arith;
  }

  end_slot-placed :
      (c : PulseClock) (s : LoopSlot F)
      → (is_overdubbing s.mode ≡ true → 0 < s.len → s.position < s.len)
      → 0 < s.len
      → (end_slot c s).position < s.len
  unfolding end_slot
  end_slot-placed c s o h =
      let beats = if is_synced_take s then max s.pulse_beats 1 else s.pulse_beats in
      let inside =
        pulse_synced_loop_position-lt c.pulse_frames c.pulse_position c.pulse_long_count beats s.len
          s.capture_alignment_frames h in
      elim (Bool-cases (is_overdubbing s.mode)) [
        | inl e ↦ rw e (o e h)
        | inr e ↦ elim (Bool-cases (c.pulse_sync_active && not (s.len == 0))) [
          | inl a ↦ rw e (rw a inside)
          | inr a ↦ rw e (rw a h)
        ]
      ]

  pub end_slot_idle : (c : PulseClock) (s : LoopSlot F) → is_busy (end_slot c s) ≡ false
  unfolding end_slot is_busy is_recording is_overdubbing
  end_slot_idle c s = ground arith

  pub end_slot-IsLoop :
      (c : PulseClock) (s : LoopSlot F)
      → IsRoomy s
      → (is_overdubbing s.mode ≡ true → 0 < s.len → s.position < s.len)
      → IsLoop (end_slot c s)
  unfolding end_slot
  end_slot-IsLoop c s w o = record {
    roomy = kept-IsRoomy s (end_slot c s) (end_slot-IsKept c s) w;
    placed = λ h. end_slot-placed c s o h;
  }

module _ (f : Float32) (P : BlockPool f.F) where
  open f use {F}
  open P use {IsPool, ready, room}

  -- A well-formed engine but for the loop at an index, which is about to be written.
  pub record IsOpen (e : Engine P) (index : ℕ) : Type 0 where
    pub pool_valid : IsPool e.loop_storage
    pub others : (x : LoopSlot F) → IsLoop x → All IsLoop (set e.loops index x)
    pub recorded : (i : ℕ) → e.recorder.recording ≡ some i → i < length e.loops
    pub phase_fits : e.clock.pulse_position ≤ u32_max
    pub history_level : length e.history.left ≡ length e.history.right
    pub history_fits : e.history.len ≤ length e.history.left
    pub transfers_valid : All IsTransfer e.transfers.slots

  pub IsEngine-IsOpen : (e : Engine P) (index : ℕ) → IsEngine e → IsOpen e index
  IsEngine-IsOpen e index v = record {
    pool_valid = v.pool_valid;
    others = λ x w. All-set IsLoop e.loops index x v.loops_valid w;
    recorded = v.recorded;
    phase_fits = v.phase_fits;
    history_level = v.history_level;
    history_fits = v.history_fits;
    transfers_valid = v.transfers_valid;
  }

  pub put_loop-IsOpen :
      (e : Engine P) (index : ℕ) (s : LoopSlot F)
      → IsOpen e index
      → IsOpen (put_loop e index s) index
  unfolding put_loop
  put_loop-IsOpen e index s v = record {
    pool_valid = v.pool_valid;
    others = λ x w. subst (All IsLoop) (sym (set-set e.loops index s x)) (v.others x w);
    recorded = λ i h. omega (arith, v.recorded i h, length-set e.loops index s);
    phase_fits = v.phase_fits;
    history_level = v.history_level;
    history_fits = v.history_fits;
    transfers_valid = v.transfers_valid;
  }

  pub paid-IsOpen :
      (e : Engine P) (index : ℕ) (p : P.Pool)
      → IsOpen e index
      → IsPool p
      → IsOpen (record e { loop_storage = p }) index
  paid-IsOpen e index p v w = record {
    pool_valid = w;
    others = v.others;
    recorded = v.recorded;
    phase_fits = v.phase_fits;
    history_level = v.history_level;
    history_fits = v.history_fits;
    transfers_valid = v.transfers_valid;
  }

  pub same_placed :
      (s t : LoopSlot F)
      → IsSame s t
      → (is_overdubbing s.mode ≡ true → 0 < s.len → s.position < s.len)
      → is_overdubbing t.mode ≡ true
      → 0 < t.len
      → t.position < t.len
  same_placed s t same o m h =
      let inside = o (sym (ap is_overdubbing same.mode) ∙ m) (omega (arith, h, same.len)) in
      omega (arith, inside, same.len, same.position)

  pub end_take-IsEngine :
      (e : Engine P) (index : ℕ) (s : LoopSlot F)
      → IsOpen e index
      → IsRoomy s
      → (is_overdubbing s.mode ≡ true → 0 < s.len → s.position < s.len)
      → IsEngine (end_take f P e index s)
  unfolding end_take put_loop
  end_take-IsEngine e index s v w o = record {
    pool_valid = v.pool_valid;
    loops_valid = v.others (end_slot e.clock s) (end_slot-IsLoop e.clock s w o);
    recorded = λ i h. omega (arith, v.recorded i h, length-set e.loops index (end_slot e.clock s));
    phase_fits = omega (
      arith,
      v.phase_fits,
      ended-position e.clock (max s.pulse_beats 1) e.recorder.end_justify
          (is_synced_take s && not e.recorder.pulse_extension_applied),
    );
    history_level = v.history_level;
    history_fits = v.history_fits;
    transfers_valid = v.transfers_valid;
  }

  pub complete-IsEngine :
      (e : Engine P) (index : ℕ) (s : LoopSlot F) (notify : Bool)
      → IsEngine (end_take f P e index s)
      → IsEngine (complete f P e index s notify)
  unfolding complete
  complete-IsEngine e index s notify v =
      elim (Bool-cases
        (notify && not (s.len == 0) && (is_recording s.mode || is_overdubbing s.mode))) [
          | inl t ↦ rw t (send_status-IsEngine _ (loop_completed index) v)
          | inr t ↦ rw t v
        ]

  pub complete-storage :
      (e : Engine P) (index : ℕ) (s : LoopSlot F) (notify : Bool)
      → ((complete f P e index s notify).loop_storage ≡ e.loop_storage)
        × ((complete f P e index s notify).loops ≡ set e.loops index (end_slot e.clock s))
        × ((complete f P e index s notify).transfers ≡ e.transfers)
        × ((complete f P e index s notify).recorder.recording ≡ e.recorder.recording)
  unfolding complete end_take put_loop send_status
  complete-storage e index s notify = ground arith
