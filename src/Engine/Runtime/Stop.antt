-- ===== src/Engine/Runtime/Stop.antt =====
-- src/native_dsp_graph.rs: `stop_recording` in a well-formed engine.
use freewheeling_plus.Prelude.{
  ℕ, ◌+◌, ◌≤◌, ◌<◌, ◌≡◌, refl, sym, ap, ◌∙◌, subst, Bool, true, false, not, ◌&&◌, ◌||◌, none, some,
  ◌∷◌, ◌==◌, length, set, length-set, get_elem?, get_elem?-some, All-get, if◌then◌else◌, arith,
  Option-cases, inl, inr,
}
use freewheeling_plus.Prelude.Floats.{Float32}
use freewheeling_plus.Engine.Runtime.Open.{
  end_slot_idle, IsOpen, paid-IsOpen, same_placed, end_take-IsEngine, complete-IsEngine,
  complete-storage, IsEngine-IsOpen,
}
use freewheeling_plus.Engine.Blocks.{BlockPool}
use freewheeling_plus.Engine.Pulse.{PulseClock}
use freewheeling_plus.Engine.Loop.{LoopSlot}
use freewheeling_plus.Engine.Runtime.{
  Engine, put_loop, send_status, loop_completed, is_overdubbing, is_recording,
}
use freewheeling_plus.Engine.Runtime.Recording.{
  stopped, end_slot, end_take, complete, finish_take, stop_recording,
}
use freewheeling_plus.Engine.Runtime.Room.{IsRoomy, IsSame}
use freewheeling_plus.Engine.Runtime.Take.{smooth_take-IsTaken}
use freewheeling_plus.Engine.Runtime.Keep.{is_busy, IsUntouched, Keeps, same-Keeps, set-Keeps}
use freewheeling_plus.Engine.Runtime.Valid.{IsLoop, IsEngine}

module _ (f : Float32) (P : BlockPool f.F) where
  open f use {F, of_ℕ}
  open P use {Pool, IsPool, ready, room, add_block, release_blocks}

  -- What a stop leaves: a well-formed engine with as many loops, for one block at most.
  pub record IsStopped (e t : Engine P) : Type 0 where
    pub valid : IsEngine t
    pub idle : t.recorder.recording ≡ none
    pub cheap : ready e.loop_storage ≤ ready t.loop_storage + 1
    pub same_room : room t.loop_storage ≡ room e.loop_storage
    pub same_loops : length t.loops ≡ length e.loops
    pub same_transfers : t.transfers ≡ e.transfers

  complete-sent :
      (e : Engine P) (index : ℕ) (s : LoopSlot F) (notify : Bool)
      → (complete f P e index s notify).sent ≡ (
          if notify && not (s.len == 0) && (is_recording s.mode || is_overdubbing s.mode)
          then loop_completed index ∷ e.sent
          else e.sent)
  unfolding complete end_take put_loop send_status
  complete-sent e index s notify = ground arith

  -- What a stop does to the loop that was recorded.
  pub record IsEnded (e : Engine P) (index : ℕ) (s : LoopSlot F) (notify : Bool) (t : Engine P)
      : Type 0 where
    pub taken : LoopSlot F
    pub same : IsSame s taken
    pub untouched : is_recording s.mode ≡ false → taken ≡ s
    pub loops : t.loops ≡ set e.loops index (end_slot e.clock taken)
    pub sent : t.sent ≡ (
        if notify && not (s.len == 0) && (is_recording s.mode || is_overdubbing s.mode)
        then loop_completed index ∷ e.sent
        else e.sent)

  finish_take-IsStopped :
      (e : Engine P) (index : ℕ) (s : LoopSlot F) (notify : Bool)
      → IsOpen f P e index
      → e.recorder.recording ≡ none
      → get_elem? e.loops index ≡ some s
      → IsRoomy s
      → (is_overdubbing s.mode ≡ true → 0 < s.len → s.position < s.len)
      → (t : Engine P) × (finish_take f P e index notify ≡ some t)
        × IsStopped e t
        × IsEnded e index s notify t
  unfolding finish_take
  finish_take-IsStopped e index s notify v idle at w o =
      let r = smooth_take-IsTaken f P e.loop_storage s v.pool_valid w in
      let paid : Engine P = record e { loop_storage = r.0.0 } in
      let c = complete-storage f P paid index r.0.1 notify in
      (
        complete f P paid index r.0.1 notify,
        rw at (rw r.1 refl),
        record {
          valid = complete-IsEngine f P paid index r.0.1 notify (
              end_take-IsEngine f P paid index r.0.1
                (paid-IsOpen f P e index r.0.0 v r.2.pool_valid) r.2.roomy
                (same_placed f P s r.0.1 r.2.same o));
          idle = c.3 ∙ idle;
          cheap = omega (arith, ap ready c.0, r.2.cheap);
          same_room = ap room c.0 ∙ r.2.same_room;
          same_loops = ap length c.1 ∙ length-set e.loops index (end_slot e.clock r.0.1);
          same_transfers = c.2;
        },
        record {
          taken = r.0.1;
          same = r.2.same;
          untouched = r.2.untouched;
          loops = c.1;
          sent = complete-sent paid index r.0.1 notify ∙ (rw r.2.same.len (rw r.2.same.mode refl));
        },
      )

  -- The recorder that was reset, before the loop is looked at.
  quiet : Engine P → Engine P
  quiet e = record e { recorder = stopped e.recorder }

  quiet_idle : (e : Engine P) → (quiet e).recorder.recording ≡ none
  unfolding quiet stopped
  quiet_idle e = refl

  quiet-IsOpen : (e : Engine P) (index : ℕ) → IsOpen f P e index → IsOpen f P (quiet e) index
  unfolding quiet stopped
  quiet-IsOpen e index v = record {
    pool_valid = v.pool_valid;
    others = v.others;
    recorded = λ i h. absurd cc;
    phase_fits = v.phase_fits;
    history_level = v.history_level;
    history_fits = v.history_fits;
    transfers_valid = v.transfers_valid;
  }

  quiet-IsStopped : (e t : Engine P) → IsStopped (quiet e) t → IsStopped e t
  unfolding quiet
  quiet-IsStopped e t g = record {
    valid = g.valid;
    idle = g.idle;
    cheap = g.cheap;
    same_room = g.same_room;
    same_loops = g.same_loops;
    same_transfers = g.same_transfers;
  }

  quiet-IsEnded :
      (e : Engine P) (index : ℕ) (s : LoopSlot F) (notify : Bool) (t : Engine P)
      → IsEnded (quiet e) index s notify t
      → IsEnded e index s notify t
  unfolding quiet
  quiet-IsEnded e index s notify t g = record {
    taken = g.taken;
    same = g.same;
    untouched = g.untouched;
    loops = g.loops;
    sent = g.sent;
  }

  stop_recording_at :
      (e : Engine P) (index : ℕ) (notify : Bool)
      → e.recorder.recording ≡ some index
      → stop_recording f P e notify ≡ finish_take f P (quiet e) index notify
  unfolding stop_recording quiet
  stop_recording_at e index notify h = rw h refl

  -- The loop that is recorded may be cut before: it gets a new position.
  pub stop_open-IsStopped :
      (e : Engine P) (index : ℕ) (s : LoopSlot F) (notify : Bool)
      → IsOpen f P e index
      → e.recorder.recording ≡ some index
      → get_elem? e.loops index ≡ some s
      → IsRoomy s
      → (is_overdubbing s.mode ≡ true → 0 < s.len → s.position < s.len)
      → (t : Engine P) × (stop_recording f P e notify ≡ some t)
        × IsStopped e t
        × IsEnded e index s notify t
  unfolding quiet
  stop_open-IsStopped e index s notify v r at w o =
      let t =
        finish_take-IsStopped (quiet e) index s notify (quiet-IsOpen e index v) (quiet_idle e) at w
          o in
      (
        t.0,
        stop_recording_at e index notify r ∙ t.1,
        quiet-IsStopped e t.0 t.2,
        quiet-IsEnded e index s notify t.0 t.3,
      )

  quiet-IsEngine : (e : Engine P) → IsEngine e → IsEngine (quiet e)
  unfolding quiet stopped
  quiet-IsEngine e v = record {
    pool_valid = v.pool_valid;
    loops_valid = v.loops_valid;
    recorded = λ i h. absurd cc;
    phase_fits = v.phase_fits;
    history_level = v.history_level;
    history_fits = v.history_fits;
    transfers_valid = v.transfers_valid;
  }

  end_slot-IsUntouched :
      (c : PulseClock) (s : LoopSlot F) → is_busy s ≡ false → IsUntouched s (end_slot c s)
  unfolding end_slot
  end_slot-IsUntouched c s i = record {
    left = refl;
    right = refl;
    blocks = refl;
    data_offset = refl;
    idle = end_slot_idle c s;
  }

  not_busy : (s : LoopSlot F) → is_busy s ≡ false → is_recording s.mode ≡ false
  unfolding is_busy
  not_busy s i = ground arith

  pub ended-Keeps :
      (e t : Engine P) (index slot : ℕ) (s : LoopSlot F) (notify : Bool)
      → get_elem? e.loops index ≡ some s
      → IsEnded e index s notify t
      → Keeps slot e.loops t.loops
  ended-Keeps e t index slot s notify at g =
      subst (λ ls. Keeps slot e.loops ls) (sym g.loops)
        (set-Keeps slot index e.loops s (end_slot e.clock g.taken) at (λ i.
          subst (λ x. IsUntouched s (end_slot e.clock x)) (sym (g.untouched (not_busy s i)))
            (end_slot-IsUntouched e.clock s i)))

  stop_idle-IsStopped :
      (e : Engine P) (notify : Bool)
      → IsEngine e
      → e.recorder.recording ≡ none
      → (t : Engine P) × (stop_recording f P e notify ≡ some t)
        × IsStopped e t
        × ((slot : ℕ) → Keeps slot e.loops t.loops)
  unfolding stop_recording quiet
  stop_idle-IsStopped e notify v r = (
    quiet e,
    rw r refl,
    quiet-IsStopped e (quiet e) (record {
      valid = quiet-IsEngine e v;
      idle = quiet_idle e;
      cheap = omega arith;
      same_room = refl;
      same_loops = refl;
      same_transfers = refl;
    }),
    λ slot. same-Keeps slot e.loops e.loops refl,
  )

  -- In a well-formed engine a stop comes to its end, whether a loop is recorded or not.
  pub stop_recording-IsStopped :
      (e : Engine P) (notify : Bool)
      → IsEngine e
      → (t : Engine P) × (stop_recording f P e notify ≡ some t)
        × IsStopped e t
        × ((slot : ℕ) → Keeps slot e.loops t.loops)
  stop_recording-IsStopped e notify v = elim (Option-cases e.recorder.recording) [
    | inl r ↦ stop_idle-IsStopped e notify v r
    | inr i ↦
        let s = get_elem?-some e.loops i.0 (v.recorded i.0 i.1) in
        let w = All-get IsLoop e.loops i.0 s.0 v.loops_valid s.1 in
        let t =
          stop_open-IsStopped e i.0 s.0 notify (IsEngine-IsOpen f P e i.0 v) i.1 s.1 w.roomy
            (λ _. w.placed) in
        (t.0, t.1, t.2, λ slot. ended-Keeps e t.0 i.0 slot s.0 notify s.1 t.3)
  ]
