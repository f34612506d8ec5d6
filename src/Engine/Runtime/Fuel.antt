-- ===== src/Engine/Runtime/Fuel.antt =====
-- src/native_dsp_graph.rs: the loops that add blocks to a loop end by themselves.
use freewheeling_plus.Prelude.{
  ℕ, zero, suc, ◌+◌, ◌-◌, ◌≤◌, ◌≡◌, refl, sym, ◌∙◌, true, leb, le→leb, arith, Bool-cases, inl, inr,
}
use freewheeling_plus.Prelude.Floats.{Float32}
use freewheeling_plus.Engine.Blocks.{BlockPool}
use freewheeling_plus.Engine.Loop.{LoopSlot, uses_blocks, stored, capacity}
use freewheeling_plus.Engine.Runtime.Recording.{extend_storage, reach}
use freewheeling_plus.Engine.Runtime.Grow.{
  grown_slot, grown_slot-stored, grown_slot_keeps, extend_storage_enough, extend_storage_buffer,
  extend_storage_chain,
}

module _ (f : Float32) (P : BlockPool f.F) where
  open P use {Pool, add_block}

  enough_room :
      (required : ℕ) (s : LoopSlot f.F)
      → required + s.data_offset ≤ stored s
      → leb required (capacity s) ≡ true
  unfolding capacity
  enough_room required s h = le→leb required (stored s - s.data_offset) (omega (arith, h))

  extend_storage_fuel :
      (n m required : ℕ) (p : Pool) (s : LoopSlot f.F)
      → n ≤ m
      → required + s.data_offset ≤ stored s + n
      → extend_storage f P m required p s ≡ extend_storage f P n required p s
  extend_storage_fuel zero m required p s h r =
      let e = enough_room required s (omega (arith, r)) in
      extend_storage_enough f P m required p s e
      ∙ sym (extend_storage_enough f P zero required p s e)
  extend_storage_fuel (suc n) zero required p s h r = absurd (omega (arith, h))
  extend_storage_fuel (suc n) (suc m) required p s h r =
      elim (Bool-cases (leb required (capacity s))) [
        | inl e ↦
            extend_storage_enough f P (suc m) required p s e
            ∙ sym (extend_storage_enough f P (suc n) required p s e)
        | inr e ↦ elim (Bool-cases (uses_blocks s)) [
          | inr b ↦
              extend_storage_buffer f P (suc m) required p s e b
              ∙ sym (extend_storage_buffer f P (suc n) required p s e b)
          | inl b ↦
              extend_storage_chain f P m required p s e b
              ∙ (elim (Bool-cases (add_block p s.blocks).2) [
                | inr lost ↦ rw lost refl
                | inl got ↦ rw got (
                    extend_storage_fuel n m required (add_block p s.blocks).0 (grown_slot f P p s)
                      (omega (arith, h))
                      (ground (arith, r, grown_slot-stored f P p s b, grown_slot_keeps f P p s)))
              ]
                  ∙ sym (extend_storage_chain f P n required p s e b))
        ]
      ]

  -- The capacity that a recording asks for is found or refused in the turns that the code is given:
  -- any greater number of turns gives the same pool, loop and answer.
  pub reach-extend_storage :
      (m required : ℕ) (p : Pool) (s : LoopSlot f.F)
      → required + s.data_offset ≤ m
      → extend_storage f P m required p s ≡ reach f P required p s
  unfolding reach
  reach-extend_storage m required p s h =
      extend_storage_fuel (required + s.data_offset) m required p s h (omega arith)
