-- ===== src/Engine/Runtime/Keep.antt =====
-- src/native_dsp_graph.rs: operations that leave the storage of a loop as it is.
use freewheeling_plus.Prelude.{
  ℕ, ◌≡◌, ◌≢◌, refl, sym, ap, ◌∙◌, subst, Bool, false, ◌||◌, some, List, set, get_elem?,
  get_elem?-lt, get_elem?-set_self, get_elem?-set_ne, ℕ_discrete,
}
use mathlib.Core.Option.{some-injective}
use freewheeling_plus.Engine.Loop.{LoopSlot}
use freewheeling_plus.Engine.Runtime.{is_recording, is_overdubbing}

module _ {F : Type 0} where
  -- Neither recorded nor overdubbed.
  unfoldable pub is_busy : LoopSlot F → Bool
  is_busy s = is_recording s.mode || is_overdubbing s.mode

  -- The storage of the loop is as before, and no recording writes into it.
  pub record IsUntouched (s u : LoopSlot F) : Type 0 where
    pub left : u.left ≡ s.left
    pub right : u.right ≡ s.right
    pub blocks : u.blocks ≡ s.blocks
    pub data_offset : u.data_offset ≡ s.data_offset
    pub idle : is_busy u ≡ false

  IsUntouched-trans : (s t u : LoopSlot F) → IsUntouched s t → IsUntouched t u → IsUntouched s u
  IsUntouched-trans s t u a b = record {
    left = b.left ∙ a.left;
    right = b.right ∙ a.right;
    blocks = b.blocks ∙ a.blocks;
    data_offset = b.data_offset ∙ a.data_offset;
    idle = b.idle;
  }

  unchanged-IsUntouched : (s : LoopSlot F) → is_busy s ≡ false → IsUntouched s s
  unchanged-IsUntouched s i = record {
    left = refl;
    right = refl;
    blocks = refl;
    data_offset = refl;
    idle = i;
  }

  -- What becomes of the loop at an index.
  unfoldable pub Keeps : (slot : ℕ) → (before after : List (LoopSlot F)) → Type 0
  Keeps slot before after =
      (s : LoopSlot F)
      → get_elem? before slot ≡ some s
      → is_busy s ≡ false
      → (u : LoopSlot F) × (get_elem? after slot ≡ some u) × IsUntouched s u

  pub same-Keeps : (slot : ℕ) (a b : List (LoopSlot F)) → b ≡ a → Keeps slot a b
  unfolding Keeps
  same-Keeps slot a b e s at i = (s, ap (λ ls. get_elem? ls slot) e ∙ at, unchanged-IsUntouched s i)

  pub Keeps-trans :
      (slot : ℕ) (a b c : List (LoopSlot F)) → Keeps slot a b → Keeps slot b c → Keeps slot a c
  unfolding Keeps
  Keeps-trans slot a b c f g s at i =
      let t = f s at i in
      let u = g t.0 t.1 t.2.idle in (u.0, u.1, IsUntouched-trans s t.0 u.0 t.2 u.2)

  pub other-Keeps :
      (slot index : ℕ) (a : List (LoopSlot F)) (x : LoopSlot F)
      → index ≢ slot
      → Keeps slot a (set a index x)
  unfolding Keeps
  other-Keeps slot index a x ne s at i =
      (s, get_elem?-set_ne a x ne ∙ at, unchanged-IsUntouched s i)

  -- A write of a loop that was there, changed so that its storage is untouched if it was idle.
  pub set-Keeps :
      (slot index : ℕ) (a : List (LoopSlot F)) (s x : LoopSlot F)
      → get_elem? a index ≡ some s
      → (is_busy s ≡ false → IsUntouched s x)
      → Keeps slot a (set a index x)
  unfolding Keeps
  set-Keeps slot index a s x at f t there i = elim (ℕ_discrete index slot) [
    | no ne ↦ (t, get_elem?-set_ne a x ne ∙ there, unchanged-IsUntouched t i)
    | yes e ↦
        let same : s ≡ t = some-injective s t (sym at ∙ (ap (λ n. get_elem? a n) e ∙ there)) in
        (
          x,
          subst (λ n. get_elem? (set a index x) n ≡ some x) e
              (get_elem?-set_self a index x (get_elem?-lt a index at)),
          subst (λ y. IsUntouched y x) same (f (ap is_busy same ∙ i)),
        )
  ]
