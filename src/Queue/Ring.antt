-- ===== src/Queue/Ring.antt =====
-- src/realtime_queue.rs: what it uses of the crate rtrb. Its documentation describes a ring of a
-- fixed capacity, first in first out, whose `push` gives the value back when the ring is full.
use freewheeling_plus.Prelude.{
  ℕ, ◌-◌, ◌≤◌, ◌<◌, ◌≡◌, refl, List, [], ◌∷◌, ◌++◌, Option, none, some, length, ltb, if◌then◌else◌,
  arith, Bool-cases, inl, inr, Result, ok, err,
}

pub record RingBuffer (T : Type 0) : Type 1 where
  pub Ring : Type 0
  pub new : ℕ → Ring
  pub push : Ring → T → Result T Ring
  pub pop : Ring → Option (T × Ring)
  pub free_slots : Ring → ℕ
  pub used_slots : Ring → ℕ
  -- what the ring holds, oldest first, and how many it can hold
  pub items : Ring → List T
  pub capacity : Ring → ℕ
  pub items-new : (n : ℕ) → items (new n) ≡ []
  pub capacity-new : (n : ℕ) → capacity (new n) ≡ n
  pub push_room :
      (r : Ring) (v : T)
      → length (items r) < capacity r
      → (s : Ring) × (push r v ≡ ok s) × (items s ≡ items r ++ v ∷ []) × (capacity s ≡ capacity r)
  pub push_full : (r : Ring) (v : T) → capacity r ≤ length (items r) → push r v ≡ err v
  pub pop_empty : (r : Ring) → items r ≡ [] → pop r ≡ none
  pub pop_front :
      (r : Ring) (x : T) (xs : List T)
      → items r ≡ x ∷ xs
      → (s : Ring) × (pop r ≡ some (x, s)) × (items s ≡ xs) × (capacity s ≡ capacity r)
  pub free_slots_lem : (r : Ring) → free_slots r ≡ capacity r - length (items r)
  pub used_slots_lem : (r : Ring) → used_slots r ≡ length (items r)

-- A list beside its capacity, as a ring.
module _ (T : Type 0) where
  pub record ListRing : Type 0 where
    pub held : List T
    pub room : ℕ

  push_list : ListRing → T → Result T ListRing
  push_list r v =
      if ltb (length r.held) r.room then ok (record r { held = r.held ++ v ∷ [] }) else err v

  pop_list : List T → ℕ → Option (T × ListRing)
  pop_list [] n = none
  pop_list (x ∷ xs) n = some (x, record { held = xs; room = n })

  list_push_room :
      (r : ListRing) (v : T)
      → length r.held < r.room
      → (s : ListRing) × (push_list r v ≡ ok s) × (s.held ≡ r.held ++ v ∷ []) × (s.room ≡ r.room)
  unfolding push_list
  list_push_room r v h = elim (Bool-cases (ltb (length r.held) r.room)) [
    | inl e ↦ (record r { held = r.held ++ v ∷ [] }, rw e refl, refl, refl)
    | inr e ↦ absurd (ground arith)
  ]

  list_push_full : (r : ListRing) (v : T) → r.room ≤ length r.held → push_list r v ≡ err v
  unfolding push_list
  list_push_full r v h = ground arith

  list_pop_empty : (xs : List T) (n : ℕ) → xs ≡ [] → pop_list xs n ≡ none
  unfolding pop_list
  list_pop_empty xs n e = rw e refl

  list_pop_front :
      (held : List T) (n : ℕ) (x : T) (xs : List T)
      → held ≡ x ∷ xs
      → (s : ListRing) × (pop_list held n ≡ some (x, s)) × (s.held ≡ xs) × (s.room ≡ n)
  unfolding pop_list
  list_pop_front held n x xs e = (record { held = xs; room = n }, rw e refl, refl, refl)

  pub list_ring : RingBuffer T
  unfolding push_list pop_list
  list_ring = record {
    Ring = ListRing;
    new = λ n. record { held = []; room = n };
    push = push_list;
    pop = λ r. pop_list r.held r.room;
    free_slots = λ r. r.room - length r.held;
    used_slots = λ r. length r.held;
    items = λ r. r.held;
    capacity = λ r. r.room;
    items-new = λ n. refl;
    capacity-new = λ n. refl;
    push_room = list_push_room;
    push_full = list_push_full;
    pop_empty = λ r. list_pop_empty r.held r.room;
    pop_front = λ r. list_pop_front r.held r.room;
    free_slots_lem = λ r. refl;
    used_slots_lem = λ r. refl;
  }
