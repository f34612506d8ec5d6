-- ===== src/Rename/Text.antt =====
-- src/native_rename.rs: what `append_text` makes of a name.
use mathlib.Core.List.{append_assoc, append-nil}
use freewheeling_plus.Prelude.{
  ℕ, ◌+◌, ◌≤◌, ◌≡◌, false, not, List, [], ◌∷◌, ◌++◌, arith, All, All-append, retain, sym,
}
use freewheeling_plus.Rename.{
  len_utf8, len_bytes, is_hidden, append_chars, drop_last, max_name_bytes,
}

-- The characters of a text that a name can hold.
pub visible : List ℕ → List ℕ
visible = retain (λ c. not (is_hidden c))

-- A name as the widget keeps it: within the limit, with no hidden character.
pub record IsName (name : List ℕ) : Type 0 where
  pub fits : len_bytes name ≤ max_name_bytes
  pub shown : All (λ c. is_hidden c ≡ false) name

pub len_bytes-append : (xs ys : List ℕ) → len_bytes (xs ++ ys) ≡ len_bytes xs + len_bytes ys
unfolding len_bytes
len_bytes-append [] ys = omega arith
len_bytes-append (x ∷ xs) ys = omega (arith, len_bytes-append xs ys)

push-IsName :
    (name : List ℕ) (c : ℕ)
    → IsName name
    → is_hidden c ≡ false
    → len_bytes name + len_utf8 c ≤ max_name_bytes
    → IsName (name ++ c ∷ [])
unfolding len_bytes
push-IsName name c v h l = record {
  fits = omega (arith, len_bytes-append name (c ∷ []));
  shown = All-append (λ x. is_hidden x ≡ false) name (c ∷ []) v.shown (h, tt);
}

pub append_chars-IsName : (name cs : List ℕ) → IsName name → IsName (append_chars name cs)
unfolding append_chars
append_chars-IsName name [] v = v
append_chars-IsName name (c ∷ cs) v = ground (
  arith,
  append_chars-IsName name cs v,
  append_chars-IsName (name ++ c ∷ []) cs,
  push-IsName name c v,
)

len_bytes-drop_last : (name : List ℕ) → len_bytes (drop_last name) ≤ len_bytes name
unfolding drop_last len_bytes
len_bytes-drop_last [] = omega arith
len_bytes-drop_last (x ∷ []) = omega arith
len_bytes-drop_last (x ∷ y ∷ ys) = omega (arith, len_bytes-drop_last (y ∷ ys))

All-drop_last : (P : ℕ → Type 0) (xs : List ℕ) → All P xs → All P (drop_last xs)
unfolding drop_last
All-drop_last P [] a = tt
All-drop_last P (x ∷ []) a = tt
All-drop_last P (x ∷ y ∷ ys) a = (a.0, All-drop_last P (y ∷ ys) a.1)

pub drop_last-IsName : (name : List ℕ) → IsName name → IsName (drop_last name)
drop_last-IsName name v = record {
  fits = omega (arith, len_bytes-drop_last name, v.fits);
  shown = All-drop_last (λ c. is_hidden c ≡ false) name v.shown;
}

-- A text that fits is appended whole, but for its hidden characters.
pub append_chars-visible :
    (name cs : List ℕ)
    → len_bytes name + len_bytes (visible cs) ≤ max_name_bytes
    → append_chars name cs ≡ name ++ visible cs
unfolding append_chars visible len_bytes
append_chars-visible name [] h = sym (append-nil name)
append_chars-visible name (c ∷ cs) h = ground (
  arith,
  append_chars-visible name cs,
  append_chars-visible (name ++ c ∷ []) cs,
  len_bytes-append name (c ∷ []),
  append_assoc name (c ∷ []) (visible cs),
)

pub len_bytes-visible : (cs : List ℕ) → len_bytes (visible cs) ≤ len_bytes cs
unfolding visible len_bytes
len_bytes-visible [] = omega arith
len_bytes-visible (c ∷ cs) = ground (arith, len_bytes-visible cs)
