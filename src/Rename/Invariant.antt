-- ===== src/Rename/Invariant.antt =====
-- src/native_rename.rs: what holds of the widget after any sequence of calls.
use freewheeling_plus.Prelude.{
  ℕ, ◌≤◌, ◌≡◌, Bool, true, false, List, [], ◌∷◌, ltb, leb, if◌then◌else◌, arith, All, length,
  length-append, Option, none, some, Bool-cases, inl, inr, All-append, ◌-◌,
}
use freewheeling_plus.Prelude.Int.{ℤ, pos, negsuc}
use freewheeling_plus.Rename.{
  NativeRename, RenameResult, RenameTarget, RenameInput, key_down, text, is_active, append_text,
  begin, finish, push_result, drop_front, handle, handle_key, pop_result, pop_from, finish_taken,
  commit, cancel, max_pending_results, default, len_bytes, max_name_bytes,
}
use freewheeling_plus.Rename.Text.{IsName, append_chars-IsName, drop_last-IsName}

-- A cancelled edit has no name; a committed one has a name of the widget.
abbrev pub IsResult : RenameResult → Type 0
IsResult r = elim r.name [ none ↦ Unit {0} | some name ↦ IsName name ]

pub record IsValid (r : NativeRename) : Type 0 where
  pub named : IsName r.name
  pub bounded : length r.results ≤ max_pending_results
  pub results_named : All IsResult r.results

pub empty-IsName : IsName []
unfolding len_bytes
empty-IsName = record { fits = omega arith; shown = tt }

All-drop_front :
    (P : RenameResult → Type 0) (xs : List RenameResult) → All P xs → All P (drop_front xs)
unfolding drop_front
All-drop_front P [] a = tt
All-drop_front P (x ∷ xs) a = a.1

length-drop_front : (xs : List RenameResult) → length (drop_front xs) ≡ length xs - 1
unfolding drop_front
length-drop_front [] = omega arith
length-drop_front (x ∷ xs) = omega arith

push_result-IsValid :
    (r : NativeRename) (x : RenameResult) → IsValid r → IsResult x → IsValid (push_result r x)
unfolding push_result
push_result-IsValid r x v h = elim (Bool-cases (leb max_pending_results (length r.results))) [
  | inl full ↦ simp full (record {
    named = v.named;
    bounded = omega (
      arith,
      length-append (drop_front r.results) (x ∷ []),
      length-drop_front r.results,
      v.bounded,
    );
    results_named =
        All-append IsResult (drop_front r.results) (x ∷ [])
          (All-drop_front IsResult r.results v.results_named) (h, tt);
  })
  | inr room ↦ simp room (record {
    named = v.named;
    bounded = ground (arith, length-append r.results (x ∷ []));
    results_named = All-append IsResult r.results (x ∷ []) v.results_named (h, tt);
  })
]

named-IsResult :
    (r : NativeRename) (t : RenameTarget) (keep : Bool)
    → IsName r.name
    → IsResult (record { target = t; name = if keep then some r.name else none })
named-IsResult r t true v = v
named-IsResult r t false v = tt

finish_taken-IsValid :
    (o : Option RenameTarget) (r : NativeRename) (keep : Bool)
    → IsValid r
    → IsValid (finish_taken o r keep).0
unfolding finish_taken
finish_taken-IsValid none r keep v = v
finish_taken-IsValid (some t) r keep v =
    push_result-IsValid (record r { target = none; name = [] })
      (record { target = t; name = if keep then some r.name else none })
      (record { named = empty-IsName; bounded = v.bounded; results_named = v.results_named })
      (named-IsResult r t keep v.named)

finish-IsValid : (r : NativeRename) (keep : Bool) → IsValid r → IsValid (finish r keep).0
unfolding finish
finish-IsValid r keep v = finish_taken-IsValid r.target r keep v

named-IsValid :
    (r : NativeRename) (target : Option RenameTarget) (name : List ℕ)
    → IsValid r
    → IsName name
    → IsValid (record r { target = target; name = name })
named-IsValid r target name v n = record {
  named = n;
  bounded = v.bounded;
  results_named = v.results_named;
}

append_text-IsValid : (r : NativeRename) (cs : List ℕ) → IsValid r → IsValid (append_text r cs)
unfolding append_text
append_text-IsValid r cs v = elim (Bool-cases (is_active r)) [
  | inl e ↦ simp e (named-IsValid r r.target _ v (append_chars-IsName r.name cs v.named))
  | inr e ↦ simp e v
]

begin-IsValid :
    (r : NativeRename) (t : RenameTarget) (old : Option (List ℕ))
    → IsValid r
    → IsValid (begin r t old).0
unfolding begin
begin-IsValid r t none v = elim (Bool-cases (is_active r)) [
  | inl e ↦ simp e v
  | inr e ↦ simp e (named-IsValid r (some t) [] v empty-IsName)
]
begin-IsValid r t (some name) v = elim (Bool-cases (is_active r)) [
  | inl e ↦ simp e v
  | inr e ↦ elim (Bool-cases (ltb max_name_bytes (len_bytes name))) [
    | inl long ↦ simp (e, long) v
    | inr fits ↦
        simp (e, fits)
          (append_text-IsValid (record r { target = some t; name = [] }) name
            (named-IsValid r (some t) [] v empty-IsName))
  ]
]

handle_key-IsValid : (r : NativeRename) (k : ℤ) → IsValid r → IsValid (handle_key r k).0
unfolding handle_key
handle_key-IsValid r (negsuc n) v = v
handle_key-IsValid r (pos k) v = ground (
  arith,
  named-IsValid r r.target _ v (drop_last-IsName r.name v.named),
  finish-IsValid r true v,
  finish-IsValid r false v,
)

handle-IsValid : (r : NativeRename) (i : RenameInput) → IsValid r → IsValid (handle r i).0
unfolding handle
handle-IsValid r (text cs) v = elim (Bool-cases (is_active r)) [
  | inl e ↦ simp e (append_text-IsValid r cs v)
  | inr e ↦ simp e v
]
handle-IsValid r (key_down k) v = elim (Bool-cases (is_active r)) [
  | inl e ↦ simp e (handle_key-IsValid r k v)
  | inr e ↦ simp e v
]

pop_from-IsValid :
    (xs : List RenameResult) (r : NativeRename)
    → IsValid r
    → length xs ≤ max_pending_results
    → All IsResult xs
    → IsValid (pop_from xs r).0
unfolding pop_from
pop_from-IsValid [] r v l a = v
pop_from-IsValid (x ∷ xs) r v l a = record {
  named = v.named;
  bounded = omega arith;
  results_named = a.1;
}

pop_result-IsValid : (r : NativeRename) → IsValid r → IsValid (pop_result r).0
unfolding pop_result
pop_result-IsValid r v = pop_from-IsValid r.results r v v.bounded v.results_named

-- The calls of the runtime.
pub data Call : Type 0 where
  begins : RenameTarget → Option (List ℕ) → Call
  handles : RenameInput → Call
  appends : List ℕ → Call
  commits cancels pops : Call

pub step : NativeRename → Call → NativeRename
step r (begins target old_name) = (begin r target old_name).0
step r (handles input) = (handle r input).0
step r (appends cs) = append_text r cs
step r commits = (commit r).0
step r cancels = (cancel r).0
step r pops = (pop_result r).0

pub run : NativeRename → List Call → NativeRename
run r [] = r
run r (c ∷ cs) = run (step r c) cs

step-IsValid : (r : NativeRename) (c : Call) → IsValid r → IsValid (step r c)
unfolding step commit cancel
step-IsValid r (begins target old_name) v = begin-IsValid r target old_name v
step-IsValid r (handles input) v = handle-IsValid r input v
step-IsValid r (appends cs) v = append_text-IsValid r cs v
step-IsValid r commits v = finish-IsValid r true v
step-IsValid r cancels v = finish-IsValid r false v
step-IsValid r pops v = pop_result-IsValid r v

-- After any calls on a valid widget the edited name and every queued name are at most 511 bytes
-- long and hold no hidden character, and at most 64 results wait.
pub run-IsValid : (r : NativeRename) (cs : List Call) → IsValid r → IsValid (run r cs)
unfolding run
run-IsValid r [] v = v
run-IsValid r (c ∷ cs) v = run-IsValid (step r c) cs (step-IsValid r c v)

-- The widget starts valid.
pub default-IsValid : IsValid default
default-IsValid = record { named = empty-IsName; bounded = omega arith; results_named = tt }
