-- ===== src/Rename/Session.antt =====
-- src/native_rename.rs: a whole edit session, and the queue of results.

use freewheeling_plus.Prelude.{
  ℕ, suc, ◌+◌, ◌-◌, ◌≤◌, ◌≡◌, refl, Bool, true, false, List, [], ◌∷◌, ◌++◌, ltb, leb, if◌then◌else◌,
  arith, length, drop, leb→le, zero, none, some, Bool-cases, inl, inr, sym, ◌∙◌, ap,
}
use freewheeling_plus.Rename.{
  NativeRename, RenameResult, RenameTarget, is_active, append_text, append_chars, begin, finish,
  push_result, finish_taken, drop_front, len_bytes, max_name_bytes, max_pending_results,
}
use freewheeling_plus.Prelude.Words.{sat_add, u64_max}
use freewheeling_plus.Rename.Text.{visible, append_chars-visible, len_bytes-visible}

-- The results after one more: the oldest goes where 64 wait already.
pub queued : List RenameResult → RenameResult → List RenameResult
queued results x = drop (length results + 1 - max_pending_results) (results ++ x ∷ [])

-- The count of the dropped results after one more result; it stops at the end of `u64`.
pub dropped : List RenameResult → ℕ → ℕ
dropped results n = if leb max_pending_results (length results) then sat_add u64_max n 1 else n

drop_front-drop : (xs : List RenameResult) → drop_front xs ≡ drop 1 xs
unfolding drop_front
drop_front-drop [] = refl
drop_front-drop (x ∷ xs) = refl

drop-append :
    (n : ℕ) (xs ys : List RenameResult) → n ≤ length xs → drop n (xs ++ ys) ≡ drop n xs ++ ys
drop-append zero xs ys h = refl
drop-append (suc n) [] ys h = elim h [ ]
drop-append (suc n) (x ∷ xs) ys h = drop-append n xs ys (omega arith)

drop_zero : (n : ℕ) (xs : List RenameResult) → n ≡ 0 → drop n xs ≡ xs
drop_zero n xs e = rw e

drop_one : (n : ℕ) (xs : List RenameResult) → n ≡ 1 → drop n xs ≡ drop 1 xs
drop_one n xs e = rw e

queued-full :
    (results : List RenameResult) (x : RenameResult)
    → length results ≤ max_pending_results
    → leb max_pending_results (length results) ≡ true
    → drop_front results ++ x ∷ [] ≡ queued results x
unfolding queued
queued-full results x h full =
    let at : 64 ≤ length results = leb→le _ _ full in
    ap (λ q. q ++ x ∷ []) (drop_front-drop results)
    ∙ (sym (drop-append 1 results (x ∷ []) (omega arith))
        ∙ sym (drop_one _ (results ++ x ∷ []) (omega (arith, h))))

queued-room :
    (results : List RenameResult) (x : RenameResult)
    → leb max_pending_results (length results) ≡ false
    → results ++ x ∷ [] ≡ queued results x
unfolding queued
queued-room results x room = sym (drop_zero _ (results ++ x ∷ []) (ground arith))

not_long :
    (name : List ℕ) → len_bytes name ≤ max_name_bytes → ltb max_name_bytes (len_bytes name) ≡ false
not_long name h = ground arith

begin-some :
    (r : NativeRename) (t : RenameTarget) (old_name : List ℕ)
    → is_active r ≡ false
    → len_bytes old_name ≤ max_name_bytes
    → begin r t (some old_name)
      ≡ (record r { target = some t; name = append_chars [] old_name }, true)
unfolding begin append_text is_active
begin-some r t old_name idle fits = rw idle (rw (not_long old_name fits) refl)

opened_name :
    (old_name : List ℕ)
    → len_bytes old_name ≤ max_name_bytes
    → append_chars [] old_name ≡ visible old_name
unfolding len_bytes
opened_name old_name fits =
    append_chars-visible [] old_name (omega (arith, len_bytes-visible old_name, fits))

push_result-results :
    (r : NativeRename) (x : RenameResult)
    → length r.results ≤ max_pending_results
    → ((push_result r x).results ≡ queued r.results x)
      × ((push_result r x).target ≡ r.target)
      × ((push_result r x).dropped_results ≡ dropped r.results r.dropped_results)
unfolding push_result dropped
push_result-results r x h = elim (Bool-cases (leb max_pending_results (length r.results))) [
  | inl full ↦ simp full (queued-full r.results x h full, refl, refl)
  | inr room ↦ simp room (queued-room r.results x room, refl, refl)
]

-- A session on an old name of at most 511 bytes that starts while no other is on, and ends by
-- `commit` or `cancel`: `begin` accepts it, and its end queues one result for its target, with the
-- visible characters of the old name or without a name. The queue keeps the 64 newest, and the count
-- of dropped results grows by one, up to the end of `u64`, exactly if 64 waited before.
pub begin-finish :
    (r : NativeRename) (t : RenameTarget) (old_name : List ℕ) (keep : Bool)
    → is_active r ≡ false
    → len_bytes old_name ≤ max_name_bytes
    → length r.results ≤ max_pending_results
    → ((begin r t (some old_name)).1 ≡ true)
      × ((finish (begin r t (some old_name)).0 keep).0.results
          ≡ queued r.results
              (record { target = t; name = if keep then some (visible old_name) else none }))
      × (is_active (finish (begin r t (some old_name)).0 keep).0 ≡ false)
      × ((finish (begin r t (some old_name)).0 keep).0.dropped_results
          ≡ dropped r.results r.dropped_results)
unfolding finish finish_taken is_active
begin-finish r t old_name keep idle fits bounded = rw (begin-some r t old_name idle fits) (
    rw (opened_name old_name fits) (
      let x : RenameResult = record {
        target = t;
        name = if keep then some (visible old_name) else none;
      } in
      let pushed = push_result-results (record r { target = none; name = [] }) x bounded in
      (refl, pushed.0, rw pushed.1 refl, pushed.2)))
