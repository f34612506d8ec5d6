-- ===== src/Rename.antt =====
-- src/native_rename.rs: the interactive rename session of the native UI. A text is the list of its
-- code points, and its length is counted in bytes of UTF-8, as `String::len` counts. Each method
-- returns the new state with its result.
mod Text
mod Invariant
mod Session
mod Tests
use freewheeling_plus.Prelude.{
  ℕ, suc, ◌+◌, ◌^◌, Bool, true, false, not, ◌&&◌, ◌||◌, Option, none, some, List, [], ◌∷◌, ◌++◌,
  ◌==◌, ltb, leb, if◌then◌else◌, length,
}
use freewheeling_plus.Prelude.Int.{ℤ, pos, negsuc}
use freewheeling_plus.Prelude.Words.{sat_add, u64_max}

abbrev pub max_name_bytes : ℕ
max_name_bytes = 511

abbrev pub max_pending_results : ℕ
max_pending_results = 64

abbrev pub keycode_backspace : ℕ
keycode_backspace = 8

abbrev pub keycode_return : ℕ
keycode_return = 13

abbrev pub keycode_escape : ℕ
keycode_escape = 27

abbrev pub keycode_kp_enter : ℕ
keycode_kp_enter = 271

pub data RenameTarget : Type 0 where
  browser : (browser : ℤ) (item : ℕ) → RenameTarget
  snapshot : (slot : ℤ) → RenameTarget
  loop : (slot : ℤ) → RenameTarget

pub record RenameResult : Type 0 where
  pub target : RenameTarget
  pub name : Option (List ℕ)

pub data RenameInput : Type 0 where
  key_down : ℤ → RenameInput
  text : List ℕ → RenameInput

pub record NativeRename : Type 0 where
  pub target : Option RenameTarget
  pub name : List ℕ
  pub results : List RenameResult
  pub dropped_results : ℕ

abbrev pub default : NativeRename
default = record { target = none; name = []; results = []; dropped_results = 0 }

pub is_active : NativeRename → Bool
is_active r = elim r.target [ none ↦ false | some _ ↦ true ]

-- `char::len_utf8`, and `str::len`.
pub len_utf8 : ℕ → ℕ
len_utf8 c = if ltb c 0x80 then 1 else if ltb c 0x800 then 2 else if ltb c 0x10000 then 3 else 4

pub len_bytes : List ℕ → ℕ
len_bytes [] = 0
len_bytes (c ∷ cs) = len_utf8 c + len_bytes cs

-- `char::is_control` is the category Cc.
is_control : ℕ → Bool
is_control c = ltb c 0x20 || (leb 0x7f c && leb c 0x9f)

-- The code points that `append_text` leaves out.
pub is_hidden : ℕ → Bool
is_hidden c =
    is_control c
    || (leb 0x200b c && leb c 0x200f)
    || (leb 0x2028 c && leb c 0x202e)
    || (leb 0x2066 c && leb c 0x2069)
    || c == 0xfeff

-- The loop of `append_text`: `continue` at a hidden character, `break` at the limit.
pub append_chars : List ℕ → List ℕ → List ℕ
append_chars name [] = name
append_chars name (c ∷ cs) =
    let skipped = append_chars name cs in
    let pushed = append_chars (name ++ c ∷ []) cs in
    if is_hidden c
    then skipped
    else if ltb max_name_bytes (len_bytes name + len_utf8 c)
    then name
    else pushed

pub append_text : NativeRename → List ℕ → NativeRename
unfolding is_active
append_text r cs = if is_active r then record r { name = append_chars r.name cs } else r

pub begin : NativeRename → RenameTarget → Option (List ℕ) → NativeRename × Bool
unfolding append_text
begin r target none =
    if is_active r then (r, false) else (record r { target = some target; name = [] }, true)
begin r target (some old_name) =
    if is_active r
    then (r, false)
    else if ltb max_name_bytes (len_bytes old_name)
    then (r, false)
    else (append_text (record r { target = some target; name = [] }) old_name, true)

-- `String::pop`.
pub drop_last : List ℕ → List ℕ
drop_last [] = []
drop_last (x ∷ []) = []
drop_last (x ∷ y ∷ ys) = x ∷ drop_last (y ∷ ys)

-- `VecDeque::pop_front`, its element dropped.
pub drop_front : List RenameResult → List RenameResult
drop_front [] = []
drop_front (x ∷ xs) = xs

-- The part of `finish` that queues the result.
pub push_result : NativeRename → RenameResult → NativeRename
push_result r result =
    if leb max_pending_results (length r.results)
    then record r {
      results = drop_front r.results ++ result ∷ [];
      dropped_results = sat_add u64_max r.dropped_results 1;
    }
    else record r { results = r.results ++ result ∷ [] }

-- `finish` by what `self.target.take()` gives.
pub finish_taken : Option RenameTarget → NativeRename → Bool → NativeRename × Bool
finish_taken none r commit = (r, false)
finish_taken (some target) r commit = (
  push_result (record r { target = none; name = [] })
      (record { target = target; name = if commit then some r.name else none }),
  true,
)

pub finish : NativeRename → Bool → NativeRename × Bool
finish r commit = finish_taken r.target r commit

pub commit : NativeRename → NativeRename × Bool
commit r = finish r true

pub cancel : NativeRename → NativeRename × Bool
cancel r = finish r false

-- A key code below zero is none of the four.
pub handle_key : NativeRename → ℤ → NativeRename × Bool
handle_key r (negsuc n) = (r, false)
handle_key r (pos k) =
    if k == keycode_backspace
    then (record r { name = drop_last r.name }, true)
    else if k == keycode_return || k == keycode_kp_enter
    then ((finish r true).0, true)
    else if k == keycode_escape
    then ((finish r false).0, true)
    else (r, false)

pub handle : NativeRename → RenameInput → NativeRename × Bool
handle r (text cs) = if is_active r then (append_text r cs, true) else (r, false)
handle r (key_down k) = if is_active r then handle_key r k else (r, false)

pop_from : List RenameResult → NativeRename → NativeRename × Option RenameResult
pop_from [] r = (r, none)
pop_from (x ∷ xs) r = (record r { results = xs }, some x)

pub pop_result : NativeRename → NativeRename × Option RenameResult
pop_result r = pop_from r.results r

pub pending_results : NativeRename → ℕ
pending_results r = length r.results
