-- ===== src/Params.antt =====
-- src/paramset.rs: the banks of parameters behind the paramset display. `F` is the type `f32`, and a
-- name is the list of its code points. `usize` and `isize` have 64 bits.
mod Access
mod Tests
use freewheeling_plus.Prelude.{
  ℕ, ◌+◌, ◌-◌, ◌*◌, ◌^◌, min, Bool, true, false, ◌&&◌, ◌||◌, Option, none, some, List, [], ◌==◌,
  ltb, leb, if◌then◌else◌, length, get_elem?, set, replicate,
}
use freewheeling_plus.Prelude.Int.{ℤ, pos, negsuc, ◌+ℤ◌, ◌*ℤ◌, ltb_ℤ}
use freewheeling_plus.Prelude.Options.{◌>>=◌}

pub record ParamSetParam (F : Type 0) : Type 0 where
  pub name : Option (List ℕ)
  pub value : F

pub record ParamSetBank (F : Type 0) : Type 0 where
  pub name : Option (List ℕ)
  pub numparams : ℕ
  pub firstparamidx : ℕ
  pub maxvalue : F
  pub params : List (ParamSetParam F)

-- The fields of the display that the operations below read and write.
pub record FloDisplayParamSet (F : Type 0) : Type 0 where
  pub numactiveparams : ℕ
  pub numbanks : ℕ
  pub curbank : ℕ
  pub banks : List (ParamSetBank F)

-- `as isize`
pub as_isize : ℕ → ℤ
as_isize n = if ltb n (2 ^ 63) then pos n else negsuc (2 ^ 64 - 1 - n)

-- `checked_add` and `checked_mul` of an `isize`, from the exact result.
pub checked : ℤ → Option ℤ
checked (pos n) = if ltb n (2 ^ 63) then some (pos n) else none
checked (negsuc n) = if ltb n (2 ^ 63) then some (negsuc n) else none

module _ {F : Type 0} (zero_value : F) where
  pub setup : ParamSetBank F → Option (List ℕ) → ℕ → F → ParamSetBank F
  setup bank name numparams maxvalue = record {
    name = name;
    numparams = numparams;
    firstparamidx = 0;
    maxvalue = maxvalue;
    params = replicate numparams (record { name = none; value = zero_value });
  }

  pub current_bank : FloDisplayParamSet F → Option (ParamSetBank F)
  current_bank d = get_elem? d.banks d.curbank

  -- The index of a parameter relative to the page: no clamping, `none` outside the bank.
  pub in_bank : ParamSetBank F → ℤ → Option ℕ
  in_bank bank (negsuc n) = none
  in_bank bank (pos n) = if ltb_ℤ (pos n) (as_isize bank.numparams) then some n else none

  pub direct_index : ParamSetBank F → ℤ → Option ℕ
  direct_index bank relative = do
    idx ← checked (as_isize bank.firstparamidx +ℤ relative)
    in_bank bank idx

  -- The write at an index of the current bank, that `get_mut` may refuse.
  pub write_param : FloDisplayParamSet F → ParamSetBank F → ℕ → F → FloDisplayParamSet F × Bool
  write_param d bank idx value = elim (get_elem? bank.params idx) [
    | none ↦ (d, false)
    | some param ↦ (
      record d {
        banks =
            set d.banks d.curbank
              (record bank { params = set bank.params idx (record param { value = value }) });
      },
      true,
    )
  ]

  pub set_param : FloDisplayParamSet F → ℤ → F → FloDisplayParamSet F × Bool
  set_param d relative value = elim (current_bank d) [
    | none ↦ (d, false)
    | some bank ↦ elim (direct_index bank relative) [
      | none ↦ (d, false)
      | some idx ↦ write_param d bank idx value
    ]
  ]

  pub value_or_zero : Option (ParamSetParam F) → F
  value_or_zero none = zero_value
  value_or_zero (some param) = param.value

  pub get_param : FloDisplayParamSet F → ℤ → F
  get_param d relative = elim (current_bank d) [
    | none ↦ zero_value
    | some bank ↦ elim (direct_index bank relative) [
      | none ↦ zero_value
      | some idx ↦ value_or_zero (get_elem? bank.params idx)
    ]
  ]

  -- Where a page begins: a proposed index past the bank changes nothing.
  pub page_start : ParamSetBank F → ℤ → ℕ
  page_start bank (negsuc n) = 0
  page_start bank (pos n) =
      if ltb_ℤ (pos n) (as_isize bank.numparams) then n else bank.firstparamidx

  pub proposed_start : FloDisplayParamSet F → ParamSetBank F → ℤ → Option ℤ
  proposed_start d bank page = do
    offset ← checked (as_isize d.numactiveparams *ℤ page)
    checked (as_isize bank.firstparamidx +ℤ offset)

  pub show_page : FloDisplayParamSet F → ℤ → FloDisplayParamSet F
  show_page d page = elim (current_bank d) [
    | none ↦ d
    | some bank ↦ elim (proposed_start d bank page) [
      | none ↦ d
      | some proposed ↦ record d {
        banks = set d.banks d.curbank (record bank { firstparamidx = page_start bank proposed });
      }
    ]
  ]
