-- ===== src/Params/Tests.antt =====
-- src/paramset.rs: the theorems on a display of one bank, whose values are numbers.
use freewheeling_plus.Prelude.{ℕ, ◌≡◌, ◌<◌, refl, map, true, List, [], ◌∷◌, none, some, arith}
use freewheeling_plus.Prelude.Int.{pos}
use freewheeling_plus.Params.{
  ParamSetBank, FloDisplayParamSet, current_bank, direct_index, in_bank, as_isize, checked,
  write_param, set_param, get_param, show_page,
}
use freewheeling_plus.Params.Access.{get_param-set_param, show_page-start}

abbrev bank : List ℕ → ParamSetBank ℕ
bank values = record {
  name = none;
  numparams = 3;
  firstparamidx = 1;
  maxvalue = 1;
  params = map (λ v. record { name = none; value = v }) values;
}

abbrev display : List ℕ → FloDisplayParamSet ℕ
display values = record { numactiveparams = 2; numbanks = 1; curbank = 0; banks = bank values ∷ [] }

is_set : set_param 0 (display (5 ∷ 6 ∷ 7 ∷ [])) (pos 1) 9 ≡ (display (5 ∷ 6 ∷ 9 ∷ []), true)
unfolding set_param current_bank direct_index in_bank as_isize checked write_param
    freewheeling_plus.Prelude.Int.◌+ℤ◌
is_set = refl

get_param-set_param_example : get_param 0 (display (5 ∷ 6 ∷ 9 ∷ [])) (pos 1) ≡ 9
get_param-set_param_example =
    get_param-set_param 0 (display (5 ∷ 6 ∷ 7 ∷ [])) (display (5 ∷ 6 ∷ 9 ∷ [])) (pos 1) 9 is_set

is_current : current_bank 0 (display (5 ∷ 6 ∷ 7 ∷ [])) ≡ some (bank (5 ∷ 6 ∷ 7 ∷ []))
unfolding current_bank
is_current = refl

show_page-start_example :
    (b : ParamSetBank ℕ) × (current_bank 0 (show_page 0 (display (5 ∷ 6 ∷ 7 ∷ [])) (pos 1))
      ≡ some b)
    × (b.firstparamidx < b.numparams)
    × (b.params ≡ (bank (5 ∷ 6 ∷ 7 ∷ [])).params)
show_page-start_example =
    show_page-start 0 (display (5 ∷ 6 ∷ 7 ∷ [])) (pos 1) (bank (5 ∷ 6 ∷ 7 ∷ [])) is_current
      (omega arith) (omega arith)
