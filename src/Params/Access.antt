-- ===== src/Params/Access.antt =====
-- src/paramset.rs: reading a parameter after a write.
use freewheeling_plus.Prelude.{
  ℕ, zero, suc, [], ◌∷◌, ◌<◌, ◌≡◌, refl, ap, ◌∙◌, true, none, some, List, get_elem?, set,
  get_elem?-set_self, arith, Option-cases, inl, inr, length, ◌^◌, ltb,
}
use freewheeling_plus.Prelude.Int.{ℤ, pos, negsuc}
use freewheeling_plus.Params.{
  ParamSetParam, ParamSetBank, FloDisplayParamSet, current_bank, direct_index, write_param,
  set_param, value_or_zero, get_param, in_bank, show_page, page_start, proposed_start, as_isize,
}

in_range {ℓ} : {A : Type ℓ} (xs : List A) (i : ℕ) {x : A} → get_elem? xs i ≡ some x → i < length xs
in_range [] i h = absurd cc
in_range (x ∷ xs) zero h = omega arith
in_range (x ∷ xs) (suc i) h = omega (arith, in_range xs i h)

module _ {F : Type 0} (zero_value : F) where
  get_param-at :
      (d : FloDisplayParamSet F) (relative : ℤ) (bank : ParamSetBank F) (idx : ℕ)
      → get_elem? d.banks d.curbank ≡ some bank
      → direct_index zero_value bank relative ≡ some idx
      → get_param zero_value d relative ≡ value_or_zero zero_value (get_elem? bank.params idx)
  unfolding get_param current_bank
  get_param-at d relative bank idx found at = cc

  write_param-true :
      (d next : FloDisplayParamSet F) (bank : ParamSetBank F) (idx : ℕ) (value : F)
      → write_param zero_value d bank idx value ≡ (next, true)
      → (param : ParamSetParam F) × (get_elem? bank.params idx ≡ some param)
        × (next ≡ record d {
          banks =
              set d.banks d.curbank
                (record bank { params = set bank.params idx (record param { value = value }) });
        })
  unfolding write_param
  write_param-true d next bank idx value e = elim (Option-cases (get_elem? bank.params idx)) [
    | inl nothing ↦ absurd cc
    | inr found ↦ (found.0, found.1, cc)
  ]

  -- After a successful `set_param`, `get_param` at the same relative index gives the value that was
  -- written.
  pub get_param-set_param :
      (d next : FloDisplayParamSet F) (relative : ℤ) (value : F)
      → set_param zero_value d relative value ≡ (next, true)
      → get_param zero_value next relative ≡ value
  unfolding set_param current_bank direct_index value_or_zero in_bank
  get_param-set_param d next relative value e = elim (Option-cases (get_elem? d.banks d.curbank)) [
    | inl nothing ↦ absurd cc
    | inr bank ↦ elim (Option-cases (direct_index zero_value bank.0 relative)) [
      | inl outside ↦ absurd cc
      | inr idx ↦
          let written : write_param zero_value d bank.0 idx.0 value ≡ (next, true) = cc in
          let w = write_param-true d next bank.0 idx.0 value written in
          let param : ParamSetParam F = record w.0 { value = value } in
          let params = set bank.0.params idx.0 param in
          ap (λ n. get_param zero_value n relative) w.2
          ∙ (get_param-at
                (record d { banks = set d.banks d.curbank (record bank.0 { params = params }) })
                relative (record bank.0 { params = params }) idx.0
                (get_elem?-set_self d.banks d.curbank (record bank.0 { params = params })
                  (in_range d.banks d.curbank bank.1))
                idx.1
              ∙ ap (value_or_zero zero_value)
                  (get_elem?-set_self bank.0.params idx.0 param (in_range bank.0.params idx.0 w.1)))
    ]
  ]

  page_start-lt :
      (bank : ParamSetBank F) (proposed : ℤ)
      → bank.firstparamidx < bank.numparams
      → bank.numparams < 2 ^ 63
      → page_start zero_value bank proposed < bank.numparams
  unfolding page_start as_isize
  page_start-lt bank (negsuc n) inside few = omega arith
  page_start-lt bank (pos n) inside few =
      let small : ltb bank.numparams (2 ^ 63) ≡ true = ground arith in rw small (ground arith)

  show_page-none :
      (d : FloDisplayParamSet F) (page : ℤ) (bank : ParamSetBank F)
      → current_bank zero_value d ≡ some bank
      → proposed_start zero_value d bank page ≡ none
      → show_page zero_value d page ≡ d
  unfolding show_page
  show_page-none d page bank found overflow = cc

  show_page-some :
      (d : FloDisplayParamSet F) (page : ℤ) (bank : ParamSetBank F) (proposed : ℤ)
      → current_bank zero_value d ≡ some bank
      → proposed_start zero_value d bank page ≡ some proposed
      → show_page zero_value d page ≡ record d {
        banks =
            set d.banks d.curbank
              (record bank { firstparamidx = page_start zero_value bank proposed });
      }
  unfolding show_page
  show_page-some d page bank proposed found start = cc

  -- `show_page` leaves the start of the current page inside its bank, and the parameters as they
  -- were, also where its arithmetic would overflow. The start must lie in the bank before, and the
  -- bank have fewer than 2^63 parameters.
  pub show_page-start :
      (d : FloDisplayParamSet F) (page : ℤ) (bank : ParamSetBank F)
      → current_bank zero_value d ≡ some bank
      → bank.firstparamidx < bank.numparams
      → bank.numparams < 2 ^ 63
      → (b : ParamSetBank F) × (current_bank zero_value (show_page zero_value d page) ≡ some b)
        × (b.firstparamidx < b.numparams)
        × (b.params ≡ bank.params)
  unfolding current_bank
  show_page-start d page bank found inside few =
      elim (Option-cases (proposed_start zero_value d bank page)) [
        | inl overflow ↦ (
          bank,
          ap (λ n. current_bank zero_value n) (show_page-none d page bank found overflow) ∙ found,
          inside,
          refl,
        )
        | inr start ↦
            let b : ParamSetBank F = record bank {
              firstparamidx = page_start zero_value bank start.0;
            } in
            (
              b,
              ap (λ n. current_bank zero_value n) (show_page-some d page bank start.0 found start.1)
                  ∙ get_elem?-set_self d.banks d.curbank b (in_range d.banks d.curbank found),
              page_start-lt bank start.0 inside few,
              refl,
            )
      ]
