-- ===== src/Macros/Accepts.antt =====
-- Which functions the attributes accept (lunatic-macros/src/lib.rs).
use rust_lib.Common.{
  ◌≡◌, ◌≢◌, ◌⊎◌, inl, inr, refl, ap, List, [], ◌∷◌, ◌++◌, length, All, ok, err, true, false, ◌==◌,
  Bool-cases, ==→eq, ==-false→ne,
}
use rust_lib.Common.Bytes.{bytes_eq, bytes_eq-eq, bytes_eq_refl}
use rust_lib.Common.Text.{codes}
use rust_lib.Macros.{
  Syn, ItemFn, at_ident, at_attr, main_fn, test_fn, not_main, not_one_argument, second_test, parse,
  main, check_attrs, test,
}

module _ ⦃syn : Syn⦄ where
  abbrev pub IsTest : syn.Attribute → Type 0
  IsTest attr = syn.is_ident attr (codes "test") ≡ true

  abbrev pub NotTest : syn.Attribute → Type 0
  NotTest attr = syn.is_ident attr (codes "test") ≡ false

  -- The first attribute of a list that is `test`, with those before and after it.
  abbrev pub FirstTest : syn.Attribute → List syn.Attribute → Type 0
  FirstTest attr attrs =
      (before after : List syn.Attribute) × (attrs ≡ before ++ attr ∷ after)
      × All NotTest before
      × IsTest attr

  abbrev Checked : ItemFn → List syn.Attribute → Type 0
  Checked input attrs =
      All NotTest attrs
        × (check_attrs input attrs ≡ ok (test_fn input.ident input.inputs input.block))
      ⊎ ((attr : syn.Attribute) × FirstTest attr attrs
          × (check_attrs input attrs
              ≡ err (record { tokens = at_attr attr; message = second_test })))

  check_attrs_lem : (input : ItemFn) (attrs : List syn.Attribute) → Checked input attrs
  unfolding check_attrs parse
  check_attrs_lem input [] = inl (tt, refl)
  check_attrs_lem input (attr ∷ attrs) = elim (Bool-cases (syn.is_ident attr (codes "test"))) [
    | inl found ↦ inr (attr, ([], attrs, refl, tt, found), rw found refl)
    | inr other ↦ elim (check_attrs_lem input attrs) [
      | inl (none_found, e) ↦ inl ((other, none_found), rw other e)
      | inr (first, (before, after, split, clear, found), e) ↦ inr (
        first,
        (attr ∷ before, after, ap (λ rest. attr ∷ rest) split, (other, clear), found),
        rw other e,
      )
    ]
  ]

  abbrev pub MainEnds : ItemFn → Type 0
  MainEnds input =
      (input.ident ≡ codes "main")
        × (length input.inputs ≡ 1)
        × (main input ≡ ok (main_fn input.ident input.inputs input.block))
      ⊎ ((input.ident ≢ codes "main") ⊎ (length input.inputs ≢ 1))
        × (main input ≡ err (record { tokens = at_ident input.ident; message = not_main }))

  abbrev pub TestEnds : ItemFn → Type 0
  TestEnds input =
      (length input.inputs ≢ 1)
        × (test input ≡ err (record { tokens = at_ident input.ident; message = not_one_argument }))
      ⊎ (length input.inputs ≡ 1)
        × All NotTest input.attrs
        × (test input ≡ ok (test_fn input.ident input.inputs input.block))
      ⊎ (length input.inputs ≡ 1)
        × ((attr : syn.Attribute) × FirstTest attr input.attrs
            × (test input ≡ err (record { tokens = at_attr attr; message = second_test })))

  main-ends : (input : ItemFn) → MainEnds input
  unfolding main parse
  main-ends input = elim (Bool-cases (bytes_eq input.ident (codes "main"))) [
    | inr other ↦ inr (inl (λ same. cc (bytes_eq_refl (codes "main"))), rw other refl)
    | inl named ↦ elim (Bool-cases (length input.inputs == 1)) [
      | inl one ↦ inl (
        bytes_eq-eq input.ident (codes "main") named,
        ==→eq (length input.inputs) 1 one,
        rw named (rw one refl),
      )
      | inr count ↦ inr (inr (==-false→ne (length input.inputs) 1 count), rw named (rw count refl))
    ]
  ]

  test-ends : (input : ItemFn) → TestEnds input
  unfolding test
  test-ends input = elim (Bool-cases (length input.inputs == 1)) [
    | inr count ↦ inl (==-false→ne (length input.inputs) 1 count, rw count refl)
    | inl one ↦ elim (check_attrs_lem input input.attrs) [
      | inl (clear, e) ↦ inr (inl (==→eq (length input.inputs) 1 one, clear, rw one e))
      | inr (attr, first, e) ↦
          inr (inr (==→eq (length input.inputs) 1 one, (attr, first, rw one e)))
    ]
  ]

  -- `#[lunatic::main]` generates a `main` exactly for a function of that name with one argument, and
  -- else reports an error at the name. `#[lunatic::test]` generates a test exactly for a function with
  -- one argument and no attribute `test`: with another number of arguments it reports an error at
  -- the name, and with such an attribute one at the first of them.
  pub accepts_lem : (input : ItemFn) → MainEnds input × TestEnds input
  accepts_lem input = (main-ends input, test-ends input)
