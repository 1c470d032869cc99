-- ===== src/Debmod/UpdateBpts/Count.antt =====
-- What `dbg_update_bpts` reports.
use reverse_engineearing.Base.{
  ℕ, ◌+◌, ◌≡◌, refl, ◌⊎◌, inl, inr, Option, none, some, List, [], ◌∷◌, ◌++◌, arith, ◌==◌, of_bool,
  Bool-cases, Option-cases, length, take, drop,
}
use mathlib.Core.Path.{subst}
use reverse_engineearing.Base.{some-injective}
use reverse_engineearing.Debmod.HwBpts.{bpt_ok}
use reverse_engineearing.Debmod.UpdateBpts.{
  BptInfo, Module, deleted, add_one, del_one, add_all, del_all, dbg_update_bpts, place, place_soft,
  bpt_write_error, read_bpt_orgbytes, step,
}

-- How many entries have the code BPT_OK.
unfoldable pub count_ok : List BptInfo → ℕ
count_ok [] = 0
count_ok (b ∷ bs) = of_bool (b.code == bpt_ok) + count_ok bs

count_ok-append : (xs ys : List BptInfo) → count_ok (xs ++ ys) ≡ count_ok xs + count_ok ys
unfolding count_ok
count_ok-append [] ys = omega arith
count_ok-append (x ∷ xs) ys = omega (arith, count_ok-append xs ys)

-- What may become of an entry to add: its address, type and size stay, and a skipped entry stays whole.
abbrev pub IsAdded : BptInfo → BptInfo → Type 0
IsAdded b b' =
    (b'.ea ≡ b.ea) × (b'.bpttype ≡ b.bpttype) × (b'.size ≡ b.size) × ((b.code ≡ bpt_ok) ⊎ (b' ≡ b))

-- What may become of an entry to delete: all but its code stays, which is BPT_OK or BPT_WRITE_ERROR.
abbrev pub IsDeleted : BptInfo → BptInfo → Type 0
IsDeleted b b' =
    (b' ≡ record b { code = b'.code }) × ((b'.code ≡ bpt_ok) ⊎ (b'.code ≡ bpt_write_error))

-- Entry by entry, `R` holds of the lists, which have one length.
abbrev pub Pointwise : (BptInfo → BptInfo → Type 0) → List BptInfo → List BptInfo → Type 0
Pointwise R [] [] = Unit
Pointwise R [] (y ∷ ys) = ⊥
Pointwise R (x ∷ xs) [] = ⊥
Pointwise R (x ∷ xs) (y ∷ ys) = R x y × Pointwise R xs ys

module _ {W : Type 0} (m : Module W) where
  place-IsAdded :
      (w w' : W) (b b' : BptInfo) (len : ℕ) (org : List ℕ)
      → b.code ≡ bpt_ok
      → place m w b len org ≡ some (b', w')
      → IsAdded b b'
  unfolding place
  place-IsAdded w w' b b' len org ok e = elim (Option-cases (m.dbg_add_bpt w b.bpttype b.ea len)) [
    | inl q ↦ ground (arith, q)
    | inr ((r, w1), q) ↦ ground (arith, q)
  ]

  place_soft-IsAdded :
      (w w' : W) (b b' : BptInfo) (r : Option (Option (List ℕ)))
      → b.code ≡ bpt_ok
      → place_soft m w b r ≡ some (b', w')
      → IsAdded b b'
  unfolding place_soft
  place_soft-IsAdded w w' b b' none ok e = cc
  place_soft-IsAdded w w' b b' (some none) ok e = ground arith
  place_soft-IsAdded w w' b b' (some (some org)) ok e = place-IsAdded w w' b b' _ org ok e

  add_one-IsAdded : (w w' : W) (b b' : BptInfo) → add_one m w b ≡ some (b', w') → IsAdded b b'
  unfolding add_one
  add_one-IsAdded w w' b b' e = elim (Bool-cases (b.code == bpt_ok)) [
    | inr n ↦ ground (arith, n)
    | inl y ↦ ground (
      arith,
      y,
      place-IsAdded w w' b b' b.size [],
      place_soft-IsAdded w w' b b' (read_bpt_orgbytes m w b.ea (length m.bpt_code)),
    )
  ]

  -- The entry by what `dbg_del_bpt` returned.
  deleted-IsDeleted :
      (w' : W) (b b' : BptInfo) (r : Option (ℕ × W))
      → deleted m b r ≡ some (b', w')
      → IsDeleted b b'
  unfolding deleted
  deleted-IsDeleted w' b b' none e = cc
  deleted-IsDeleted w' b b' (some (r, w1)) e = ground arith

  del_one-IsDeleted : (w w' : W) (b b' : BptInfo) → del_one m w b ≡ some (b', w') → IsDeleted b b'
  unfolding del_one
  del_one-IsDeleted w w' b b' e =
      deleted-IsDeleted w' b b' (m.dbg_del_bpt w b.bpttype b.ea b.orgbytes _) e

  -- A turn keeps the relation of the lists and their count.
  step-count :
      (R : BptInfo → BptInfo → Type 0) (w' : W) (b b1 : BptInfo) (bs bs' : List BptInfo) (cnt : ℕ)
      (r : Option ((ℕ × List BptInfo) × W))
      → R b b1
      → ((c : ℕ) (bs1 : List BptInfo) (w1 : W)
          → r ≡ some ((c, bs1), w1)
          → (c ≡ count_ok bs1) × Pointwise R bs bs1)
      → step m b1 r ≡ some ((cnt, bs'), w')
      → (cnt ≡ count_ok bs') × Pointwise R (b ∷ bs) bs'
  unfolding count_ok
  step-count R w' b b1 bs bs' cnt none k ih e = cc
  step-count R w' b b1 bs bs' cnt (some ((c, bs1), w1)) k ih e =
      let rest = ih c bs1 w1 refl in
      subst (λ p. (p.0.0 ≡ count_ok p.0.1) × Pointwise R (b ∷ bs) p.0.1) (some-injective e)
        (omega (arith, rest.0), (k, rest.1))

  add_all-count :
      (w w' : W) (bs bs' : List BptInfo) (cnt : ℕ)
      → add_all m w bs ≡ some ((cnt, bs'), w')
      → (cnt ≡ count_ok bs') × Pointwise IsAdded bs bs'
  unfolding add_all count_ok
  add_all-count w w' [] [] cnt e = (ground arith, tt)
  add_all-count w w' [] (b' ∷ bs') cnt e = ground arith
  add_all-count w w' (b ∷ bs) bs' cnt e = elim (Option-cases (add_one m w b)) [
    | inl q ↦ ground (arith, q)
    | inr ((b1, w1), q) ↦
        step-count IsAdded w' b b1 bs bs' cnt (add_all m w1 bs) (add_one-IsAdded w w1 b b1 q)
          (λ c bs1 w2 p. add_all-count w1 w2 bs bs1 c p) (rw (add_all, q) at e)
  ]

  del_all-count :
      (w w' : W) (bs bs' : List BptInfo) (cnt : ℕ)
      → del_all m w bs ≡ some ((cnt, bs'), w')
      → (cnt ≡ count_ok bs') × Pointwise IsDeleted bs bs'
  unfolding del_all count_ok
  del_all-count w w' [] [] cnt e = (ground arith, tt)
  del_all-count w w' [] (b' ∷ bs') cnt e = ground arith
  del_all-count w w' (b ∷ bs) bs' cnt e = elim (Option-cases (del_one m w b)) [
    | inl q ↦ ground (arith, q)
    | inr ((b1, w1), q) ↦
        step-count IsDeleted w' b b1 bs bs' cnt (del_all m w1 bs) (del_one-IsDeleted w w1 b b1 q)
          (λ c bs1 w2 p. del_all-count w1 w2 bs bs1 c p) (rw (del_all, q) at e)
  ]

  -- `dbg_update_bpts` returns the number of entries of its result with the code BPT_OK, those to add and those
  -- to delete together. In its result an entry to add has its address, type and size, and is as it was when it
  -- came with another code than BPT_OK; an entry to delete has all but its code, which is BPT_OK or
  -- BPT_WRITE_ERROR.
  pub dbg_update_bpts-count :
      (w w' : W) (ubpts result : List BptInfo) (nadd cnt : ℕ)
      → dbg_update_bpts m w ubpts nadd ≡ some ((cnt, result), w')
      → (cnt ≡ count_ok result)
        × ((adds : List BptInfo) × (dels : List BptInfo) × (result ≡ adds ++ dels)
            × Pointwise IsAdded (take nadd ubpts) adds
            × Pointwise IsDeleted (drop nadd ubpts) dels)
  unfolding dbg_update_bpts
  dbg_update_bpts-count w w' ubpts result nadd cnt e =
      elim (Option-cases (add_all m w (take nadd ubpts))) [
        | inl q ↦ ground (arith, q)
        | inr (((c, xs), w1), q) ↦ elim (Option-cases (del_all m w1 (drop nadd ubpts))) [
          | inl q2 ↦ ground (arith, q, q2)
          | inr (((d, ds), w2), q2) ↦
              let added = add_all-count w w1 (take nadd ubpts) xs c q in
              let gone = del_all-count w1 w2 (drop nadd ubpts) ds d q2 in
              let same : (cnt ≡ c + d) × (result ≡ xs ++ ds) = ground (arith, q, q2) in
              (
                rw same.1 (omega (arith, count_ok-append xs ds, same.0, added.0, gone.0)),
                (xs, ds, same.1, added.1, gone.1),
              )
        ]
      ]
