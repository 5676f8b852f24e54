-- ===== src/Routes/Offers/Listing/Sorted.antt =====
-- The order of a listing: the clauses compare any two rows, and the sorted rows respect them.
use recru_flow.Base.{
  ℕ, suc, ◌≡◌, refl, ap, ◌∙◌, inl, inr, Bool, true, false, not, ◌&&◌, ◌||◌, Option, none, some,
  List, [], ◌∷◌, arith, Bool-cases, length, All, All-map,
}
use recru_flow.Routes.Offers.Listing.{
  Listed, Order, asc, desc, Clause, comes_before, not_after, insert_row, sorted,
}

-- If x is not before y and y not before z, then x is not before z.
comes_before_cotrans :
    (order : Order) (x y z : Option ℕ)
    → comes_before order x y ≡ false
    → comes_before order y z ≡ false
    → comes_before order x z ≡ false
comes_before_cotrans order none y z h k = refl
comes_before_cotrans order (some x) none z h k = absurd (ground (arith, h))
comes_before_cotrans order (some x) (some y) none h k = absurd (ground (arith, k))
comes_before_cotrans asc (some x) (some y) (some z) h k = ground (arith, h, k)
comes_before_cotrans desc (some x) (some y) (some z) h k = ground (arith, h, k)

comes_before_asym :
    (order : Order) (x y : Option ℕ)
    → comes_before order x y ≡ true
    → comes_before order y x ≡ false
comes_before_asym order none y h = absurd (ground (arith, h))
comes_before_asym order (some x) none h = refl
comes_before_asym asc (some x) (some y) h = ground (arith, h)
comes_before_asym desc (some x) (some y) h = ground (arith, h)

not_after-total :
    (clauses : List Clause) (a b : Listed)
    → not_after clauses a b ≡ false
    → not_after clauses b a ≡ true
unfolding not_after
not_after-total [] a b h = absurd (ground (arith, h))
not_after-total (clause ∷ clauses) a b h = ground (arith, h, not_after-total clauses a b)

-- One clause before others whose order is transitive, in terms of its six comparisons.
lexicographic :
    (ab ba bc cb ac ca : Bool) (rest_ab rest_bc rest_ac : Bool)
    → (ab ≡ true → ba ≡ false)
    → (bc ≡ true → cb ≡ false)
    → (cb ≡ false → ba ≡ false → ca ≡ false)
    → (ac ≡ false → cb ≡ false → ab ≡ false)
    → (ba ≡ false → ac ≡ false → bc ≡ false)
    → (rest_ab ≡ true → rest_bc ≡ true → rest_ac ≡ true)
    → (ab || (not ba && rest_ab)) ≡ true
    → (bc || (not cb && rest_bc)) ≡ true
    → (ac || (not ca && rest_ac)) ≡ true
lexicographic ab ba bc cb ac ca rest_ab rest_bc rest_ac asym_ab asym_bc to_ca to_ab to_bc rest h k =
    ground arith

not_after_trans :
    (clauses : List Clause) (a b c : Listed)
    → not_after clauses a b ≡ true
    → not_after clauses b c ≡ true
    → not_after clauses a c ≡ true
unfolding not_after
not_after_trans [] a b c h k = refl
not_after_trans (clause ∷ clauses) a b c h k =
    let x = clause.column a in
    let y = clause.column b in
    let z = clause.column c in
    lexicographic _ (comes_before clause.order y x) _ (comes_before clause.order z y) _ _ _ _ _
      (comes_before_asym clause.order x y) (comes_before_asym clause.order y z)
      (comes_before_cotrans clause.order z y x) (comes_before_cotrans clause.order x z y)
      (comes_before_cotrans clause.order y x z) (not_after_trans clauses a b c) h k

-- No row comes after a later one.
abbrev pub IsSorted : List Clause → List Listed → Type 0
IsSorted clauses [] = Unit
IsSorted clauses (a ∷ rows) = All (λ b. not_after clauses a b ≡ true) rows × IsSorted clauses rows

module _ (P : Listed → Type 0) (clauses : List Clause) where
  All-insert_row :
      (a : Listed) (rows : List Listed) → P a → All P rows → All P (insert_row clauses a rows)
  unfolding insert_row
  All-insert_row a [] h k = (h, tt)
  All-insert_row a (b ∷ rows) h k = elim (Bool-cases (not_after clauses a b)) [
    | inl first ↦ rw first (h, k)
    | inr later ↦ rw later (k.0, All-insert_row a rows h k.1)
  ]

  pub All-sorted : (rows : List Listed) → All P rows → All P (sorted clauses rows)
  unfolding sorted
  All-sorted [] h = tt
  All-sorted (a ∷ rows) h = All-insert_row a (sorted clauses rows) h.0 (All-sorted rows h.1)

insert_row-IsSorted :
    (clauses : List Clause) (a : Listed) (rows : List Listed)
    → IsSorted clauses rows
    → IsSorted clauses (insert_row clauses a rows)
unfolding insert_row
insert_row-IsSorted clauses a [] h = (tt, tt)
insert_row-IsSorted clauses a (b ∷ rows) h = elim (Bool-cases (not_after clauses a b)) [
  | inl first ↦
      rw first ((first, All-map _ _ (λ c k. not_after_trans clauses a b c first k) rows h.0), h)
  | inr later ↦ rw later (
    All-insert_row (λ c. not_after clauses b c ≡ true) clauses a rows
        (not_after-total clauses a b later) h.0,
    insert_row-IsSorted clauses a rows h.1,
  )
]

pub sorted-IsSorted :
    (clauses : List Clause) (rows : List Listed) → IsSorted clauses (sorted clauses rows)
unfolding sorted
sorted-IsSorted clauses [] = tt
sorted-IsSorted clauses (a ∷ rows) =
    insert_row-IsSorted clauses a (sorted clauses rows) (sorted-IsSorted clauses rows)

length-insert_row :
    (clauses : List Clause) (a : Listed) (rows : List Listed)
    → length (insert_row clauses a rows) ≡ suc (length rows)
unfolding insert_row
length-insert_row clauses a [] = refl
length-insert_row clauses a (b ∷ rows) = ground (arith, length-insert_row clauses a rows)

pub length-sorted :
    (clauses : List Clause) (rows : List Listed) → length (sorted clauses rows) ≡ length rows
unfolding sorted
length-sorted clauses [] = refl
length-sorted clauses (a ∷ rows) =
    length-insert_row clauses a (sorted clauses rows) ∙ ap suc (length-sorted clauses rows)
