-- ===== src/Routes/Offers/Listing/Pages.antt =====
-- Reading a listing page by page: the pages are the whole sorted list, cut up.
use mathlib.Core.List.{map-append}
use recru_flow.Base.{
  ℕ, zero, suc, ◌+◌, ◌*◌, ◌≤◌, String, ◌≡◌, refl, sym, ap, ◌∙◌, Bool, true, List, [], ◌∷◌, ◌++◌,
  map, arith, length, take, drop, filter, All, All-filter,
}
use recru_flow.Db.{Db}
use recru_flow.Routes.Offers.View.{OfferSummary}
use recru_flow.Routes.Offers.Listing.{
  Query, Listed, Clause, insert_row, sorted, order_clauses, passes, matching, joined, summary_of,
  list_offers,
}
use recru_flow.Routes.Offers.Listing.Sorted.{IsSorted, All-sorted, sorted-IsSorted, length-sorted}

module _ {ℓ} {A : Type ℓ} where
  take_nil : (n : ℕ) → take {A = A} n [] ≡ []
  unfolding take
  take_nil zero = refl
  take_nil (suc n) = refl

  drop_nil : (n : ℕ) → drop {A = A} n [] ≡ []
  unfolding drop
  drop_nil zero = refl
  drop_nil (suc n) = refl

  take-add : (m n : ℕ) (xs : List A) → take (m + n) xs ≡ take m xs ++ take n (drop m xs)
  take-add zero n xs = ap (λ k. take k xs) zero_add ∙ at_zero
    where
      zero_add : 0 + n ≡ n
      zero_add = omega arith

      at_zero : take n xs ≡ take zero xs ++ take n (drop zero xs)
      at_zero = unfold take drop in refl
  take-add (suc m) n [] = take_nil (suc m + n) ∙ at_nil
    where
      at_nil : [] ≡ take (suc m) [] ++ take {A = A} n (drop (suc m) [])
      at_nil = unfold take drop in sym (take_nil n)
  take-add (suc m) n (x ∷ xs) = ap (λ k. take k (x ∷ xs)) (suc_add m n) ∙ cons_of (take-add m n xs)
    where
      suc_add : (a b : ℕ) → suc a + b ≡ suc (a + b)
      suc_add a b = omega arith

      cons_of :
          take (m + n) xs ≡ take m xs ++ take n (drop m xs)
          → take (suc (m + n)) (x ∷ xs) ≡ take (suc m) (x ∷ xs) ++ take n (drop (suc m) (x ∷ xs))
      cons_of e = unfold take drop in ap (◌∷◌ x) e

  drop-drop : (m n : ℕ) (xs : List A) → drop m (drop n xs) ≡ drop (n + m) xs
  drop-drop m zero xs = unfold drop in ap (λ k. drop k xs) (omega arith)
  drop-drop m (suc n) [] = ap (drop m) (drop_nil (suc n)) ∙ drop_nil m ∙ sym (drop_nil (suc n + m))
  drop-drop m (suc n) (x ∷ xs) =
      tail_of (drop-drop m n xs) ∙ ap (λ k. drop k (x ∷ xs)) (add_suc n m)
    where
      add_suc : (a b : ℕ) → suc (a + b) ≡ suc a + b
      add_suc a b = omega arith

      tail_of :
          drop m (drop n xs) ≡ drop (n + m) xs
          → drop m (drop (suc n) (x ∷ xs)) ≡ drop (suc (n + m)) (x ∷ xs)
      tail_of e = unfold drop in e

  take_whole : (n : ℕ) (xs : List A) → length xs ≤ n → take n xs ≡ xs
  unfolding take
  take_whole zero [] h = refl
  take_whole zero (x ∷ xs) h = absurd (omega arith)
  take_whole (suc n) [] h = refl
  take_whole (suc n) (x ∷ xs) h = ap (◌∷◌ x) (take_whole n xs (omega arith))

-- Both lists hold the same rows, as often.
count_insert_row :
    (p : Listed → Bool) (clauses : List Clause) (a : Listed) (rows : List Listed)
    → length (filter p (insert_row clauses a rows)) ≡ length (filter p (a ∷ rows))
unfolding insert_row filter
count_insert_row p clauses a [] = refl
count_insert_row p clauses a (b ∷ rows) = ground (arith, count_insert_row p clauses a rows)

count_sorted :
    (p : Listed → Bool) (clauses : List Clause) (rows : List Listed)
    → length (filter p (sorted clauses rows)) ≡ length (filter p rows)
unfolding sorted filter
count_sorted p clauses [] = refl
count_sorted p clauses (a ∷ rows) =
    count_insert_row p clauses a (sorted clauses rows) ∙ ground (arith, count_sorted p clauses rows)

module _ (ilike : String → String → Bool) (q : Query) (db : Db) where
  -- What a client gets that asks for `n` pages in a row, from an offset on.
  unfoldable pub read_pages : ℕ → ℕ → List OfferSummary
  unfolding list_offers
  read_pages zero offset = []
  read_pages (suc n) offset =
      (list_offers ilike (record q { offset = offset }) db).items ++ read_pages n (offset + q.limit)

  abbrev whole : List Listed
  whole = sorted (order_clauses q.order_by q.order) (matching ilike q db)

  read_pages_lem :
      (n offset : ℕ) → read_pages n offset ≡ map summary_of (take (n * q.limit) (drop offset whole))
  unfolding read_pages list_offers
  read_pages_lem zero offset =
      sym (ap (λ k. map summary_of (take k (drop offset whole))) zero_mul ∙ at_zero)
    where
      zero_mul : 0 * q.limit ≡ 0
      zero_mul = omega arith

      at_zero : map summary_of (take 0 (drop offset whole)) ≡ []
      at_zero = unfold take in refl
  read_pages_lem (suc n) offset =
      ap (map summary_of (take q.limit (drop offset whole)) ++◌)
        (read_pages_lem n (offset + q.limit))
      ∙ ap
          (λ rows.
            map summary_of (take q.limit (drop offset whole))
            ++ map summary_of (take (n * q.limit) rows))
          (sym (drop-drop q.limit offset whole))
      ∙ sym (map-append summary_of (take q.limit (drop offset whole)) _)
      ∙ ap (map summary_of) (sym (take-add q.limit (n * q.limit) (drop offset whole)))
      ∙ ap (λ k. map summary_of (take k (drop offset whole))) suc_mul
    where
      suc_mul : q.limit + n * q.limit ≡ suc n * q.limit
      suc_mul = grind arith

  -- What a client has read that asked for pages until it had as many rows as the total says.
  pub record IsListing (items : List OfferSummary) : Type 0 where
    pub rows : List Listed
    pub shown : items ≡ map summary_of rows
    pub counted :
        (offset : ℕ) → (list_offers ilike (record q { offset = offset }) db).total ≡ length rows
    pub passing : All (λ r. passes ilike q r ≡ true) rows
    pub same_rows :
        (p : Listed → Bool)
        → length (filter p rows) ≡ length (filter p (filter (passes ilike q) (joined db)))
    pub in_order : IsSorted (order_clauses q.order_by q.order) rows

  -- Once the pages that were asked for one after the other from the first on are at least as many as
  -- the total needs, the client has read every offer that passes the filters, as often as the joined
  -- table has it and no other, in the order of the query; and every page reported their number.
  pub read_pages-IsListing :
      (n : ℕ) → (list_offers ilike q db).total ≤ n * q.limit → IsListing (read_pages n 0)
  unfolding list_offers
  read_pages-IsListing n enough =
      let rows : List Listed = matching ilike q db in
      let clauses : List Clause = order_clauses q.order_by q.order in
      record {
        rows = whole;
        shown =
            read_pages_lem n 0
            ∙ ap (map summary_of) (
                ap (take (n * q.limit)) (unfold drop in refl)
                ∙ take_whole (n * q.limit) whole
                    (omega (arith, enough, length-sorted clauses rows)));
        counted = λ offset. sym (length-sorted clauses rows);
        passing =
            All-sorted _ clauses rows (unfold matching in All-filter (passes ilike q) (joined db));
        same_rows = λ p. count_sorted p clauses rows ∙ unfold matching in refl;
        in_order = sorted-IsSorted clauses rows;
      }
