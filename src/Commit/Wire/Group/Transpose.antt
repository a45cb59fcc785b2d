-- ===== src/Commit/Wire/Group/Transpose.antt =====
-- Lemmas on the rows and the columns of a group, packages/coln-store/src/commit/wire/data.rs.
use coln.Prelude.{
  ℕ, zero, suc, ◌+◌, ◌<◌, ◌≡◌, refl, sym, ap, ◌∙◌, subst, inl, inr, some, List, [], ◌∷◌, map, arith,
}
use coln.Prelude.Tests.{Option-cases, Bool-cases, nat_eq, nat_eq_iff}
use coln.Prelude.Lists.{length, get_elem?, drop}
use coln.Value.{TableOid}
use coln.Txn.{TxnWireValue, TxnWireTuple, PendingOp, add}
use coln.Commit.Codec.{ok, ok-injective, ok_of_bind}
use coln.Commit.Wire.Columns.RowRefs.{AllCells}
use coln.Commit.Wire.PrimValue.RoundTrip.{IsCell}
use coln.Commit.Wire.Group.{group_rows, column_of, row_of, transpose}

abbrev pub AllRows : ℕ → List TxnWireTuple → Type 0
AllRows n [] = Unit
AllRows n (row ∷ rows) = (length row ≡ n) × AllCells row × AllRows n rows

abbrev pub values_of : PendingOp → TxnWireTuple
values_of (add row_id table values) = values

-- All operations add to the table, and their cells are in range.
abbrev pub AllOps : TableOid → List PendingOp → Type 0
AllOps table [] = Unit
AllOps table (add row_id other values ∷ ops) = (other ≡ table) × AllCells values × AllOps table ops

abbrev pub AllTuples : List PendingOp → Type 0
AllTuples [] = Unit
AllTuples (op ∷ ops) = AllCells (values_of op) × AllTuples ops

pub group_rows-AllRows :
    (table : TableOid) (n : ℕ) (ops : List PendingOp) (rows : List TxnWireTuple)
    → AllTuples ops
    → group_rows table n ops ≡ ok rows
    → (rows ≡ map values_of ops) × AllRows n rows
unfolding group_rows
group_rows-AllRows table n [] rows cells e =
    subst (λ rs. (rs ≡ []) × AllRows n rs) (ok-injective _ _ e) (refl, tt)
group_rows-AllRows table n (add row_id other values ∷ ops) rows cells e =
    elim (Bool-cases (nat_eq other table)) [
      | inr off ↦ absurd (ground (arith, e, off))
      | inl same ↦ elim (Bool-cases (nat_eq (length values) n)) [
        | inr off ↦ absurd (ground (arith, e, same, off))
        | inl long ↦
            let (rest, e₁, done) =
              ok_of_bind (group_rows table n ops) _ rows
                (rw (long, group_rows) at (rw (same, group_rows) at e)) in
            let later = group_rows-AllRows table n ops rest cells.1 e₁ in
            subst (λ rs. (rs ≡ values ∷ map values_of ops) × AllRows n rs) (ok-injective _ _ done)
              (
                ap (λ rs. values ∷ rs) later.0,
                ((nat_eq_iff (length values) n).0 long, cells.0, later.1),
              )
      ]
    ]

some_inj {ℓ} : {A : Type ℓ} (x y : A) → some x ≡ some y → x ≡ y
some_inj x y e = cc

IsCell-at :
    (row : TxnWireTuple) (i : ℕ) (value : TxnWireValue)
    → AllCells row
    → get_elem? row i ≡ some value
    → IsCell value
IsCell-at [] i value cells e = absurd (cc)
IsCell-at (first ∷ row) zero value cells e = subst IsCell (some_inj first value e) cells.0
IsCell-at (first ∷ row) (suc i) value cells e = IsCell-at row i value cells.1 e

-- What a column is: the cells of the rows at its index.
pub record CellsOf (i : ℕ) (rows : List TxnWireTuple) (column : List TxnWireValue) : Type 0 where
  pub long : length column ≡ length rows
  pub cells : (n : ℕ) → AllRows n rows → AllCells column
  pub at :
      (r : ℕ) (row : TxnWireTuple)
      → get_elem? rows r ≡ some row
      → get_elem? column r ≡ get_elem? row i

CellsOf-cons :
    (i : ℕ) (row : TxnWireTuple) (rows : List TxnWireTuple) (value : TxnWireValue)
    (column : List TxnWireValue)
    → get_elem? row i ≡ some value
    → CellsOf i rows column
    → CellsOf i (row ∷ rows) (value ∷ column)
CellsOf-cons i row rows value column found of = record {
  long = ap suc of.long;
  cells = λ n all. (IsCell-at row i value all.1 found, of.cells n all.2);
  at = at_row;
}
  where
    at_row :
        (r : ℕ) (other : TxnWireTuple)
        → get_elem? (row ∷ rows) r ≡ some other
        → get_elem? (value ∷ column) r ≡ get_elem? other i
    at_row zero other e = sym found ∙ ap (λ t. get_elem? t i) (some_inj row other e)
    at_row (suc r) other e = of.at r other e

pub column_of-CellsOf :
    (i : ℕ) (rows : List TxnWireTuple) (column : List TxnWireValue)
    → column_of i rows ≡ ok column
    → CellsOf i rows column
unfolding column_of
column_of-CellsOf i [] column e =
    subst (CellsOf i []) (ok-injective _ _ e)
      (record { long = refl; cells = λ n all. tt; at = λ r row p. absurd (cc) })
column_of-CellsOf i (row ∷ rows) column e = elim (Option-cases (get_elem? row i)) [
  | inr missing ↦ absurd (ground (arith, e, missing))
  | inl (value, found) ↦
      let (rest, e₁, done) = ok_of_bind (column_of i rows) _ column (rw (found, column_of) at e) in
      subst (CellsOf i (row ∷ rows)) (ok-injective _ _ done)
        (CellsOf-cons i row rows value rest found (column_of-CellsOf i rows rest e₁))
]

-- The columns of the rows from an index on.
abbrev pub ColumnsFrom : ℕ → List TxnWireTuple → List (List TxnWireValue) → Type 0
ColumnsFrom i rows [] = Unit
ColumnsFrom i rows (column ∷ columns) =
    (column_of i rows ≡ ok column) × ColumnsFrom (suc i) rows columns

drop_step {ℓ} :
    {A : Type ℓ} (xs : List A) (i : ℕ)
    → i < length xs
    → (x : A) × (get_elem? xs i ≡ some x) × (drop i xs ≡ x ∷ drop (suc i) xs)
drop_step [] i h = absurd (omega (arith, h))
drop_step (x ∷ xs) zero h = (x, refl, refl)
drop_step (x ∷ xs) (suc i) h = drop_step xs i (omega (arith, h))

drop_all {ℓ} : {A : Type ℓ} (xs : List A) (i : ℕ) → length xs ≡ i → drop i xs ≡ []
drop_all [] zero h = refl
drop_all [] (suc i) h = refl
drop_all (x ∷ xs) zero h = absurd (omega (arith, h))
drop_all (x ∷ xs) (suc i) h = drop_all xs i (omega (arith, h))

row_of-row :
    (i r : ℕ) (rows : List TxnWireTuple) (columns : List (List TxnWireValue)) (row : TxnWireTuple)
    → ColumnsFrom i rows columns
    → get_elem? rows r ≡ some row
    → length row ≡ i + length columns
    → row_of columns r ≡ ok (drop i row)
unfolding row_of
row_of-row i r rows [] row from at_r long = ap ok (sym (drop_all row i (omega (arith, long))))
row_of-row i r rows (column ∷ columns) row from at_r long =
    let (value, found, split) = drop_step row i (omega (arith, long)) in
    let cell : get_elem? column r ≡ some value =
      (column_of-CellsOf i rows column from.0).at r row at_r ∙ found in
    let later = row_of-row (suc i) r rows columns row from.1 at_r (omega (arith, long)) in
    rw (cell, row_of, later) (ap ok (sym split))

AllRows-at :
    (n : ℕ) (rows : List TxnWireTuple) (r : ℕ) (row : TxnWireTuple)
    → AllRows n rows
    → get_elem? rows r ≡ some row
    → length row ≡ n
AllRows-at n [] r row all e = absurd (cc)
AllRows-at n (first ∷ rows) zero row all e = ap length (sym (some_inj first row e)) ∙ all.0
AllRows-at n (first ∷ rows) (suc r) row all e = AllRows-at n rows r row all.2 e

pub transpose-columns :
    (rows : List TxnWireTuple) (columns : List (List TxnWireValue)) (count r : ℕ)
    → AllRows (length columns) rows
    → ColumnsFrom 0 rows columns
    → r + count ≡ length rows
    → transpose count r columns ≡ ok (drop r rows)
unfolding transpose
transpose-columns rows columns zero r all from e = ap ok (sym (drop_all rows r (omega (arith, e))))
transpose-columns rows columns (suc count) r all from e =
    let (row, found, split) = drop_step rows r (omega (arith, e)) in
    let first =
      row_of-row 0 r rows columns row from found
        (AllRows-at (length columns) rows r row all found ∙ omega arith) in
    rw (first, transpose-columns rows columns count (suc r) all from (omega (arith, e)))
      (ap ok (sym split))
