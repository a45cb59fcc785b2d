-- ===== src/Commit/Wire/Body/Replay.antt =====
-- Lemmas on grouping operations and putting them back in order, packages/coln-store/src/commit/wire/data.rs.
use coln.Prelude.{
  ℕ, zero, suc, ◌+◌, ◌%◌, ◌^◌, ◌<◌, ◌≤◌, ◌≡◌, refl, sym, ap, ◌∙◌, subst, inl, inr, Option, some,
  List, [], ◌∷◌, ◌++◌, true, map, append-nil, append_assoc, arith,
}
use coln.Prelude.Tests.{Bool-cases, nat_eq, nat_eq_iff, nat_eq_self}
use coln.Prelude.Lists.{
  length, get_elem?, replicate, length-map, length-append, get_elem?-append_length, lt-get_elem?,
}
use coln.Value.{TableOid}
use coln.Txn.{TxnWireTuple, PendingOp, add}
use coln.Commit.Codec.{Parsed, ok}
use coln.Commit.Wire.Libraries.{AllBelow}
use coln.Commit.Wire.Group.{DecodedOpGroup}
use coln.Commit.Wire.Group.Transpose.{values_of}
use coln.Commit.Wire.Body.{OpGroups, push_op, group_ops, bump, next_row, replay, all_used}

-- The first groups are a start of the second ones, group by group.
abbrev pub Extends : OpGroups → OpGroups → Type 0
Extends [] final = Unit
Extends (group ∷ groups) [] = ⊥
Extends (group ∷ groups) (last ∷ final) =
    (group.0 ≡ last.0)
    × ((more : List PendingOp) × (last.1 ≡ group.1 ++ more))
    × Extends groups final

-- How many rows of the second groups the first ones have used.
abbrev pub used : OpGroups → OpGroups → List ℕ
used groups [] = []
used [] (last ∷ final) = 0 ∷ used [] final
used (group ∷ groups) (last ∷ final) = length group.1 ∷ used groups final

abbrev pub decoded : TableOid × List PendingOp → DecodedOpGroup
decoded group = record { table = group.0; rows = map values_of group.1 }

pub Extends-refl : (groups : OpGroups) → Extends groups groups
Extends-refl [] = tt
Extends-refl (group ∷ groups) = (refl, ([], sym (append-nil group.1)), Extends-refl groups)

some_inj {ℓ} : {A : Type ℓ} (x y : A) → some x ≡ some y → x ≡ y
some_inj x y e = cc

get_elem?-map {ℓ κ} :
    {A : Type ℓ} {B : Type κ} (f : A → B) (xs : List A) (i : ℕ) (x : A)
    → get_elem? xs i ≡ some x
    → get_elem? (map f xs) i ≡ some (f x)
get_elem?-map f [] i x e = absurd (cc)
get_elem?-map f (y ∷ xs) zero x e = ap (λ z. some (f z)) (some_inj y x e)
get_elem?-map f (y ∷ xs) (suc i) x e = get_elem?-map f xs i x e

-- What a pushed operation finds in any later groups: its group, the number of rows that were used, and
-- itself at that row.
pub record Finds (groups final : OpGroups) (table : TableOid) (op : PendingOp)
    (pushed : OpGroups × ℕ) : Type 0 where
  pub before : Extends groups final
  pub ops : List PendingOp
  pub row : ℕ
  pub group : get_elem? final pushed.1 ≡ some (table, ops)
  pub offset : get_elem? (used groups final) pushed.1 ≡ some row
  pub here : get_elem? ops row ≡ some op
  pub bumped : bump pushed.1 (used groups final) ≡ used pushed.0 final

-- The operation goes to the first group, or past it.
module _ (table : TableOid) (op : PendingOp) (group last : TableOid × List PendingOp)
    (groups final : OpGroups) where
  Finds-first :
      nat_eq group.0 table ≡ true
      → Extends ((group.0, group.1 ++ op ∷ []) ∷ groups) (last ∷ final)
      → Finds (group ∷ groups) (last ∷ final) table op ((group.0, group.1 ++ op ∷ []) ∷ groups, 0)
  unfolding bump
  Finds-first same extends =
      let table_e : table ≡ last.0 = sym ((nat_eq_iff group.0 table).0 same) ∙ extends.0 in
      let ops_e : last.1 ≡ group.1 ++ (op ∷ extends.1.0) =
        extends.1.1 ∙ append_assoc group.1 (op ∷ []) extends.1.0 in
      record {
        before = (extends.0, (op ∷ extends.1.0, ops_e), extends.2);
        ops = last.1;
        row = length group.1;
        group = ap (λ (t : TableOid). with_table t) (sym table_e);
        offset = refl;
        here =
            ap (λ ops. get_elem? ops (length group.1)) ops_e
            ∙ get_elem?-append_length group.1 op extends.1.0;
        bumped =
            ap (λ (n : ℕ). n ∷ used groups final) (omega (arith, length-append group.1 (op ∷ [])));
      }
    where
      with_table : TableOid → Option (TableOid × List PendingOp)
      with_table t = some (t, last.1)

  Finds-later :
      (pushed : OpGroups × ℕ)
      → (Extends pushed.0 final → Finds groups final table op pushed)
      → Extends (group ∷ pushed.0) (last ∷ final)
      → Finds (group ∷ groups) (last ∷ final) table op (group ∷ pushed.0, suc pushed.1)
  unfolding bump
  Finds-later pushed find extends =
      let found = find extends.2 in
      record {
        before = (extends.0, extends.1, found.before);
        ops = found.ops;
        row = found.row;
        group = found.group;
        offset = found.offset;
        here = found.here;
        bumped = ap (λ offsets. length group.1 ∷ offsets) found.bumped;
      }

push_op-Finds :
    (table : TableOid) (op : PendingOp) (groups final : OpGroups)
    → Extends (push_op table op groups).0 final
    → Finds groups final table op (push_op table op groups)
unfolding push_op bump
push_op-Finds table op [] [] = λ extends. elim extends [ ]
push_op-Finds table op [] (last ∷ final) = λ extends. record {
  before = tt;
  ops = last.1;
  row = 0;
  group = ap (λ (t : TableOid). some (t, last.1)) (sym extends.0);
  offset = refl;
  here = ap (λ ops. get_elem? ops 0) extends.1.1;
  bumped = ap (λ (n : ℕ). n ∷ used [] final) refl;
}
push_op-Finds table op (group ∷ groups) [] = elim (Bool-cases (nat_eq group.0 table)) [
  | inl same ↦ rw (same, push_op) (λ extends. elim extends [ ])
  | inr differ ↦ rw (differ, push_op) (λ extends. elim extends [ ])
]
push_op-Finds table op (group ∷ groups) (last ∷ final) = elim (Bool-cases (nat_eq group.0 table)) [
  | inl same ↦ rw (same, push_op) (Finds-first table op group last groups final same)
  | inr differ ↦
      rw (differ, push_op)
        (Finds-later table op group last groups final (push_op table op groups)
          (push_op-Finds table op groups final))
]

pub group_ops-Extends :
    (ops : List PendingOp) (groups : OpGroups) → Extends groups (group_ops ops groups).groups
unfolding group_ops
group_ops-Extends [] groups = Extends-refl groups
group_ops-Extends (add row_id table values ∷ ops) groups =
    let pushed = push_op table (add row_id table values) groups in
    (push_op-Finds table (add row_id table values) groups (group_ops ops pushed.0).groups
      (group_ops-Extends ops pushed.0)).before

-- The row ids are the positions, from `op_idx` on.
abbrev pub IsNumbered : ℕ → List PendingOp → Type 0
IsNumbered op_idx [] = Unit
IsNumbered op_idx (add row_id table values ∷ ops) = (row_id ≡ op_idx) × IsNumbered (suc op_idx) ops

next_row-Finds :
    (groups final : OpGroups) (op_idx : ℕ) (row_id : ℕ) (table : TableOid) (values : TxnWireTuple)
    (pushed : OpGroups × ℕ)
    → Finds groups final table (add row_id table values) pushed
    → row_id ≡ op_idx
    → op_idx < 2 ^ 32
    → next_row (map decoded final) (used groups final) op_idx pushed.1
      ≡ ok (add row_id table values)
unfolding next_row
next_row-Finds groups final op_idx row_id table values pushed found numbered small =
    let position : op_idx % 2 ^ 32 ≡ row_id = omega (arith, numbered) in
    rw
      (
        get_elem?-map decoded final pushed.1 (table, found.ops) found.group,
        next_row,
        found.offset,
        get_elem?-map values_of found.ops found.row (add row_id table values) found.here,
        position,
      )
      refl

pub replay-group_ops :
    (ops : List PendingOp) (groups final : OpGroups) (op_idx : ℕ)
    → IsNumbered op_idx ops
    → op_idx + length ops ≤ 2 ^ 32
    → length final < 2 ^ 32
    → (group_ops ops groups).groups ≡ final
    → replay
        (map decoded final)
        op_idx
        (group_ops ops groups).op_kinds
        (group_ops ops groups).table_sequence
        (used groups final)
      ≡ ok (ops, used final final)
unfolding group_ops replay
replay-group_ops [] groups final op_idx numbered small few e = ap (λ (gs : OpGroups). ended gs) e
  where
    ended : OpGroups → Parsed (List PendingOp × List ℕ)
    ended gs = ok ([], used gs final)
replay-group_ops (add row_id table values ∷ ops) groups final op_idx numbered small few e =
    let op = add row_id table values in
    let pushed = push_op table op groups in
    let extends : Extends pushed.0 final =
      subst (Extends pushed.0) e (group_ops-Extends ops pushed.0) in
    let found = push_op-Finds table op groups final extends in
    let inside = lt-get_elem? final pushed.1 found.group in
    let index_e : pushed.1 % 2 ^ 32 ≡ pushed.1 = omega (arith, inside, few) in
    rw
      (
        index_e,
        next_row-Finds groups final op_idx row_id table values pushed found numbered.0
            (omega (arith, small)),
        found.bumped,
        replay-group_ops ops pushed.0 final (suc op_idx) numbered.1 (omega (arith, small)) few e,
      )
      refl

pub used_none : (final : OpGroups) → used [] final ≡ replicate (length (map decoded final)) 0
used_none [] = refl
used_none (group ∷ final) = ap (λ offsets. 0 ∷ offsets) (used_none final)

pub all_used-used : (final : OpGroups) → all_used (used final final) (map decoded final) ≡ ok tt
unfolding all_used
all_used-used [] = refl
all_used-used (group ∷ final) =
    rw (length-map values_of group.1, nat_eq_self (length group.1)) (all_used-used final)

-- The columns of a body: as long as the operations, and of 32 bits.
pub group_ops-columns :
    (ops : List PendingOp) (groups : OpGroups)
    → (length (group_ops ops groups).table_sequence ≡ length (group_ops ops groups).op_kinds)
      × AllBelow (2 ^ 32) (group_ops ops groups).table_sequence
      × AllBelow (2 ^ 32) (group_ops ops groups).op_kinds
unfolding group_ops
group_ops-columns [] groups = (refl, tt, tt)
group_ops-columns (add row_id table values ∷ ops) groups =
    let later = group_ops-columns ops (push_op table (add row_id table values) groups).0 in
    (ap suc later.0, (omega arith, later.1), (omega arith, later.2))
