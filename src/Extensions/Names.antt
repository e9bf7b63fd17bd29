-- ===== src/Extensions/Names.antt =====
-- core/extension_set.rs: when the names of ops are unique.
use Prim.Native.String.{String}
use mathlib.Core.Logic.{ite}
use deno_core.Common.{
  ℕ, ◌+◌, ◌≤◌, ◌≡◌, refl, sym, ap, ◌∙◌, false, List, [], ◌∷◌, some, ltb, lookup, insert,
  lookup-insert, Distinct, insert-Distinct, String-discrete, Bool-cases, inl, inr, if_false, arith,
}
use deno_core.Ops.{OpDecl}
use deno_core.Extensions.{
  or_zero, count_by_name, duplicates, panic_unless_empty, check_no_duplicate_op_names,
}

-- How many ops of the list have the name.
abbrev pub occurrences : String → List OpDecl → ℕ
occurrences name [] = 0
occurrences name (op ∷ ops) = ite (String-discrete op.name name) 1 0 + occurrences name ops

abbrev Counts : Type 0
Counts = List (String × ℕ)

abbrev count_of : String → Counts → ℕ
count_of name counts = or_zero (lookup String-discrete name counts)

counted :
    (name : String) (op : OpDecl) (counts : Counts)
    → count_of name (insert String-discrete op.name (count_of op.name counts + 1) counts)
      ≡ count_of name counts + ite (String-discrete op.name name) 1 0
counted name op counts =
    ap or_zero (lookup-insert String-discrete op.name name (count_of op.name counts + 1) counts)
    ∙ by (String-discrete op.name name)
  where
    by :
        (d : Dec (op.name ≡ name))
        → or_zero (ite d (some (count_of op.name counts + 1)) (lookup String-discrete name counts))
          ≡ count_of name counts + ite d 1 0
    by (yes p) = ap (λ n. count_of n counts + 1) p
    by (no p) = omega arith

count_by_name_lem :
    (name : String) (counts : Counts) (ops : List OpDecl)
    → count_of name (count_by_name counts ops) ≡ count_of name counts + occurrences name ops
count_by_name_lem name counts [] = omega arith
count_by_name_lem name counts (op ∷ ops) = omega (
  arith,
  count_by_name_lem name (insert String-discrete op.name (count_of op.name counts + 1) counts) ops,
  counted name op counts,
)

count_by_name-Distinct :
    (counts : Counts) (ops : List OpDecl)
    → Distinct String-discrete counts
    → Distinct String-discrete (count_by_name counts ops)
count_by_name-Distinct counts [] d = d
count_by_name-Distinct counts (op ∷ ops) d =
    count_by_name-Distinct (insert String-discrete op.name (count_of op.name counts + 1) counts) ops
      (insert-Distinct String-discrete op.name (count_of op.name counts + 1) counts d)

duplicates_none :
    (counts : Counts) (name : String) → duplicates counts ≡ [] → count_of name counts ≤ 1
duplicates_none [] name e = omega arith
duplicates_none ((other, n) ∷ counts) name e = elim (Bool-cases (ltb 1 n)) [
  | inl many ↦ absurd (ground (arith, many, e))
  | inr few ↦
      let rest = duplicates_none counts name (sym (if_false _ _ few) ∙ e) in
      by (String-discrete other name) few rest
]
  where
    by :
        (d : Dec (other ≡ name))
        → ltb 1 n ≡ false
        → count_of name counts ≤ 1
        → or_zero (ite d (some n) (lookup String-discrete name counts)) ≤ 1
    by (yes p) few rest = ground (arith, few)
    by (no p) few rest = rest

none_duplicates :
    (counts : Counts)
    → Distinct String-discrete counts
    → ((name : String) → count_of name counts ≤ 1)
    → duplicates counts ≡ []
none_duplicates [] d h = refl
none_duplicates ((name, n) ∷ counts) (fresh, d) h =
    if_false _ _ (few (String-discrete name name) (h name))
    ∙ none_duplicates counts d (λ other. by other (String-discrete name other) (h other))
  where
    few :
        (e : Dec (name ≡ name))
        → or_zero (ite e (some n) (lookup String-discrete name counts)) ≤ 1
        → ltb 1 n ≡ false
    few (yes p) le = ground (arith, le)
    few (no p) le = absurd (p refl)

    by :
        (other : String) (e : Dec (name ≡ other))
        → or_zero (ite e (some n) (lookup String-discrete other counts)) ≤ 1
        → count_of other counts ≤ 1
    by other (yes p) le = omega (arith, ap (λ k. count_of k counts) p, ap or_zero fresh)
    by other (no p) le = le

-- x
pub check_names_lem :
    (ops : List OpDecl)
    → (check_no_duplicate_op_names ops ≡ some tt → (name : String) → occurrences name ops ≤ 1)
      × (((name : String) → occurrences name ops ≤ 1) → check_no_duplicate_op_names ops ≡ some tt)
unfolding check_no_duplicate_op_names
check_names_lem ops = (
  λ e name. omega (
    arith,
    count_by_name_lem name [] ops,
    duplicates_none (count_by_name [] ops) name (empty_of (duplicates (count_by_name [] ops)) e),
  ),
  λ h. ap panic_unless_empty (
      none_duplicates (count_by_name [] ops) (count_by_name-Distinct [] ops tt)
        (λ name. omega (arith, count_by_name_lem name [] ops, h name))),
)
  where
    empty_of : (names : List String) → panic_unless_empty names ≡ some tt → names ≡ []
    empty_of [] e = refl
    empty_of (name ∷ names) e = absurd (ground (arith, e))
