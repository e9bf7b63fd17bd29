-- ===== src/Modules/RecursiveLoad/Referrer/Position.antt =====
-- core/modules/recursive_load.rs: the position is the one that a scan of the code arrives at.
use Prim.Native.String.{String}
use deno_core.Common.{
  ℕ, suc, ◌+◌, ◌-◌, ◌^◌, ◌≤◌, ◌<◌, ◌≡◌, refl, sym, ap, ap₂, ◌∙◌, ◌⊎◌, inl, inr, List, [], ◌∷◌,
  Option, none, some, ◌==◌, leb-true, leb-false, if◌then◌else◌, if_true, if_false, Bool-cases,
  some_value, length, length-take, take, arith,
}
use deno_core.Modules.RecursiveLoad.Referrer.{
  SourceMapApplication, newline_positions, last_numbered, line_and_column_of, mapped,
  source_mapped_module_load_referrer,
}

-- One byte at a time: a newline starts a line, any other byte is one column more.
abbrev pub scan : ℕ × ℕ → List ℕ → ℕ × ℕ
scan position [] = position
scan (line, column) (c ∷ code) =
    if c == 10 then scan (line + 1, 1) code else scan (line, column + 1) code

-- The position after code that starts at an index, where `n` lines were counted.
abbrev from : ℕ → ℕ → ℕ → ℕ → ℕ → Option (ℕ × ℕ) → ℕ × ℕ
from line column n k size none = (line, column + size)
from line column n k size (some (m, i)) = (line + (m - n) + 1, k + size - i)

last_some : (n j : ℕ) (js : List ℕ) → (r : ℕ × ℕ) × (last_numbered n (j ∷ js) ≡ some r)
last_some n j [] = ((n, j), refl)
last_some n j (i ∷ is) = last_some (n + 1) i is

-- The last of a list is its head or the last of its tail.
last_cases :
    (n k : ℕ) (rest : List ℕ)
    → ((last_numbered n (k ∷ rest) ≡ some (n, k)) × (last_numbered (n + 1) rest ≡ none))
      ⊎ ((r : ℕ × ℕ) × (last_numbered n (k ∷ rest) ≡ some r)
          × (last_numbered (n + 1) rest ≡ some r))
last_cases n k [] = inl (refl, refl)
last_cases n k (j ∷ js) = let (r, e) = last_some (n + 1) j js in inr (r, e, e)

last_bounds :
    (n k : ℕ) (code : List ℕ) (r : ℕ × ℕ)
    → last_numbered n (newline_positions k code) ≡ some r
    → (n ≤ r.0) × (r.0 < n + length code) × (k ≤ r.1) × (r.1 < k + length code)
last_bounds n k [] r e = absurd (ground (arith, e))
last_bounds n k (c ∷ code) r e = elim (Bool-cases (c == 10)) [
  | inl newline ↦
      let e1 : last_numbered n (k ∷ newline_positions (k + 1) code) ≡ some r =
        ap (last_numbered n) (sym (if_true _ _ newline)) ∙ e in
      elim (last_cases n k (newline_positions (k + 1) code)) [
        | inl (first, _) ↦
            let same = some_value (sym first ∙ e1) in
            (
              omega (arith, ap (λ p. p.0) same),
              omega (arith, ap (λ p. p.0) same),
              omega (arith, ap (λ p. p.1) same),
              omega (arith, ap (λ p. p.1) same),
            )
        | inr (r', later, rest) ↦
            let (a, b, c, d) = last_bounds (n + 1) (k + 1) code r (rest ∙ sym later ∙ e1) in
            (omega (arith, a), omega (arith, b), omega (arith, c), omega (arith, d))
      ]
  | inr plain ↦
      let (a, b, c, d) =
        last_bounds n (k + 1) code r (ap (last_numbered n) (sym (if_false _ _ plain)) ∙ e) in
      (a, omega (arith, b), omega (arith, c), omega (arith, d))
]

scan_lem :
    (line column n k : ℕ) (code : List ℕ)
    → scan (line, column) code
      ≡ from line column n k (length code) (last_numbered n (newline_positions k code))
scan_lem line column n k [] = ap (λ c. (line, c)) (omega arith)
scan_lem line column n k (c ∷ code) = elim (Bool-cases (c == 10)) [
  | inl newline ↦
      if_true _ _ newline
      ∙ scan_lem (line + 1) 1 (n + 1) (k + 1) code
      ∙ (elim (last_cases n k (newline_positions (k + 1) code)) [
        | inl (first, rest) ↦
            ap (from (line + 1) 1 (n + 1) (k + 1) (length code)) rest
            ∙ at_newline
            ∙ ap (from line column n k (suc (length code))) (sym first)
            ∙ ap (λ ps. from line column n k (suc (length code)) (last_numbered n ps))
                (sym (if_true _ _ newline))
        | inr (r, later, rest) ↦
            ap (from (line + 1) 1 (n + 1) (k + 1) (length code)) rest
            ∙ moved r (last_bounds (n + 1) (k + 1) code r rest).0
            ∙ ap (from line column n k (suc (length code))) (sym later)
            ∙ ap (λ ps. from line column n k (suc (length code)) (last_numbered n ps))
                (sym (if_true _ _ newline))
      ])
  | inr plain ↦
      if_false _ _ plain
      ∙ scan_lem line (column + 1) n (k + 1) code
      ∙ shifted (last_numbered n (newline_positions (k + 1) code))
      ∙ ap (λ ps. from line column n k (suc (length code)) (last_numbered n ps))
          (sym (if_false _ _ plain))
]
  where
    at_newline :
        from (line + 1) 1 (n + 1) (k + 1) (length code) none
        ≡ from line column n k (suc (length code)) (some (n, k))
    at_newline = ap₂ (λ a b. (a, b)) (omega arith) (omega arith)

    moved :
        (r : ℕ × ℕ)
        → n + 1 ≤ r.0
        → from (line + 1) 1 (n + 1) (k + 1) (length code) (some r)
          ≡ from line column n k (suc (length code)) (some r)
    moved (m, i) h = ap₂ (λ a b. (a, b)) (omega (arith, h)) (omega arith)

    shifted :
        (o : Option (ℕ × ℕ))
        → from line (column + 1) n (k + 1) (length code) o
          ≡ from line column n k (suc (length code)) o
    shifted none = ap (λ b. (line, b)) (omega arith)
    shifted (some (m, i)) = ap (λ b. (line + (m - n) + 1, b)) (omega arith)

position_lem :
    (code : List ℕ) (offset : ℕ)
    → offset ≤ length code
    → offset < 2 ^ 31
    → line_and_column_of offset (last_numbered 0 (newline_positions 0 (take offset code)))
      ≡ scan (1, 1) (take offset code)
position_lem code offset inside small =
    by (last_numbered 0 (newline_positions 0 before)) refl ∙ sym (scan_lem 1 1 0 0 before)
  where
    before : List ℕ
    before = take offset code

    size : length before ≡ offset
    size = omega (arith, length-take offset code, inside)

    by :
        (o : Option (ℕ × ℕ))
        → last_numbered 0 (newline_positions 0 before) ≡ o
        → line_and_column_of offset o ≡ from 1 1 0 0 (length before) o
    by none e = ap₂ (λ a b. (a, b)) refl (omega (arith, size, small))
    by (some (m, i)) e =
        let (a, b, c, d) = last_bounds 0 0 before (m, i) e in
        ap₂ (λ a b. (a, b)) (omega (arith, size, small, b)) (omega (arith, size, small, d))

-- For an offset below 2 ^ 31 that is not beyond the code, the position given to the source map
-- is the line and column that a scan of the bytes before the offset arrives at from line 1 and
-- column 1, where a newline starts a line and any other byte is one column more; the referrer is
-- what the source map makes of it. For an offset beyond the code there is no referrer.
pub referrer_lem :
    (apply_source_map : String → ℕ → ℕ → SourceMapApplication) (parse : String → Option String)
    (referrer : String) (code : List ℕ) (offset : ℕ)
    → offset < 2 ^ 31
    → (offset ≤ length code
        → let (line, column) = scan (1, 1) (take offset code) in
          source_mapped_module_load_referrer apply_source_map parse referrer code offset
          ≡ mapped parse referrer (line, column) (apply_source_map referrer line column))
      × (length code < offset
          → source_mapped_module_load_referrer apply_source_map parse referrer code offset ≡ none)
unfolding source_mapped_module_load_referrer
referrer_lem apply_source_map parse referrer code offset small = (
  λ inside.
      if_true _ _ (leb-true {n = offset} {m = length code} inside)
      ∙ ap (λ p. mapped parse referrer p (apply_source_map referrer p.0 p.1))
          (position_lem code offset inside small),
  λ outside. if_false _ _ (leb-false {n = offset} {m = length code} outside),
)
