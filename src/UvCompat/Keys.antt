-- ===== src/UvCompat/Keys.antt =====
-- The ordered set of timer keys.
use deno_core.Common.{
  ℕ, ◌≡◌, refl, Bool, true, false, ◌&&◌, List, [], ◌∷◌, leb, ◌==◌, if◌then◌else◌, arith,
}
use deno_core.UvCompat.{TimerKey, key_lt, insert_key, remove_key}
use deno_core.UvCompat.Phases.{expired}

abbrev pub has_key : TimerKey → List TimerKey → Bool
has_key k [] = false
has_key k (j ∷ js) = let rest = has_key k js in if k.0 == j.0 && k.1 == j.1 then true else rest

pub has_key-insert_key :
    (k j : TimerKey) (js : List TimerKey)
    → has_key k (insert_key j js) ≡ (if k.0 == j.0 && k.1 == j.1 then true else has_key k js)
has_key-insert_key k j [] = refl
has_key-insert_key k j (l ∷ js) = ground (arith, has_key-insert_key k j js)

pub has_key-remove_key :
    (k j : TimerKey) (js : List TimerKey)
    → has_key k (remove_key j js) ≡ (if k.0 == j.0 && k.1 == j.1 then false else has_key k js)
has_key-remove_key k j [] = ground arith
has_key-remove_key k j (l ∷ js) = ground (arith, has_key-remove_key k j js)

-- Every key of the list is above `k`.
abbrev pub Above : TimerKey → List TimerKey → Type 0
Above k [] = Unit
Above k (j ∷ js) = (key_lt k j ≡ true) × Above k js

abbrev pub Sorted : List TimerKey → Type 0
Sorted [] = Unit
Sorted (k ∷ ks) = Above k ks × Sorted ks

Above-trans : (k j : TimerKey) (js : List TimerKey) → key_lt k j ≡ true → Above j js → Above k js
Above-trans k j [] h a = tt
Above-trans k j (l ∷ js) h a = (ground arith, Above-trans k j js h a.1)

Above-insert_key :
    (k j : TimerKey) (js : List TimerKey)
    → key_lt k j ≡ true
    → Above k js
    → Above k (insert_key j js)
Above-insert_key k j [] h a = (h, tt)
Above-insert_key k j (l ∷ js) h a = ground (arith, Above-insert_key k j js h a.1)

pub insert_key-Sorted : (k : TimerKey) (js : List TimerKey) → Sorted js → Sorted (insert_key k js)
insert_key-Sorted k [] s = (tt, tt)
insert_key-Sorted k (j ∷ js) s =
    ground (arith, insert_key-Sorted k js s.1, Above-insert_key j k js, Above-trans k j js)

Above-remove_key : (k j : TimerKey) (js : List TimerKey) → Above k js → Above k (remove_key j js)
Above-remove_key k j [] a = tt
Above-remove_key k j (l ∷ js) a = ground (arith, Above-remove_key k j js a.1)

pub remove_key-Sorted : (k : TimerKey) (js : List TimerKey) → Sorted js → Sorted (remove_key k js)
remove_key-Sorted k [] s = tt
remove_key-Sorted k (j ∷ js) s =
    ground (arith, remove_key-Sorted k js s.1, Above-remove_key j k js s.0)

pub Above-lt :
    (k j : TimerKey) (js : List TimerKey) → Above k js → has_key j js ≡ true → key_lt k j ≡ true
Above-lt k j [] a h = absurd (ground (arith, h))
Above-lt k j (l ∷ js) a h = ground (arith, a.0, Above-lt k j js a.1, h)

Above-due :
    (now : ℕ) (k j : TimerKey) (js : List TimerKey)
    → leb k.0 now ≡ false
    → Above k js
    → has_key j js ≡ true
    → leb j.0 now ≡ false
Above-due now k j js h a m = ground (arith, Above-lt k j js a m)

-- The expired keys are those that are due.
pub has_key-expired :
    (now : ℕ) (k : TimerKey) (js : List TimerKey)
    → Sorted js
    → has_key k (expired now js) ≡ (leb k.0 now && has_key k js)
has_key-expired now k [] s = ground arith
has_key-expired now k (j ∷ js) s =
    ground (arith, has_key-expired now k js s.1, Above-due now j k js)

Above-expired :
    (now : ℕ) (k : TimerKey) (js : List TimerKey) → Above k js → Above k (expired now js)
Above-expired now k [] a = tt
Above-expired now k (j ∷ js) a = ground (arith, Above-expired now k js a.1)

pub expired-Sorted : (now : ℕ) (js : List TimerKey) → Sorted js → Sorted (expired now js)
expired-Sorted now [] s = tt
expired-Sorted now (j ∷ js) s =
    ground (arith, expired-Sorted now js s.1, Above-expired now j js s.0)

-- The keys up to a time, wherever they stand.
abbrev pub due_keys : ℕ → List TimerKey → List TimerKey
due_keys now [] = []
due_keys now (k ∷ ks) = let rest = due_keys now ks in if leb k.0 now then k ∷ rest else rest

none_due :
    (now : ℕ) (k : TimerKey) (ks : List TimerKey)
    → leb k.0 now ≡ false
    → Above k ks
    → due_keys now ks ≡ []
none_due now k [] h a = refl
none_due now k (j ∷ ks) h a = ground (arith, none_due now k ks h a.1, a.0)

pub expired-eq : (now : ℕ) (ks : List TimerKey) → Sorted ks → expired now ks ≡ due_keys now ks
expired-eq now [] s = refl
expired-eq now (k ∷ ks) s = ground (arith, expired-eq now ks s.1, none_due now k ks)
