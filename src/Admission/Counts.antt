-- ===== src/Admission/Counts.antt =====
-- The counters of admission.rs: laws of reading, setting and dropping one, and of their sum.
use trust_system.Prelude.{
  ℕ, suc, ◌+◌, ◌≤◌, ◌<◌, ◌≡◌, ◌∙◌, ◌≢◌, none, some, List, [], ◌∷◌, ◌++◌, arith, length,
}
use trust_system.Prelude.Text.{Text, text_dec}
use trust_system.Prelude.Order.{list_cmp}
use trust_system.Prelude.BTreeMap
use trust_system.Prelude.BTreeMap.{
  Sorted, list_cmp-IsKeyOrder, KeysFrom-trans, get-KeysFrom, get-insert_self, get-insert_ne,
  get-remove_self, get-remove_ne,
}
use trust_system.Admission.{Counts, Permit, tenant_of, count_of}

-- The permits that a tenant holds.
abbrev pub held_by : Text → List Permit → ℕ
held_by t [] = 0
held_by t (p ∷ ps) = elim (text_dec (tenant_of p) t) [
  | yes _ ↦ suc (held_by t ps)
  | no _ ↦ held_by t ps
]

abbrev pub sum_of : Counts → ℕ
sum_of [] = 0
sum_of ((t, n) ∷ m) = n + sum_of m

abbrev pub AllPositive : Counts → Type 0
AllPositive [] = Unit {0}
AllPositive ((t, n) ∷ m) = (0 < n) × AllPositive m

count-insert_self :
    (t : Text) (n : ℕ) (m : Counts) → count_of t (BTreeMap.insert list_cmp t n m) ≡ n
count-insert_self t n m = ground (arith, get-insert_self list_cmp list_cmp-IsKeyOrder t n m)

count-insert_ne :
    (t s : Text) (n : ℕ) (m : Counts)
    → s ≢ t
    → count_of s (BTreeMap.insert list_cmp t n m) ≡ count_of s m
count-insert_ne t s n m h = ground (arith, get-insert_ne list_cmp list_cmp-IsKeyOrder t s n m h)

count-remove_self :
    (t : Text) (m : Counts) → Sorted list_cmp m → count_of t (BTreeMap.remove list_cmp t m) ≡ 0
count-remove_self t m h = ground (arith, get-remove_self list_cmp-IsKeyOrder t m h)

count-remove_ne :
    (t s : Text) (m : Counts) → s ≢ t → count_of s (BTreeMap.remove list_cmp t m) ≡ count_of s m
count-remove_ne t s m h = ground (arith, get-remove_ne list_cmp-IsKeyOrder t s m h)

-- The counter of `s` after the one of `t` is set to `n`.
pub count-insert :
    (t s : Text) (n : ℕ) (m : Counts)
    → count_of s (BTreeMap.insert list_cmp t n m)
      ≡ elim (text_dec t s) [ yes _ ↦ n | no _ ↦ count_of s m ]
count-insert t s n m = ground (arith, count-insert_self t n m, count-insert_ne t s n m)

pub count-remove :
    (t s : Text) (m : Counts)
    → Sorted list_cmp m
    → count_of s (BTreeMap.remove list_cmp t m)
      ≡ elim (text_dec t s) [ yes _ ↦ 0 | no _ ↦ count_of s m ]
count-remove t s m h = ground (arith, count-remove_self t m h, count-remove_ne t s m)

pub sum-insert :
    (t : Text) (n : ℕ) (m : Counts)
    → Sorted list_cmp m
    → sum_of (BTreeMap.insert list_cmp t n m) + count_of t m ≡ sum_of m + n
unfolding BTreeMap.insert BTreeMap.get
sum-insert t n [] h = omega arith
sum-insert t n ((s, k) ∷ m) h = ground (
  arith,
  sum-insert t n m h.1,
  KeysFrom-trans list_cmp-IsKeyOrder t s m,
  get-KeysFrom list_cmp-IsKeyOrder t m,
)

pub sum-remove :
    (t : Text) (m : Counts)
    → Sorted list_cmp m
    → sum_of (BTreeMap.remove list_cmp t m) + count_of t m ≡ sum_of m
unfolding BTreeMap.remove BTreeMap.get
sum-remove t [] h = omega arith
sum-remove t ((s, k) ∷ m) h = ground (arith, sum-remove t m h.1)

pub positive-insert :
    (t : Text) (n : ℕ) (m : Counts)
    → 0 < n
    → AllPositive m
    → AllPositive (BTreeMap.insert list_cmp t n m)
unfolding BTreeMap.insert
positive-insert t n [] h p = (h, tt)
positive-insert t n ((s, k) ∷ m) h p = ground (arith, positive-insert t n m h p.1)

pub positive-remove :
    (t : Text) (m : Counts) → AllPositive m → AllPositive (BTreeMap.remove list_cmp t m)
unfolding BTreeMap.remove
positive-remove t [] p = tt
positive-remove t ((s, k) ∷ m) p = ground (arith, positive-remove t m p.1)

pub length-le-sum : (m : Counts) → AllPositive m → length m ≤ sum_of m
length-le-sum [] p = omega arith
length-le-sum ((t, n) ∷ m) p = omega (arith, length-le-sum m p.1)

pub count-le-sum : (t : Text) (m : Counts) → count_of t m ≤ sum_of m
unfolding BTreeMap.get
count-le-sum t [] = omega arith
count-le-sum t ((s, k) ∷ m) = ground (arith, count-le-sum t m)

pub held_by-append :
    (t : Text) (ps qs : List Permit) → held_by t (ps ++ qs) ≡ held_by t ps + held_by t qs
held_by-append t [] qs = omega arith
held_by-append t (p ∷ ps) qs = ground (arith, held_by-append t ps qs)

set_twice :
    (t : Text) (n k : ℕ) (m : Counts)
    → BTreeMap.insert list_cmp t k (BTreeMap.insert list_cmp t n m) ≡ BTreeMap.insert list_cmp t k m
unfolding BTreeMap.insert
set_twice t n k [] = ground (arith, list_cmp-IsKeyOrder.eq_iff t t)
set_twice t n k ((s, w) ∷ m) =
    ground
      (arith, list_cmp-IsKeyOrder.eq_iff t t, list_cmp-IsKeyOrder.eq_iff t s, set_twice t n k m)

set_same :
    (t : Text) (n : ℕ) (m : Counts)
    → Sorted list_cmp m
    → BTreeMap.get list_cmp t m ≡ some n
    → BTreeMap.insert list_cmp t n m ≡ m
unfolding BTreeMap.insert BTreeMap.get
set_same t n [] h e = cc
set_same t n ((s, w) ∷ m) h e = ground (
  arith,
  set_same t n m h.1,
  list_cmp-IsKeyOrder.eq_iff t s,
  KeysFrom-trans list_cmp-IsKeyOrder t s m,
  get-KeysFrom list_cmp-IsKeyOrder t m,
)

-- To count up and down again leaves the counters as they were: a count is written back, and an
-- entry that was new is dropped.
pub set_back :
    (t : Text) (n k : ℕ) (m : Counts)
    → Sorted list_cmp m
    → BTreeMap.get list_cmp t m ≡ some n
    → BTreeMap.insert list_cmp t n (BTreeMap.insert list_cmp t k m) ≡ m
set_back t n k m h e = set_twice t k n m ∙ set_same t n m h e

pub drop_new :
    (t : Text) (n : ℕ) (m : Counts)
    → BTreeMap.get list_cmp t m ≡ none
    → BTreeMap.remove list_cmp t (BTreeMap.insert list_cmp t n m) ≡ m
unfolding BTreeMap.insert BTreeMap.get BTreeMap.remove
drop_new t n [] e = ground (arith, list_cmp-IsKeyOrder.eq_iff t t)
drop_new t n ((s, w) ∷ m) e =
    ground (arith, list_cmp-IsKeyOrder.eq_iff t t, list_cmp-IsKeyOrder.eq_iff t s, drop_new t n m)

pub count-positive :
    (t : Text) (n : ℕ) (m : Counts) → AllPositive m → BTreeMap.get list_cmp t m ≡ some n → 0 < n
unfolding BTreeMap.get
count-positive t n [] p e = absurd (cc)
count-positive t n ((s, w) ∷ m) p e = ground (arith, count-positive t n m p.1)
