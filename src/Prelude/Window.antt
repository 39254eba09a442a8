-- ===== src/Prelude/Window.antt =====
-- Bounded rings: a list that drops its first element when it is full holds the last entries of
-- the history.
use Prim.Native.Nat.{ℕ, zero, suc, ◌-◌, ◌≤◌, ◌<◌}
use mathlib.Core.Path.{◌≡◌, refl}
use mathlib.Core.List.{List, [], ◌∷◌, ◌++◌, foldl, append-nil, append_assoc}
use native.Mathlib.Omega.{arith}
use mathlib.Core.Logic.{inl, inr}
use trust_system.Prelude.Tests.{◌==◌, if◌then◌else◌, Bool-cases}
use trust_system.Prelude.Lists.{length, drop, rest, length-append, length-drop}

module _ {ℓ} {A : Type ℓ} where
  -- The last `n` entries.
  abbrev pub last_n : ℕ → List A → List A
  last_n n h = drop (length h - n) h

  pub length-last_n-le : (n : ℕ) (h : List A) → length (last_n n h) ≤ n
  length-last_n-le n h = omega (arith, length-drop (length h - n) h)

  drop-append : (k : ℕ) (xs ys : List A) → k ≤ length xs → drop k (xs ++ ys) ≡ drop k xs ++ ys
  drop-append zero xs ys h = refl
  drop-append (suc k) [] ys h = absurd (omega arith)
  drop-append (suc k) (x ∷ xs) ys h = drop-append k xs ys (omega arith)

  rest-drop : (k : ℕ) (xs : List A) → rest (drop k xs) ≡ drop (suc k) xs
  rest-drop zero [] = refl
  rest-drop zero (x ∷ xs) = refl
  rest-drop (suc k) [] = refl
  rest-drop (suc k) (x ∷ xs) = rest-drop k xs

  last_n-short : (n : ℕ) (h : List A) → length h ≤ n → last_n n h ≡ h
  last_n-short n h b = let e : length h - n ≡ 0 = omega arith in rw e

  -- One more entry, with room made for it.
  pub last_n-push :
      (n : ℕ) (h : List A) (x : A)
      → 0 < n
      → (if length (last_n n h) == n then rest (last_n n h) else last_n n h) ++ x ∷ []
        ≡ last_n n (h ++ x ∷ [])
  last_n-push n h x b = elim (Bool-cases (length (last_n n h) == n)) [
    | inl full ↦ rw full (full-push n h x b (ground (arith, length-drop (length h - n) h)))
    | inr room ↦ rw room (short-push n h x (ground (arith, length-drop (length h - n) h)))
  ]
    where
      full-push :
          (n : ℕ) (h : List A) (x : A)
          → 0 < n
          → n ≤ length h
          → rest (last_n n h) ++ x ∷ [] ≡ last_n n (h ++ x ∷ [])
      full-push n h x b e =
          let k : length (h ++ x ∷ []) - n ≡ suc (length h - n) =
            omega (arith, length-append h (x ∷ [])) in
          rw (k, rest-drop, drop-append (suc (length h - n)) h (x ∷ []) (omega arith))

      short-push :
          (n : ℕ) (h : List A) (x : A)
          → length h < n
          → last_n n h ++ x ∷ [] ≡ last_n n (h ++ x ∷ [])
      short-push n h x e = rw (
        last_n-short n h (omega arith),
        last_n-short n (h ++ x ∷ []) (omega (arith, length-append h (x ∷ []))),
      )

  -- A ring that starts empty, after a history of pushes.
  pub push_all-last_n :
      (n : ℕ) (push : List A → A → List A)
      → 0 < n
      → ((xs : List A) (x : A) → push xs x ≡ (if length xs == n then rest xs else xs) ++ x ∷ [])
      → (seen new : List A) → foldl push (last_n n seen) new ≡ last_n n (seen ++ new)
  push_all-last_n n push b e seen [] = rw append-nil
  push_all-last_n n push b e seen (x ∷ new) =
      rw
        (
          e (last_n n seen) x,
          last_n-push n seen x b,
          push_all-last_n n push b e (seen ++ x ∷ []) new,
        )
        (rw append_assoc)
