-- ===== src/Fabric/Queue.antt =====
-- src/fabric.rs, `BoundedQueue`: the lock makes each method one step.
use trust_system.Prelude.{
  ℕ, ◌≤◌, ◌≡◌, ◌∙◌, refl, sym, ap, Bool, Option, none, some, List, [], ◌∷◌, ◌++◌, arith,
  if◌then◌else◌, leb, length, length-append, Result, ok, err, ◌==◌,
}
use mathlib.Core.List.{append_assoc}
use trust_system.Fabric.{FabricError, queue_full}

pub record BoundedQueue (T : Type 0) : Type 0 where
  pub items : List T
  pub capacity : ℕ

module _ {T : Type 0} where
  abbrev pub new : ℕ → BoundedQueue T
  new capacity = record { items = []; capacity = capacity }

  unfoldable pub push : BoundedQueue T → T → Result FabricError (BoundedQueue T)
  push q item =
      if leb q.capacity (length q.items)
      then err queue_full
      else ok (record q { items = q.items ++ item ∷ [] })

  unfoldable pub pop : BoundedQueue T → BoundedQueue T × Option T
  pop q = elim q.items [ [] ↦ (q, none) | x ∷ xs ↦ (record q { items = xs }, some x) ]

  abbrev pub len : BoundedQueue T → ℕ
  len q = length q.items

  abbrev pub is_empty : BoundedQueue T → Bool
  is_empty q = len q == 0

  -- What was pushed, and what came out so far, each in its order.
  pub data Run (capacity : ℕ) : BoundedQueue T → List T → List T → Type 0 where
    start : Run capacity (new capacity) [] []
    pushed :
        {q q' : BoundedQueue T} {ins outs : List T}
        → (x : T) → Run capacity q ins outs
        → push q x ≡ ok q'
        → Run capacity q' (ins ++ x ∷ []) outs
    popped :
        {q q' : BoundedQueue T} {ins outs : List T}
        → (x : T) → Run capacity q ins outs
        → pop q ≡ (q', some x)
        → Run capacity q' ins (outs ++ x ∷ [])

  push_steps :
      (q q' : BoundedQueue T) (x : T)
      → push q x ≡ ok q'
      → (q'.items ≡ q.items ++ x ∷ [])
        × (q'.capacity ≡ q.capacity)
        × (length q'.items ≤ q'.capacity)
  unfolding push
  push_steps q q' x e =
      let s : q'.items ≡ q.items ++ x ∷ [] = ground arith in
      (s, ground arith, ground (arith, ap length s, length-append q.items (x ∷ [])))

  pop_steps :
      (q q' : BoundedQueue T) (x : T)
      → pop q ≡ (q', some x)
      → (q.items ≡ x ∷ q'.items) × (q'.capacity ≡ q.capacity)
  unfolding pop
  pop_steps q q' x e = (ground arith, ground arith)

  -- A queue keeps the order: what was pushed is what came out, followed by what it holds, which is
  -- never more than its capacity.
  pub Run-Fifo :
      (capacity : ℕ) (q : BoundedQueue T) (ins outs : List T)
      → Run capacity q ins outs
      → (ins ≡ outs ++ q.items) × (length q.items ≤ capacity) × (q.capacity ≡ capacity)
  Run-Fifo capacity _ _ _ start = (refl, omega arith, refl)
  Run-Fifo capacity q' _ outs (pushed {q} {ins} x r e) =
      let (f, l, c) = Run-Fifo capacity q ins outs r in
      let (s, c', b) = push_steps q q' x e in
      (
        ap (λ xs. xs ++ x ∷ []) f
            ∙ append_assoc outs q.items (x ∷ [])
            ∙ ap (λ xs. outs ++ xs) (sym s),
        omega (arith, b, c', c),
        c' ∙ c,
      )
  Run-Fifo capacity q' ins _ (popped {q} {outs} x r e) =
      let (f, l, c) = Run-Fifo capacity q ins outs r in
      let (s, c') = pop_steps q q' x e in
      (
        f ∙ ap (λ xs. outs ++ xs) s ∙ sym (append_assoc outs (x ∷ []) q'.items),
        omega (arith, ap length s, l),
        c' ∙ c,
      )
