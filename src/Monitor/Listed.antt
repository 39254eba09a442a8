-- ===== src/Monitor/Listed.antt =====
-- A channel that is a list: a stand-in for that of tokio on which the definitions run. It shows that
-- `IsFifo` can hold.
use trust_system.Prelude.{
  ℕ, ◌≡◌, refl, none, some, List, [], ◌∷◌, ◌++◌, arith, Result, ok, err, Option, ltb, if◌then◌else◌,
  length,
}
use trust_system.Monitor.{ToolResult, Channel}
use trust_system.Monitor.Fifo.{IsFifo}

-- The capacity with the results on their way.
abbrev pub Queue : Type 0
Queue = ℕ × List ToolResult

unfoldable pub push : Queue → ToolResult → Result ToolResult Queue
push (capacity, ts) t = if ltb (length ts) capacity then ok (capacity, ts ++ t ∷ []) else err t

unfoldable pub take : Queue → Option (Queue × ToolResult)
take (capacity, []) = none
take (capacity, t ∷ ts) = some ((capacity, ts), t)

instance abbrev pub listed : Channel
listed = record { Carrier = Queue; channel = λ capacity. (capacity, []); send = push; recv = take }

take_steps : (c c' : Queue) (t : ToolResult) → take c ≡ some (c', t) → c.1 ≡ t ∷ c'.1
unfolding take
take_steps (capacity, []) c' t e = absurd (cc)
take_steps (capacity, x ∷ xs) c' t e = ground arith

take_ready :
    (c : Queue) (t : ToolResult) (ts : List ToolResult)
    → c.1 ≡ t ∷ ts
    → (c' : Queue) × (x : ToolResult) × (take c ≡ some (c', x))
unfolding take
take_ready (capacity, []) t ts e = absurd (cc)
take_ready (capacity, x ∷ xs) t ts e = ((capacity, xs), x, refl)

pub listed-IsFifo : IsFifo
unfolding push
listed-IsFifo = record {
  contents = λ c. c.1;
  empty = λ capacity. refl;
  sent = λ c c' t e. ground arith;
  received = take_steps;
  ready = take_ready;
}
