-- ===== src/Monitor/Fifo.antt =====
-- What the monitor relies on of `tokio::sync::mpsc`: a first-in first-out queue.
use trust_system.Prelude.{ℕ, ◌≡◌, some, List, [], ◌∷◌, ◌++◌, ok}
use trust_system.Monitor.{ToolResult, Channel}

module _ ⦃ch : Channel⦄ where
  -- A new channel is empty; a send that is accepted puts its result behind those in the channel; a
  -- receive takes the foremost, and finds one when there is one.
  pub record IsFifo : Type 0 where
    pub contents : ch.Carrier → List ToolResult
    pub empty : (capacity : ℕ) → contents (ch.channel capacity) ≡ []
    pub sent :
        (c c' : ch.Carrier) (t : ToolResult)
        → ch.send c t ≡ ok c'
        → contents c' ≡ contents c ++ t ∷ []
    pub received :
        (c c' : ch.Carrier) (t : ToolResult)
        → ch.recv c ≡ some (c', t)
        → contents c ≡ t ∷ contents c'
    pub ready :
        (c : ch.Carrier) (t : ToolResult) (ts : List ToolResult)
        → contents c ≡ t ∷ ts
        → (c' : ch.Carrier) × (x : ToolResult) × (ch.recv c ≡ some (c', x))
