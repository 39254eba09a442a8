-- ===== src/Audit/Examples.antt =====
-- The audit ring on small inputs.
use trust_system.Prelude.{ℕ, ◌≡◌, List, [], ◌∷◌, ◌++◌, arith}
use trust_system.Prelude.Window.{last_n}
use trust_system.Audit.{new}
use trust_system.Audit.Ring.{push_all, push_all-last_n, push_all_unbounded}

abbrev history : List ℕ
history = 1 ∷ 2 ∷ 3 ∷ []

push_all-last_n_example : (push_all (new 2) history).events ≡ last_n 2 history
push_all-last_n_example = push_all-last_n 2 history (omega arith)

push_all_unbounded_example :
    (push_all (record { events = 9 ∷ []; capacity = 0 }) history).events ≡ (9 ∷ []) ++ history
push_all_unbounded_example = push_all_unbounded (9 ∷ []) history
