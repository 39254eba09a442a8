-- ===== src/Fabric/Gate/Overshoot.antt =====
-- src/fabric.rs, `AdmissionController`: how far the counters pass their limits.
use trust_system.Prelude.{ℕ, zero, suc, ◌+◌, ◌-◌, ◌≤◌, ◌<◌, ◌^◌, ◌≡◌, refl, sym, subst, arith}
use trust_system.Prelude.Words.{inc32}
use trust_system.Fabric.Gate.{
  complete, dequeue, System, initial, inside, Move, sees_room, sees_none, accepts, sees_space,
  sheds, queues, completes, dequeues, Reach, here, next,
}

pub record Inv (n limit depth : ℕ) (s : System) : Type 0 where
  pub limits :
      (s.controller.global_concurrency_limit ≡ limit) × (s.controller.max_queue_depth ≡ depth)
  pub threads : inside s ≤ n
  pub active : s.controller.active_requests ≡ s.running
  pub queued : s.controller.queue_depth ≡ s.waiting
  pub above : s.running + s.admitting ≤ limit + n - 1
  pub behind : s.waiting + s.enqueueing ≤ depth + n - 1

module _ (n limit depth : ℕ) (few : limit + n < 2 ^ 32) (shallow : depth + n < 2 ^ 32) where
  Move-Inv : (s s' : System) → Move n s s' → Inv n limit depth s → Inv n limit depth s'
  unfolding complete dequeue
  Move-Inv s s' (sees_room b r e) inv = subst (Inv n limit depth) (sym e) (record {
    limits = inv.limits;
    threads = omega (arith, b);
    active = inv.active;
    queued = inv.queued;
    above = ground (arith, inv.active, inv.limits, inv.threads);
    behind = inv.behind;
  })
  Move-Inv s s' (sees_none b r e) inv = subst (Inv n limit depth) (sym e) (record {
    limits = inv.limits;
    threads = omega (arith, b);
    active = inv.active;
    queued = inv.queued;
    above = inv.above;
    behind = inv.behind;
  })
  Move-Inv s s' (accepts k q e) inv = subst (Inv n limit depth) (sym e) (record {
    limits = inv.limits;
    threads = omega (arith, q, inv.threads);
    active = omega (arith, q, inv.active, inv.above, few);
    queued = inv.queued;
    above = omega (arith, q, inv.above);
    behind = inv.behind;
  })
  Move-Inv s s' (sees_space k q r e) inv = subst (Inv n limit depth) (sym e) (record {
    limits = inv.limits;
    threads = omega (arith, q, inv.threads);
    active = inv.active;
    queued = inv.queued;
    above = inv.above;
    behind = ground (arith, q, inv.queued, inv.limits, inv.threads);
  })
  Move-Inv s s' (sheds k q r e) inv = subst (Inv n limit depth) (sym e) (record {
    limits = inv.limits;
    threads = omega (arith, q, inv.threads);
    active = inv.active;
    queued = inv.queued;
    above = inv.above;
    behind = inv.behind;
  })
  Move-Inv s s' (queues k q e) inv = subst (Inv n limit depth) (sym e) (record {
    limits = inv.limits;
    threads = omega (arith, q, inv.threads);
    active = inv.active;
    queued = omega (arith, q, inv.queued, inv.behind, shallow);
    above = inv.above;
    behind = omega (arith, q, inv.behind);
  })
  Move-Inv s s' (completes k q e) inv = subst (Inv n limit depth) (sym e) (record {
    limits = inv.limits;
    threads = inv.threads;
    active = omega (arith, q, inv.active, inv.above, few);
    queued = inv.queued;
    above = omega (arith, q, inv.above);
    behind = inv.behind;
  })
  Move-Inv s s' (dequeues k q e) inv = subst (Inv n limit depth) (sym e) (record {
    limits = inv.limits;
    threads = inv.threads;
    active = inv.active;
    queued = omega (arith, q, inv.queued, inv.behind, shallow);
    above = inv.above;
    behind = omega (arith, q, inv.behind);
  })

  Reach-Inv : (s : System) → Reach n limit depth s → Inv n limit depth s
  Reach-Inv _ here = record {
    limits = (refl, refl);
    threads = omega arith;
    active = refl;
    queued = refl;
    above = omega arith;
    behind = omega arith;
  }
  Reach-Inv s' (next {s} r m) = Move-Inv s s' m (Reach-Inv s r)

  -- `a` requests run, and `j` threads have seen room and are about to be accepted.
  abbrev pub standing : ℕ → ℕ → System
  standing a j = record (initial limit depth) {
    controller = record {
      global_concurrency_limit = limit;
      max_queue_depth = depth;
      active_requests = a;
      queue_depth = 0;
    };
    admitting = j;
    running = a;
  }

  sees : (a j : ℕ) → j < n → a < limit → Move n (standing a j) (standing a (j + 1))
  sees a j b r = sees_room (omega (arith, b)) (ground (arith, r)) refl

  accepted : (a j : ℕ) → a + 1 < 2 ^ 32 → Move n (standing a (j + 1)) (standing (a + 1) j)
  accepted a j b = let up : inc32 a ≡ a + 1 = omega (arith, b) in accepts j refl (rw up refl)

  stands :
      {a b j k : ℕ}
      → a ≡ b
      → j ≡ k
      → Reach n limit depth (standing a j)
      → Reach n limit depth (standing b k)
  stands {a} {k} p q r =
      subst (λ x. Reach n limit depth (standing x k)) p
        (subst (λ y. Reach n limit depth (standing a y)) q r)

  fill : (a : ℕ) → 0 < n → a ≤ limit → Reach n limit depth (standing a 0)
  fill zero b h = here
  fill (suc a) b h =
      let r = next (fill a b (omega arith)) (sees a 0 b (omega arith)) in
      stands (omega arith) refl (next r (accepted a 0 (omega (arith, few))))

  see : (a j : ℕ) → 0 < n → a < limit → j ≤ n → Reach n limit depth (standing a j)
  see a zero b r h = fill a b (omega arith)
  see a (suc j) b r h =
      stands refl (omega arith) (next (see a j b r (omega arith)) (sees a j (omega arith) r))

  take_all :
      (a j : ℕ)
      → a + j < 2 ^ 32
      → Reach n limit depth (standing a j)
      → Reach n limit depth (standing (a + j) 0)
  take_all a zero b r = stands (omega arith) refl r
  take_all a (suc j) b r =
      let r' = next (stands refl (omega arith) r) (accepted a j (omega (arith, b))) in
      stands (omega arith) refl (take_all (a + 1) j (omega (arith, b)) r')

  -- With at most `n` threads inside `evaluate` at once, a limit of at least 1 and numbers that stay
  -- below 2 ^ 32: the controller counts the requests that run exactly, and never more than n - 1
  -- above its limit; likewise its queue. With one thread the limits hold. The bound is sharp: with
  -- `n` threads some run ends with n - 1 requests above the limit.
  pub overshoots :
      0 < n
      → 0 < limit
      → ((s : System)
          → Reach n limit depth s
          → (s.controller.active_requests ≡ s.running)
            × (s.running ≤ limit + (n - 1))
            × (s.controller.queue_depth ≡ s.waiting)
            × (s.waiting ≤ depth + (n - 1)))
        × ((s : System) × Reach n limit depth s × (s.controller.active_requests ≡ limit + (n - 1)))
  overshoots b r = (
    (λ s h.
        let inv = Reach-Inv s h in
        (inv.active, omega (arith, inv.above), inv.queued, omega (arith, inv.behind))),
    (
      standing (limit - 1 + n) 0,
      take_all (limit - 1) n (omega (arith, few))
          (see (limit - 1) n b (omega (arith, r)) (omega arith)),
      omega (arith, r, b),
    ),
  )
