-- ===== src/Graph/Potential.antt =====
-- Sums over the nodes that are not settled yet, which bound the turns of the search.
use trust_system.Prelude.{
  ℕ, zero, suc, ◌+◌, ◌≤◌, ◌<◌, ◌≡◌, refl, Bool, true, false, some, List, [], ◌∷◌, arith, ◌==◌,
  if◌then◌else◌, get_elem?, replicate,
}

abbrev pub Flags : Type 0
Flags = ℕ → Bool

abbrev pub mark : ℕ → Flags → Flags
mark u fl v = if v == u then true else fl v

-- The weights of the indices without a flag.
abbrev pub unset_sum : Flags → List ℕ → ℕ
unset_sum fl [] = 0
unset_sum fl (w ∷ ws) = (if fl 0 then 0 else w) + unset_sum (λ i. fl (suc i)) ws

pub unset_sum-ext :
    (fl gl : Flags) (ws : List ℕ) → ((i : ℕ) → fl i ≡ gl i) → unset_sum fl ws ≡ unset_sum gl ws
unset_sum-ext fl gl [] h = refl
unset_sum-ext fl gl (w ∷ ws) h =
    ground (arith, h 0, unset_sum-ext (λ i. fl (suc i)) (λ i. gl (suc i)) ws (λ i. h (suc i)))

pub unset_sum-mark :
    (fl : Flags) (ws : List ℕ) (u w : ℕ)
    → get_elem? ws u ≡ some w
    → fl u ≡ false
    → unset_sum (mark u fl) ws + w ≡ unset_sum fl ws
unset_sum-mark fl [] u w e h = absurd (cc)
unset_sum-mark fl (x ∷ ws) zero w e h =
    ground (arith, unset_sum-ext (λ i. mark 0 fl (suc i)) (λ i. fl (suc i)) ws (λ i. ground arith))
unset_sum-mark fl (x ∷ ws) (suc u) w e h = ground (
  arith,
  unset_sum-ext (λ i. mark (suc u) fl (suc i)) (mark u (λ i. fl (suc i))) ws (λ i. ground arith),
  unset_sum-mark (λ i. fl (suc i)) ws u w,
)

pub unset_count-le : (fl : Flags) (n : ℕ) → unset_sum fl (replicate n 1) ≤ n
unset_count-le fl zero = omega arith
unset_count-le fl (suc n) = ground (arith, unset_count-le (λ i. fl (suc i)) n)

pub get_elem?-replicate : (n u : ℕ) → u < n → get_elem? {A = ℕ} (replicate n 1) u ≡ some 1
get_elem?-replicate zero u h = absurd (omega arith)
get_elem?-replicate (suc n) zero h = refl
get_elem?-replicate (suc n) (suc u) h = get_elem?-replicate n u (omega arith)
