-- ===== src/Tenant/Cache.antt =====
-- src/lib.rs, the route cache of `TenantState`: the map and the queue of its keys agree, and the
-- cache stays within its limit.
use trust_system.Prelude.{
  ◌≤◌, ◌<◌, ◌≡◌, refl, sym, subst, ◌≢◌, ◌⊎◌, inl, inr, Bool, true, not, some, List, [], ◌∷◌, ◌++◌,
  arith, ◌==◌, length, All, All-map, All-In, In, Bool-cases, Option-cases,
}
use trust_system.Prelude.Text.{Text}
use trust_system.Prelude.HashMap
use trust_system.Prelude.HashMap.{contains_key, length-retain-le, length-insert-le, lookup-insert}
use trust_system.Prelude.Distinct.{IsDistinct, In-keep, keep-IsDistinct, All-keep, In-All}
use trust_system.Prelude.Entries.{
  contains-insert, contains-remove, entries-contained, length-insert_present, length-remove_le,
  length-remove_present, All-insert_entry, All-remove_entry, All-retain,
}
use trust_system.Prelude.Float.{Floats}
use trust_system.Tenant.{
  RouteKey, key_dec, route_cache_limit, CachedPath, TenantState, invalidate_all_cache, touches,
  invalidate_for_node, without, get_cached, evict, insert_cache,
}
use trust_system.Tenant.Queue.{moved-IsDistinct, In-moved, moved-In}

module _ ⦃f : Floats⦄ where
  -- The queue holds each key of the map once, and nothing else.
  pub record Inv (t : TenantState) : Type 0 where
    pub ordered : All (λ e. In e.0 t.cache_order) t.cache
    pub known : All (λ k. contains_key key_dec k t.cache ≡ true) t.cache_order
    pub distinct : IsDistinct t.cache_order
    pub bounded : length t.cache ≤ route_cache_limit

  pub invalidate_all_cache-Inv : (t : TenantState) → Inv (invalidate_all_cache t)
  unfolding invalidate_all_cache
  invalidate_all_cache-Inv t = record {
    ordered = tt;
    known = tt;
    distinct = tt;
    bounded = omega arith;
  }

  pub invalidate_for_node-Inv :
      (t : TenantState) (node : Text) → Inv t → Inv (invalidate_for_node t node)
  unfolding invalidate_for_node
  invalidate_for_node-Inv t node i =
      let p : RouteKey → CachedPath → Bool = λ _ cached. not (touches node cached) in
      let cache = HashMap.retain p t.cache in
      let kept : RouteKey → Bool = λ key. contains_key key_dec key cache in
      record {
        ordered = In-All cache (λ e j.
            In-keep kept e.0 t.cache_order (All-In _ e cache (entries-contained key_dec cache) j)
              (All-In _ e cache (All-retain p _ t.cache i.ordered) j).0);
        known = All-keep kept t.cache_order;
        distinct = keep-IsDistinct kept t.cache_order i.distinct;
        bounded = omega (arith, i.bounded, length-retain-le p t.cache);
      }

  pub hit :
      (t t' : TenantState) (k : RouteKey) (c : CachedPath)
      → get_cached t k ≡ some (t', c)
      → (contains_key key_dec k t.cache ≡ true)
        × (t'.cache ≡ t.cache)
        × (t'.cache_order ≡ without k t.cache_order ++ k ∷ [])
        × (t'.health ≡ t.health)
        × (HashMap.lookup key_dec k t.cache ≡ some c)
  unfolding get_cached
  hit t t' k c e = elim (Option-cases (HashMap.lookup key_dec k t.cache)) [
    | inl n ↦ absurd (ground arith)
    | inr (x, n) ↦ (ground arith, ground arith, ground arith, ground arith, ground arith)
  ]

  -- A hit moves its key to the end of the queue.
  pub get_cached-Inv :
      (t t' : TenantState) (k : RouteKey) (c : CachedPath)
      → Inv t
      → get_cached t k ≡ some (t', c)
      → Inv t' × (t'.cache ≡ t.cache)
  get_cached-Inv t t' k c i e =
      let (found, same, queue, _, _) = hit t t' k c e in
      (
        record {
          ordered =
              rw (same, queue)
                (All-map (λ x h. In-moved k x.0 t.cache_order (inl h)) t.cache i.ordered);
          known =
              rw (same, queue)
                (In-All (without k t.cache_order ++ k ∷ []) (λ j h.
                  elim (moved-In k j t.cache_order h) [
                    | inl g ↦ All-In _ j t.cache_order i.known g
                    | inr g ↦ rw g found
                  ]));
          distinct = rw queue (moved-IsDistinct k t.cache_order i.distinct);
          bounded = rw same i.bounded;
        },
        same,
      )

  -- A tenant whose oldest key is dropped.
  abbrev dropped : TenantState → RouteKey → List RouteKey → TenantState
  dropped t x order = record t { cache = HashMap.remove key_dec x t.cache; cache_order = order }

  List-cases :
      (xs : List RouteKey) → (xs ≡ []) ⊎ ((x : RouteKey) × (ys : List RouteKey) × (xs ≡ x ∷ ys))
  List-cases [] = inl refl
  List-cases (x ∷ ys) = inr (x, ys, refl)

  pub evict-cases :
      (t : TenantState) (k : RouteKey)
      → ((evict t k ≡ t)
          × ((contains_key key_dec k t.cache ≡ true)
              ⊎ ((length t.cache ≢ route_cache_limit) ⊎ (t.cache_order ≡ []))))
        ⊎ ((x : RouteKey) × (order : List RouteKey) × (t.cache_order ≡ x ∷ order)
            × (evict t k ≡ dropped t x order))
  unfolding evict
  evict-cases t k = elim (Bool-cases (contains_key key_dec k t.cache)) [
    | inl c ↦ inl (rw c refl, inl c)
    | inr c ↦ elim (Bool-cases (length t.cache == route_cache_limit)) [
      | inr l ↦ inl (rw (c, l) refl, inr (inl (ground arith)))
      | inl l ↦ elim (List-cases t.cache_order) [
        | inl e ↦ inl (simp (c, l, e), inr (inr e))
        | inr (x, order, e) ↦ inr (x, order, e, simp (c, l, e))
      ]
    ]
  ]

  behind : (x k : RouteKey) (order : List RouteKey) → In k (x ∷ order) → k ≢ x → In k order
  behind x k order (inl e) n = absurd (n e)
  behind x k order (inr i) n = i

  dropped-Inv :
      (t : TenantState) (x : RouteKey) (order : List RouteKey)
      → Inv t
      → t.cache_order ≡ x ∷ order
      → Inv (dropped t x order)
  dropped-Inv t x order i q =
      let distinct = subst IsDistinct q i.distinct in
      let known = subst (All (λ k. contains_key key_dec k t.cache ≡ true)) q i.known in
      record {
        ordered =
            All-map (λ e h. behind x e.0 order (subst (In e.0) q h.0) h.1)
              (HashMap.remove key_dec x t.cache)
              (All-remove_entry key_dec (λ k _. In k t.cache_order) x t.cache i.ordered);
        known = In-All order (λ k j.
            contains-remove key_dec x k t.cache (All-In _ k order known.1 j)
              (λ e. distinct.0 (subst (λ y. In y order) e j)));
        distinct = distinct.1;
        bounded = omega (arith, i.bounded, length-remove_le key_dec x t.cache);
      }

  no_entries : (m : HashMap.Map RouteKey CachedPath) → All (λ e. In e.0 []) m → length m ≡ 0
  no_entries [] h = refl
  no_entries (e ∷ m) h = absurd h.0

  no_keys : (t : TenantState) → Inv t → t.cache_order ≡ [] → length t.cache < route_cache_limit
  no_keys t i o =
      omega
        (arith, no_entries t.cache (subst (λ order. All (λ e. In e.0 order) t.cache) o i.ordered))

  evict-Inv : (t : TenantState) (k : RouteKey) → Inv t → Inv (evict t k)
  evict-Inv t k i = elim (evict-cases t k) [
    | inl (e, _) ↦ subst Inv (sym e) i
    | inr (x, order, q, e) ↦ subst Inv (sym e) (dropped-Inv t x order i q)
  ]

  -- There is room for the key.
  evict_room :
      (t : TenantState) (k : RouteKey)
      → Inv t
      → (contains_key key_dec k (evict t k).cache ≡ true)
        ⊎ (length (evict t k).cache < route_cache_limit)
  evict_room t k i = elim (evict-cases t k) [
    | inl (e, inl c) ↦ rw e (inl c)
    | inl (e, inr (inl n)) ↦ rw e (inr (omega (arith, i.bounded, n)))
    | inl (e, inr (inr o)) ↦ rw e (inr (no_keys t i o))
    | inr (x, order, q, e) ↦ rw e (
        inr (
          omega
            (arith, i.bounded, length-remove_present key_dec x t.cache (rw (All, q) at i.known).0)))
  ]

  -- Putting a route into a cache that is in order leaves it in order and within the limit of 1024
  -- routes: the queue holds the key of each cached route once and no other key.
  pub insert_cache-Inv :
      (t : TenantState) (k : RouteKey) (c : CachedPath) → Inv t → Inv (insert_cache t k c)
  unfolding insert_cache
  insert_cache-Inv t k c i0 =
      let t' = evict t k in
      let i = evict-Inv t k i0 in
      record {
        ordered =
            All-insert_entry key_dec (λ j _. In j (without k t'.cache_order ++ k ∷ [])) k t'.cache c
              (All-map (λ x h. In-moved k x.0 t'.cache_order (inl h)) t'.cache i.ordered)
              (In-moved k k t'.cache_order (inr refl));
        known = In-All (without k t'.cache_order ++ k ∷ []) (λ j h.
            contains-insert key_dec k j c t'.cache (elim (moved-In k j t'.cache_order h) [
              | inl g ↦ inl (All-In _ j t'.cache_order i.known g)
              | inr g ↦ inr g
            ]));
        distinct = moved-IsDistinct k t'.cache_order i.distinct;
        bounded = elim (evict_room t k i0) [
          | inl h ↦ omega (arith, i.bounded, length-insert_present key_dec k c t'.cache h)
          | inr h ↦ omega (arith, h, length-insert-le key_dec k c t'.cache)
        ];
      }
