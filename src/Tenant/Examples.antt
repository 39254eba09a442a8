-- ===== src/Tenant/Examples.antt =====
-- The route cache on small inputs, over decimal numbers.
use trust_system.Prelude.{refl, [], ◌∷◌, arith}
use trust_system.Prelude.Text.{bytes}
use trust_system.Prelude.HashMap
use trust_system.Prelude.Float.Fixed.{decimals, fin}
use trust_system.Tenant.{RouteKey, CachedPath, TenantState, default_tenant, insert_cache}
use trust_system.Tenant.Cache.{Inv, insert_cache-Inv}
use trust_system.Tenant.Safety.{Safe, insert_cache-Safe}

abbrev key : RouteKey
key = record { start = bytes "a"; goal = bytes "b" }

abbrev cached : CachedPath
cached = record {
  path = bytes "a" ∷ bytes "b" ∷ [];
  weight = fin 1;
  touched_nodes = bytes "a" ∷ bytes "b" ∷ [];
}

empty-Inv : Inv default_tenant
empty-Inv = record { ordered = tt; known = tt; distinct = tt; bounded = omega arith }

insert_cache-Inv_example : Inv (insert_cache default_tenant key cached)
insert_cache-Inv_example = insert_cache-Inv default_tenant key cached empty-Inv

abbrev filled : TenantState
filled = insert_cache default_tenant key cached

filled-Safe : Safe filled
unfolding HashMap.lookup
filled-Safe = (insert_cache-Safe default_tenant key cached (refl, (refl, tt)) tt).0
