-- ===== src/Prelude/Text.antt =====
-- Texts are the bytes of a Rust `String`. The identifier check stands, in the same words, in
-- admission.rs, backend_registry.rs, capacity.rs, decision_trace.rs, execution.rs,
-- intelligence.rs, kv.rs, planner.rs, sidecar_config.rs and system_planning.rs.
use Prim.Native.Char.{code}
use Prim.Native.String.{String}
use Prim.Native.Nat.{ℕ, ◌≤◌}
use mathlib.Core.Path.{◌≡◌, refl}
use mathlib.Core.Bool.{Bool, true, false, not, ◌&&◌, ◌||◌}
use mathlib.Core.List.{List, [], ◌∷◌}
use native.Mathlib.Omega.{arith}
use native.Mathlib.Decide.{ℕ_discrete}
use trust_system.Prelude.Tests.{leb, ◌==◌}
use trust_system.Prelude.Lists.{length, all}

abbrev pub Text : Type 0
Text = List ℕ

unfoldable pub text_dec : Discrete Text
unfolding ℕ_discrete
text_dec = hlevel ℕ_discrete

-- The bytes of an ASCII literal.
abbrev pub bytes : String → Text
bytes String.[] = []
bytes (String.◌∷◌ c s) = code c ∷ bytes s

abbrev pub is_empty : Text → Bool
is_empty [] = true
is_empty (c ∷ s) = false

unfoldable pub is_ascii_alphanumeric : ℕ → Bool
is_ascii_alphanumeric b =
    leb b'0' b && leb b b'9' || leb b'A' b && leb b b'Z' || leb b'a' b && leb b b'z'

unfoldable pub identifier_byte : ℕ → Bool
unfolding is_ascii_alphanumeric
identifier_byte b = is_ascii_alphanumeric b || b == b'_' || b == b'-' || b == b'.'

unfoldable pub valid_identifier : Text → Bool
unfolding identifier_byte
valid_identifier value = not (is_empty value) && leb (length value) 128 && all identifier_byte value

pub valid_identifier-length : (s : Text) → valid_identifier s ≡ true → length s ≤ 128
unfolding valid_identifier
valid_identifier-length s h = ground arith

accepts_names : valid_identifier (bytes "tool-1.search_v2") ≡ true
unfolding valid_identifier
accepts_names = refl

rejects_newline : valid_identifier (10 ∷ bytes "x") ≡ false
unfolding valid_identifier
rejects_newline = refl
