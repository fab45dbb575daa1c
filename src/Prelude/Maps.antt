-- ===== src/Prelude/Maps.antt =====
-- A Go map with string keys, as an association list. `put` is `m[k] = v`.
use mathlib.Core.Path.{◌≡◌, refl}
use mathlib.Core.Bool.{Bool, true, false}
use mathlib.Core.Option.{Option, none, some}
use mathlib.Core.List.{List, [], ◌∷◌}
use native.Mathlib.Omega.{arith}
use kubernetes_programming.Prelude.Tests.{if◌then◌else◌}
use kubernetes_programming.Prelude.Strings.{Bytes, str_eq, str_eq→eq, str_eq_refl}

module _ {V : Type 0} where
  unfoldable pub find : List (Bytes × V) → Bytes → Option V
  find [] k = none
  find ((j, v) ∷ m) k = if str_eq j k then some v else find m k

  unfoldable pub put : List (Bytes × V) → Bytes → V → List (Bytes × V)
  put [] k v = (k, v) ∷ []
  put ((j, w) ∷ m) k v = if str_eq j k then (k, v) ∷ m else (j, w) ∷ put m k v

  pub find-put :
      (m : List (Bytes × V)) (k j : Bytes) (v : V)
      → find (put m k v) j ≡ (if str_eq k j then some v else find m j)
  unfolding find put
  find-put [] k j v = refl
  find-put ((i, w) ∷ m) k j v = ground (
    arith,
    find-put m k j v,
    str_eq→eq i k,
    str_eq→eq i j,
    str_eq→eq k j,
    str_eq_refl i,
    str_eq_refl j,
    str_eq_refl k,
  )

  pub find-put_self : (m : List (Bytes × V)) (k : Bytes) (v : V) → find (put m k v) k ≡ some v
  find-put_self m k v = ground (arith, find-put m k k v, str_eq_refl k)

-- Reading a map of Booleans: a missing key gives false.
unfoldable pub is_set : List (Bytes × Bool) → Bytes → Bool
is_set m k = elim (find m k) [ none ↦ false | some b ↦ b ]

pub is_set-put :
    (m : List (Bytes × Bool)) (k j : Bytes)
    → is_set (put m k true) j ≡ (if str_eq k j then true else is_set m j)
unfolding is_set
is_set-put m k j = ground (arith, find-put m k j true)
