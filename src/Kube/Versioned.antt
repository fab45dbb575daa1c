-- ===== src/Kube/Versioned.antt =====
-- The cluster in memory with the resourceVersion check of the API server.
pub mod Versions
use kubernetes_programming.Prelude.{
  Bytes, Bool, true, false, [], ◌∷◌, ◌++◌, Option, none, some, ◌≡◌, refl, str_eq, if◌then◌else◌, ap,
  ◌∙◌, sym, List, arith,
}
use kubernetes_programming.Api.{At}
use kubernetes_programming.Kube.{ApiError, failure, Result, ok, err, Cluster}
use kubernetes_programming.Kube.Laws.{View, IsServer, same_key, ListsByKey}
use kubernetes_programming.Kube.Memory.{Memory, memory, memory-IsServer, memory-ListsByKey, put}

pub record Versioned : Type 0 where
  pub objects : Memory
  pub versions : Bytes → Bytes → Option Bytes

abbrev pub matches : Option Bytes → Bytes → Bool
matches none r = false
matches (some q) r = str_eq q r

abbrev pub listed_versions : List At → Bytes
listed_versions [] = []
listed_versions (a ∷ l) = a.meta.resource_version ++ listed_versions l

-- A version that is longer than the one written and than those that are listed.
abbrev pub new_version : At → Memory → Bytes
new_version at u = b'1' ∷ at.meta.resource_version ++ listed_versions u.cached

-- An accepted write has a new version.
abbrev pub written : At → Result At × Memory → Versioned → Result At × Versioned
written at (err e, u) w = (err e, record { objects = u; versions = w.versions })
written at (ok a, u) w = (
  ok a,
  record {
    objects = u;
    versions = put w.versions at.meta.namespace at.meta.name (new_version at w.objects);
  },
)

abbrev pub checked : Bool → At → Versioned → Result At × Versioned
checked false at w = (err (failure 409), w)
checked true at w = written at (memory.update_status at w.objects) w

abbrev pub versioned : Cluster Versioned
versioned = record {
  lister_get = λ ns n w. memory.lister_get ns n w.objects;
  get_pod = λ ns n w. let (r, u) = memory.get_pod ns n w.objects in (r, record w { objects = u });
  create_pod = λ p w. let (r, u) = memory.create_pod p w.objects in (r, record w { objects = u });
  update_status = λ at w.
      checked (matches (w.versions at.meta.namespace at.meta.name) at.meta.resource_version) at w;
}

abbrev pub versioned_view : View Versioned
versioned_view = record { phase_of = λ w. w.objects.phases; pod_of = λ w. w.objects.pods }

pub written-objects :
    (at : At) (x : Result At × Memory) (w : Versioned) → (written at x w).1.objects ≡ x.1
written-objects at (err e, u) w = refl
written-objects at (ok a, u) w = refl

written-result : (at : At) (x : Result At × Memory) (w : Versioned) → (written at x w).0 ≡ x.0
written-result at (err e, u) w = refl
written-result at (ok a, u) w = refl

pub conflict : (a : At) → err (failure 409) ≡ ok a → ⊥
conflict a h = cc

module _ (at : At) where
  checked-pods :
      (b : Bool) (w : Versioned) (ns n : Bytes)
      → (checked b at w).1.objects.pods ns n ≡ w.objects.pods ns n
  checked-pods false w ns n = refl
  checked-pods true w ns n =
      ap (λ (u : Memory). u.pods ns n) (written-objects at (memory.update_status at w.objects) w)
      ∙ memory-IsServer.update_pods at w.objects ns n

  checked-err :
      (b : Bool) (w : Versioned) (e : ApiError)
      → (checked b at w).0 ≡ err e
      → (ns n : Bytes) → (checked b at w).1.objects.phases ns n ≡ w.objects.phases ns n
  checked-err false w e h ns n = refl
  checked-err true w e h ns n =
      ap (λ (u : Memory). u.phases ns n) (written-objects at (memory.update_status at w.objects) w)
      ∙ memory-IsServer.update_err at w.objects e
          (sym (written-result at (memory.update_status at w.objects) w) ∙ h) ns n

  checked-ok :
      (b : Bool) (w : Versioned) (a : At)
      → (checked b at w).0 ≡ ok a
      → (ns n : Bytes)
      → (checked b at w).1.objects.phases ns n ≡ (
          if same_key at.meta.namespace at.meta.name ns n
          then some at.status.phase
          else w.objects.phases ns n)
  checked-ok false w a h ns n = absurd (conflict a h)
  checked-ok true w a h ns n =
      ap (λ (u : Memory). u.phases ns n) (written-objects at (memory.update_status at w.objects) w)
      ∙ memory-IsServer.update_ok at w.objects a
          (sym (written-result at (memory.update_status at w.objects) w) ∙ h) ns n

pub versioned-IsServer : IsServer versioned versioned_view
versioned-IsServer = record {
  get_phases = λ ns n w. memory-IsServer.get_phases ns n w.objects;
  get_pods = λ ns n w. memory-IsServer.get_pods ns n w.objects;
  get_ok = λ ns n w. memory-IsServer.get_ok ns n w.objects;
  get_missing = λ ns n w. memory-IsServer.get_missing ns n w.objects;
  create_phases = λ p w. memory-IsServer.create_phases p w.objects;
  create_err = λ p w. memory-IsServer.create_err p w.objects;
  create_ok = λ p w. memory-IsServer.create_ok p w.objects;
  update_pods = λ at w.
      checked-pods at (matches (w.versions at.meta.namespace at.meta.name) at.meta.resource_version)
        w;
  update_err = λ at w.
      checked-err at (matches (w.versions at.meta.namespace at.meta.name) at.meta.resource_version)
        w;
  update_ok = λ at w.
      checked-ok at (matches (w.versions at.meta.namespace at.meta.name) at.meta.resource_version)
        w;
}

pub versioned-ListsByKey : ListsByKey versioned
versioned-ListsByKey ns n w = memory-ListsByKey ns n w.objects
