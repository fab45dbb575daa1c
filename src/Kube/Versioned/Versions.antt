-- ===== src/Kube/Versioned/Versions.antt =====
-- What the versions of the cluster that checks them do.
use kubernetes_programming.Prelude.{
  Bytes, Bool, true, false, [], ◌∷◌, Option, none, some, ◌≡◌, refl, str_eq→eq, if◌then◌else◌, ap,
  ◌∙◌, sym, List, length, length-append, ◌≤◌, ◌≢◌, arith, Bool-cases, inl, inr, ◌+◌, some_inj,
}
use kubernetes_programming.Api.{At}
use kubernetes_programming.Kube.{ApiError, Result, ok, err, ok_inj}
use kubernetes_programming.Kube.Laws.{same_key, same_key→eq, KeepsCache}
use kubernetes_programming.Kube.Memory.{
  Memory, memory, find_at, update_result-cached, create_result-cached,
}
use kubernetes_programming.Kube.Versioned.{
  Versioned, listed_versions, new_version, matches, written, written-objects, checked, conflict,
  versioned, versioned-IsServer,
}

written-rejected :
    (at : At) (x : Result At × Memory) (w : Versioned) (e : ApiError)
    → (written at x w).0 ≡ err e
    → (written at x w).1.versions ≡ w.versions
written-rejected at (err e', u) w e h = refl
written-rejected at (ok a, u) w e h = cc

pub checked-rejected :
    (at : At) (b : Bool) (w : Versioned) (e : ApiError)
    → (checked b at w).0 ≡ err e
    → (checked b at w).1.versions ≡ w.versions
checked-rejected at false w e h = refl
checked-rejected at true w e h = written-rejected at (memory.update_status at w.objects) w e h

written-others :
    (at : At) (x : Result At × Memory) (w : Versioned) (ns n : Bytes)
    → same_key at.meta.namespace at.meta.name ns n ≡ false
    → (written at x w).1.versions ns n ≡ w.versions ns n
written-others at (err e, u) w ns n d = refl
written-others at (ok a, u) w ns n d = rw d refl

pub checked-others :
    (at : At) (b : Bool) (w : Versioned) (ns n : Bytes)
    → same_key at.meta.namespace at.meta.name ns n ≡ false
    → (checked b at w).1.versions ns n ≡ w.versions ns n
checked-others at false w ns n d = refl
checked-others at true w ns n d = written-others at (memory.update_status at w.objects) w ns n d

matches-eq : (o : Option Bytes) (r : Bytes) → matches o r ≡ true → o ≡ some r
matches-eq none r h = cc
matches-eq (some q) r h = ap some (str_eq→eq q r h)

pub checked-accepted :
    (at a : At) (b : Bool) (w : Versioned) (o : Option Bytes)
    → matches o at.meta.resource_version ≡ b
    → (checked b at w).0 ≡ ok a
    → o ≡ some at.meta.resource_version
checked-accepted at a false w o m h = absurd (conflict a h)
checked-accepted at a true w o m h = matches-eq o _ m

written-version :
    (at a : At) (x : Result At × Memory) (w : Versioned)
    → (written at x w).0 ≡ ok a
    → (ns n : Bytes)
    → (written at x w).1.versions ns n ≡ (
        if same_key at.meta.namespace at.meta.name ns n
        then some (new_version at w.objects)
        else w.versions ns n)
written-version at a (err e, u) w h ns n = cc
written-version at a (ok _, u) w h ns n = refl

checked-version :
    (at a : At) (b : Bool) (w : Versioned)
    → (checked b at w).0 ≡ ok a
    → (ns n : Bytes)
    → (checked b at w).1.versions ns n ≡ (
        if same_key at.meta.namespace at.meta.name ns n
        then some (new_version at w.objects)
        else w.versions ns n)
checked-version at a false w h ns n = absurd (conflict a h)
checked-version at a true w h ns n =
    written-version at a (memory.update_status at w.objects) w h ns n

-- The new version is no shorter one.
new_version-longer :
    (at : At) (u : Memory) (v : Bytes)
    → length v ≤ length at.meta.resource_version + length (listed_versions u.cached)
    → some (new_version at u) ≢ some v
new_version-longer at u v h e = absurd (
    omega (
      arith,
      length-append at.meta.resource_version (listed_versions u.cached),
      ap length (some_inj e),
    ))

find_at-length :
    (l : List At) (ns n : Bytes) (at : At)
    → find_at l ns n ≡ ok at
    → length at.meta.resource_version ≤ length (listed_versions l)
unfolding find_at
find_at-length [] ns n at h = cc
find_at-length (a ∷ l) ns n at h = elim (Bool-cases (same_key a.meta.namespace a.meta.name ns n)) [
  | inl e ↦
      let same : a ≡ at = ok_inj (rw e at h) in
      omega (
        arith,
        length-append a.meta.resource_version (listed_versions l),
        ap (λ (x : At). length x.meta.resource_version) same,
      )
  | inr e ↦ omega (
    arith,
    length-append a.meta.resource_version (listed_versions l),
    find_at-length l ns n at (rw e at h),
  )
]

pub versioned-changed :
    (at a : At) (w : Versioned) (ns n : Bytes)
    → (versioned.update_status at w).0 ≡ ok a
    → (versioned.update_status at w).1.versions ns n ≡ w.versions ns n
    → (versioned.update_status at w).1.objects.phases ns n ≡ w.objects.phases ns n
versioned-changed at a w ns n h same =
    elim (Bool-cases (same_key at.meta.namespace at.meta.name ns n)) [
      | inr d ↦ versioned-IsServer.update_ok at w a h ns n ∙ rw d refl
      | inl e ↦
          let (x, y) = same_key→eq _ _ _ _ e in
          let stored : w.versions ns n ≡ some at.meta.resource_version =
            rw (← x, ← y) (checked-accepted at a _ w _ refl h) in
          let new = checked-version at a _ w h ns n in
          absurd (
            new_version-longer at w.objects at.meta.resource_version (omega arith)
              (sym (rw e at new) ∙ same ∙ stored))
    ]

pub versioned-unlisted :
    (at a : At) (w : Versioned) (ns n : Bytes) (listed : At)
    → (versioned.update_status at w).0 ≡ ok a
    → versioned.lister_get ns n w ≡ ok listed
    → (versioned.update_status at w).1.versions ns n ≡ some listed.meta.resource_version
    → (versioned.update_status at w).1.versions ns n ≡ w.versions ns n
versioned-unlisted at a w ns n listed h l r =
    elim (Bool-cases (same_key at.meta.namespace at.meta.name ns n)) [
      | inr d ↦ checked-others at _ w ns n d
      | inl e ↦
          let new = checked-version at a _ w h ns n in
          absurd (
            new_version-longer at w.objects listed.meta.resource_version
              (omega (arith, find_at-length w.objects.cached ns n listed l))
              (sym (rw e at new) ∙ r))
    ]

checked-cached :
    (at : At) (b : Bool) (w : Versioned) → (checked b at w).1.objects.cached ≡ w.objects.cached
checked-cached at false w = refl
checked-cached at true w =
    ap (λ (u : Memory). u.cached) (written-objects at _ w) ∙ update_result-cached at _ w.objects

pub versioned-KeepsCache : KeepsCache versioned
versioned-KeepsCache = record {
  get = λ a b w c d. refl;
  create = λ p w a b. ap (λ l. find_at l a b) (create_result-cached p _ w.objects);
  update = λ at w a b. ap (λ l. find_at l a b) (checked-cached at _ w);
}
