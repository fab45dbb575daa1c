-- ===== src/Operator/Setup.antt =====
-- at_controller.go: `SetupWithManager`, over controller-runtime's builder.
use kubernetes_programming.Prelude.{
  Bytes, codes, Bool, true, false, if◌then◌else◌, Option, none, some, List, [], ◌∷◌, ◌++◌, ◌≡◌, ◌∙◌,
  ap, append-nil,
}
use kubernetes_programming.Clientset.Rest.{Result, made}

-- The kinds that the program has to do with.
pub data Kind : Type 0 where
  an_at a_pod : Kind

-- An event of an object: its kind, its namespace and name, and those of its controller.
pub record Event : Type 0 where
  pub kind : Kind
  pub key : Bytes × Bytes
  pub owner : Option (Bytes × Bytes)

-- ctrl.NewControllerManagedBy, the methods of its builder that are called, and Complete, which
-- registers the controller that is built with the manager.
pub record BuilderLib (B M R E : Type 0) : Type 0 where
  pub new_controller_managed_by : M → B
  pub for : Kind → B → B
  pub named : Bytes → B → B
  pub complete : R → B → M → Result E M

module _ {B M R E : Type 0} (lib : BuilderLib B M R E) where
  unfoldable pub setup_with_manager : R → M → Result E M
  setup_with_manager r mgr =
      lib.complete r (lib.named (codes "at") (lib.for an_at (lib.new_controller_managed_by mgr)))
        mgr

-- What a builder has been told to watch: a kind whose objects are reconciled, or a kind whose objects
-- belong to one that is.
pub data Source : Type 0 where
  objects : Kind → Source
  owned_by : Kind → Source

abbrev same_kind : Kind → Kind → Bool
same_kind an_at an_at = true
same_kind a_pod a_pod = true
same_kind _ _ = false

abbrev owner_key : Option (Bytes × Bytes) → List (Bytes × Bytes)
owner_key none = []
owner_key (some k) = k ∷ []

-- The keys of the objects that an event asks to be reconciled, through one source.
abbrev asked_by : Source → Event → List (Bytes × Bytes)
asked_by (objects k) e = if same_kind k e.kind then e.key ∷ [] else []
asked_by (owned_by k) e = if same_kind k e.kind then owner_key e.owner else []

abbrev pub asked_by_all : List Source → Event → List (Bytes × Bytes)
asked_by_all [] e = []
asked_by_all (x ∷ xs) e = asked_by x e ++ asked_by_all xs e

-- The documented behaviour of the builder: For adds the kind that is reconciled to what is watched, a
-- name adds nothing, and a manager with the controller makes its requests after those that it made.
pub record IsBuilder {B M R E : Type 0} (lib : BuilderLib B M R E) (sources : B → List Source)
    (requests : M → Event → List (Bytes × Bytes)) : Type 0 where
  pub fresh : (mgr : M) → sources (lib.new_controller_managed_by mgr) ≡ []
  pub for : (k : Kind) (b : B) → sources (lib.for k b) ≡ objects k ∷ sources b
  pub named : (s : Bytes) (b : B) → sources (lib.named s b) ≡ sources b
  pub complete :
      (r : R) (b : B) (mgr mgr' : M) (e : Event)
      → lib.complete r b mgr ≡ made mgr'
      → requests mgr' e ≡ requests mgr e ++ asked_by_all (sources b) e

-- Once SetupWithManager has succeeded, an event of an At asks for that At to be reconciled, and an
-- event of a pod asks for nothing more than before, whatever controls the pod: the end of an At's pod
-- does not lead to a reconciliation.
pub setup_with_manager-requests :
    {B M R E : Type 0} (lib : BuilderLib B M R E) (sources : B → List Source)
    (requests : M → Event → List (Bytes × Bytes))
    → IsBuilder lib sources requests
    → (r : R) (mgr mgr' : M) (key : Bytes × Bytes) (owner : Option (Bytes × Bytes))
    → setup_with_manager lib r mgr ≡ made mgr'
    → let at : Event = record { kind = an_at; key = key; owner = owner } in
      let pod : Event = record { kind = a_pod; key = key; owner = owner } in
      (requests mgr' at ≡ requests mgr at ++ key ∷ []) × (requests mgr' pod ≡ requests mgr pod)
unfolding setup_with_manager
setup_with_manager-requests lib sources requests builder r mgr mgr' key owner h = (
  watched (record { kind = an_at; key = key; owner = owner }),
  watched (record { kind = a_pod; key = key; owner = owner }) ∙ append-nil _,
)
  where
    watched : (e : Event) → requests mgr' e ≡ requests mgr e ++ asked_by_all (objects an_at ∷ []) e
    watched e =
        builder.complete r _ mgr mgr' e h
        ∙ ap (λ s. requests mgr e ++ asked_by_all s e)
            (builder.named _ _
              ∙ builder.for an_at _
              ∙ ap (λ s. objects an_at ∷ s) (builder.fresh mgr))
