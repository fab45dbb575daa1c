-- ===== src/Lib.antt =====
-- Verification of the cnat controllers ("cloud native at"): an At resource holds a schedule and a
-- command, and a controller runs the command in a pod when the schedule has come. The repository has
-- the controller twice, once on client-go and once on controller-runtime, with generated informers,
-- two commands that print reports, and helpers of the end-to-end tests.
--
-- How the parts interact. The informers of the shared factory watch Ats and pods and call the event
-- handlers; these put keys on a work queue; the workers take keys off it and give them to the sync
-- handler, which reads the At from the lister's cache, reads and creates pods and writes the phase
-- through the API server. The resulting events bring the key back to the queue.
--
-- What models what:
--   Prelude, Text, Clock   Go's strings, bufio.Scanner, time.Parse and time.Time.Sub as the program
--                          uses them, on lists of bytes and on nanoseconds since the year 0
--   Api                    pkg/apis/cnat/v1alpha1/types.go, and reflect.DeepEqual on an At
--   Kube                   what is used of Kubernetes: the Pod type, API errors, and the calls as an
--                          interface (Cluster, Machinery); Kube/Laws states what they promise, and
--                          Kube/Memory and Kube/Versioned are clusters in memory that keep it
--   Controller             controller.go: syncHandler as sync_handler, newPodForCR, timeUntilSchedule;
--                          Controller/Queue: processNextWorkItem, runWorker; Controller/Handlers:
--                          enqueueAt, enqueuePod; Controller/New: NewController;
--                          Controller/Run: Run; Controller/Completion and Controller/Round: the
--                          syncs of one At up to DONE, and a round of event, queue, worker and
--                          sync; Controller/Life: the abstract machine of an At, and runs of it
--   Operator               cnat-kubebuilder/internal/controller/at_controller.go: Reconcile, and
--                          SetupWithManager in Operator/Setup
--   Informers              pkg/generated/informers/externalversions: factory.go; Informers/Ats:
--                          cnat/v1alpha1/at.go, both interface.go, and generic.go;
--                          Informers/Threads: calls on one factory as interleaved goroutines,
--                          with the mutex and the wait group
--   Listers                pkg/generated/listers/cnat/v1alpha1/at.go, and Lister of the informer
--   Schemes                pkg/apis/cnat/v1alpha1/register.go; Schemes/Kubebuilder: the
--                          registration in cnat-kubebuilder/api/v1alpha1
--   Clientset              pkg/generated/clientset/versioned: clientset.go, and cnat_client.go and
--                          newAts under typed/cnat/v1alpha1, over an interface to client-go;
--                          Clientset/Scheme: scheme/register.go; Clientset/Fake:
--                          fake/clientset_generated.go over an object tracker
--   DeepCopy               pkg/apis/cnat/v1alpha1/zz_generated.deepcopy.go, over a heap of structs
--                          (DeepCopy/Plain: the structs without references;
--                          DeepCopy/Separate: what a copied list shares with the rest);
--                          cnat-kubebuilder/api/v1alpha1 has a file with the same bodies
--   Manager                cnat-kubebuilder/cmd/main.go: TLS options as slices that share an array,
--                          and the steps of init and main with their exits
--   Reports                Reports/Pods: main.go; Reports/Ats: pkg/main.go, whose client is one of
--                          Clientset
--   TestUtils              cnat-kubebuilder/test/utils/utils.go
--
-- State is passed explicitly: an operation takes the state and returns it with its result, in the
-- order of the calls in the source. A case of the phase switch either leaves with a result or falls
-- to the status update with an instance (Flow). The world W of the API server, the queue and the
-- factory's library are type parameters; the present time is an argument.
--
-- Bounds and fuel. A Duration is an integer of nanoseconds, and the difference of two instants
-- saturates at the bounds of int64 as in Go. An int32 wraps (wrap32). The worker loop runs on fuel:
-- one round more than the items that are served before the shutdown is enough
-- (Controller/Queue/Worker). The digits of n are printed with fuel n + 1.
--
-- Operations are single steps, except in Informers/Threads, where each takes and releases the mutex
-- and waits on the wait group. The rest of the program leaves its locking to client-go.
--
-- Not modelled: the vendored libraries (parameters with named laws), the parsing of flags among them;
-- log output; the verbs of the typed client and the fakes of fake_at.go, which are client-go's; the
-- second copies of the API types, of the deep copies (cnat-kubebuilder/api/v1alpha1) and of the
-- clientset's registration (its fake package), which have the same bodies; tests.
pub mod Prelude
pub mod Text
pub mod Clock
pub mod Api
pub mod Kube
pub mod Informers
pub mod Reports
pub mod Schemes
pub mod Listers
pub mod TestUtils
pub mod Controller
pub mod Operator
pub mod Manager
pub mod DeepCopy
pub mod Clientset
