-- ===== src/Lib.antt =====
-- A model of the apheleia operator, a Kubernetes controller that has the dependencies of a
-- component rebuilt from source and deployed, and the theorems that its parts are correct.
--
-- The program. A ComponentBuild (pkg/apis/apheleia/v1alpha1) names a list of artifacts. The
-- reconciler (pkg/reconciler/componentbuild) makes an ArtifactBuild for each, which another operator
-- builds; it starts a deploy TaskRun for an artifact that is built, marks the artifact's
-- DependencyBuild when the TaskRun has succeeded, keeps the status of the ComponentBuild, and
-- reports the outcome by a notify PipelineRun on the component's pull request.
--
-- Which file models which part:
--   Api, Api/Meta            pkg/apis/apheleia/v1alpha1/componentbuild_types.go and the object metadata
--   Api/DeepCopy             pkg/apis/apheleia/v1alpha1/zz_generated.deepcopy.go
--   Reconciler               the constants of pkg/reconciler/componentbuild/componentbuild.go
--   Reconciler/Dispatch      Reconcile (reconcile)
--   Reconciler/Component     handleComponentBuildReceived (handle_component_build_received)
--   Reconciler/Notify        notifyResult (notify_result)
--   Reconciler/Artifact      artifactState, getDependencyBuild, deployArtifact
--   Reconciler/Runs          handleArtifactBuildReceived, handleTaskRunReceived,
--                            handlePipelineRunReceived
--   Reconciler/Watches       the map functions of pkg/reconciler/componentbuild/controller.go
--   Manager                  pkg/controller/controller.go (new_manager), and the set-up of the
--                            reconciler (controller.go, newReconciler) and of the types (register.go)
--   Command                  cmd/controller/main.go (main, run_manager)
--   Client/Factory           pkg/client/informers/externalversions/factory.go
--   Client/Typed             pkg/client/clientset/versioned/typed/apheleia/v1alpha1/componentbuild.go
--   Client/Group             pkg/client/clientset/versioned/typed/apheleia/v1alpha1/apheleia_client.go
--   Client/Clientset         pkg/client/clientset/versioned/clientset.go
--   Client/Informers         pkg/client/informers/externalversions/generic.go, apheleia/interface.go,
--                            apheleia/v1alpha1/interface.go and componentbuild.go
--   Client/Fake              pkg/client/clientset/versioned/typed/apheleia/v1alpha1/fake/fake_componentbuild.go
--   Client/FakeClientset     pkg/client/clientset/versioned/fake/clientset_generated.go and
--                            typed/apheleia/v1alpha1/fake/fake_apheleia_client.go
--   Client/Schemes           pkg/client/clientset/versioned/scheme/register.go and fake/register.go,
--                            pkg/apis/apis.go and addtoscheme_apheleia_v1alpha1.go
--   Client/Lister            pkg/client/listers/apheleia/v1alpha1/componentbuild.go
--   Platform, Platform/Laws  what belongs to other projects: the cluster, the client, the functions
--                            of libraries, and the documented behaviour that theorems rest on
--   Exec and its children    how the methods run, and the rules to reason about them
--   Base and its children    shared names, lists, dictionaries, texts
--   Tests and its children   a cluster and a library in memory, the scenario of the Go test, the
--                            theorems at data
-- The children of a module for code hold the theorems about it. Reconciler/Plain, Reconciler/Total,
-- Reconciler/Marks, Reconciler/Isolation, Reconciler/Written, Reconciler/Consistency and
-- Reconciler/Lifecycle are about all methods of the reconciler, and Reconciler/Loops about what a
-- run that it has started leads to.
--
-- How state and operations correspond. A method is an action on a `World`: the cluster, which is
-- opaque and which every call may change, and the list of the requests that the operator has sent
-- so far. A Go result (value, error) is a `Reply`; an action that panics has no result. A method
-- that writes through a pointer returns the new value. The parts of a long method have names of
-- their own, and are composed as the code composes them. Maps are association lists; Go's random
-- order in a loop over a map is a call of the platform, `range`. After a failed Get the object that
-- was passed has its zero value. The manager and the command are sequences of steps over an opaque
-- state, with the libraries that they call in the record `Library`; the informer factory is a
-- record, and a method that holds its lock is one step on it. The deep copies work on a store of
-- cells, with an address for each slice and each map.
--
-- Bounds and fuel. All recursion is on lists or counts, and nothing takes fuel. `Outstanding`, an
-- int, counts artifacts of one spec from 0, and is a natural number here. The life of a status is a
-- step relation.
--
-- Not modelled: log lines, contexts and their timeout; the Java components; vendored libraries,
-- whose calls are parameters. The operator itself uses none of the generated client.
pub mod Base
pub mod Api
pub mod Platform
pub mod Exec
pub mod Reconciler
pub mod Manager
pub mod Command
pub mod Client
pub mod Tests
