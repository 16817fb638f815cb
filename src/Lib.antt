-- ===== src/Lib.antt =====
-- aks-engine: the upgrade of Kubernetes clusters on Azure, from the choice of a version to the
-- replacement of each machine, with the defaults of a cluster's components and the changes that
-- scaling and upgrades make to its template.
--
-- The parts of the program and the files that model them:
--
--   pkg/api/common/versions.go      Versions: `Versions.Table` holds the table of versions and its
--                                   Windows variant, `Versions.Select` each function that filters,
--                                   sorts and chooses versions
--   pkg/api/orchestrators.go        OrchestratorData: the data, and the profiles of DC/OS and Swarm;
--                                   Orchestrators: the profiles of Kubernetes versions and the
--                                   upgrades that a version can have
--   pkg/api/common/net.go           Networks.Addresses: the first and the broadcast address of a
--                                   network; Networks.SubnetIds: the parts of a subnet's identifier
--   pkg/api/defaults.go             Defaults.Gates: the merging of feature gates
--   pkg/api/defaults-kubelet.go     Defaults.Kubelet
--   pkg/api/defaults-apiserver.go   Defaults.ApiServer
--   pkg/api/defaults-scheduler.go, defaults-controller-manager.go,
--     defaults-cloud-controller-manager.go   Defaults.Components
--   pkg/api/addons.go               Defaults.Addons: the merging of add-ons
--   pkg/api/vlabs/validate.go       Validation: Validation.Names for names, labels and ports,
--                                   Validation.Networks, Validation.Windows, Validation.Pools for the
--                                   checks of one agent pool, Validation.Pools.Sequence for the loop
--                                   over all of them, Validation.Vnets, Validation.Kubernetes for a
--                                   KubernetesConfig and Validation.Orchestrator for its profile
--   pkg/helpers/helpers.go          Validation.Skus
--   pkg/engine/transform/transform.go   Transform: `Transform.Json` has the values in a template,
--                                   Transform.Removal the removal by indexes, Transform.Masters,
--                                   Transform.Scaling and Transform.Upgrade the transformations
--   pkg/engine/transform/apimodel_merger.go   Transform.FlagValues: the values of the flag `--set`
--   pkg/armhelpers/utils/util.go    Names: the parts of the names of machines and scale sets,
--                                   with Patterns for the classes of characters in them
--   pkg/api/types.go                Cluster: the prefix of a pool's machine names, and the
--                                   properties that an upgrade reads
--   pkg/operations/cordondrainvm.go Operations.Drain
--   pkg/operations/deletevm.go      Operations.DeleteVm
--   pkg/operations/kubernetesupgrade
--     upgradeagentnode.go, upgrademasternode.go, upgradeworkflow.go   Upgrade.Nodes
--     upgrader.go                   Upgrade.Indices, Upgrade.Copy, Upgrade.Masters,
--                                   Upgrade.ScaleSets, Upgrade.Agents and Upgrade.Run
--     upgradecluster.go             Upgrade.Discovery, with Upgrade.Discovery.Membership for the pool
--                                   of a machine, and Upgrade.Autoscaler for the whole upgrade
--
-- How they interact. `UpgradeCluster` finds the machines with their versions, sorts them into those
-- that are upgraded and those that are not, checks that the profiles offer the upgrade, and runs the
-- upgrade while the autoscaler is paused. `RunUpgrade` upgrades the masters, then the scale sets,
-- then the pools of single machines. Each loop works through the interface `UpgradeNode` (delete, create, validate),
-- which is a record; its two implementations call `CleanDeleteVirtualMachine` and
-- `SafelyDrainNodeWithClient`. The names of machines carry their indices, from which the loops tell
-- which machine to make again. The versions that an upgrade may lead to come from the profiles.
-- Before machines are made, the template that the engine generates is transformed: upgrades use
-- `NormalizeResourcesForK8sMasterUpgrade` and `NormalizeResourcesForK8sAgentUpgrade`, of which the
-- second goes on with the scaling `NormalizeForK8sVMASScalingUp`. The transformations change maps in
-- place; here they return the changed ones, and a failed type assertion is the error `panic`.
--
-- State. A function that makes calls is an `Action` (Cloud.Actions): from the history of all calls
-- made so far, the newest first, to a result or an error and the longer history. An `Env` (Cloud)
-- answers each call from the history, so that answers can change over time. It stands for the
-- clients of pkg/armhelpers, for the generation and the transformation of templates, and for
-- net/url. Cloud.Counts counts the calls in a history that delete a machine and those that deploy
-- one; Cloud.Effects says what an action adds to the counts, if it succeeds and if it fails, and
-- Cloud.Rolling how far the deletions may run ahead.
-- A deployment or a deletion whose call fails is counted too, and ends the action. The call that
-- waits for pods carries the pods that it waits for.
--
-- The entries that `getClusterNodeStatus` makes for the pages of one scale set share the pointer to
-- the set's capacity: an entry holds the capacity that was listed, and the loop over the entries
-- carries the names of the sets that it has raised.
--
-- Numbers are the native naturals; the minor versions, which are uint64, keep their wrap-around, and
-- `strconv.Atoi` its limit of 2 ^ 63. Maps are association lists. Where Go ranges over a map, the
-- order is that of the list, which the theorems leave arbitrary; only `funcmap` is taken in the order
-- of its literal.
--
-- Bounds. A poll with a timer, and the goroutine that copies properties, run as many rounds as the
-- environment says before the timeout fires (`rounds`); no theorem assumes a number of them. The
-- search for the index of a missing master has fuel for two more rounds than the largest upgraded
-- index, which is proved to be enough. All other loops are recursions on lists or on the number of
-- rounds that the source computes.
--
-- The version library github.com/blang/semver is the record `Versions.Semver.Semver`, and its
-- documented laws are `SemverLaws`: comparison is a total preorder, and sorting sorts. A theorem that
-- needs the laws has them as a hypothesis. Examples.Releases is an instance of both.
--
-- What the defaults read of a cluster is the record `Settings`; the default add-ons and the table of
-- component versions are arguments. The transformation of a template has fmt.Sprint, for a value that
-- is no text, as the argument `sprint`. The checks have
-- what they use of net, net/url, time, base64 and of the folding of cases as arguments.
--
-- Not modelled: logging, names of deployments and sleeping; the concurrent eviction of pods, which is
-- one call with a result; the times at which the pages of a listing are fetched; the command line,
-- the conversion of cluster models, the checks of masters, add-ons, extensions and identities, and the
-- defaults of profiles, networks and certificates; the engine that generates templates; the literals of the default add-ons.
pub mod Common
pub mod Versions
pub mod Defaults
pub mod OrchestratorData
pub mod Orchestrators
pub mod Cloud
pub mod Cluster
pub mod Patterns
pub mod Names
pub mod Networks
pub mod Operations
pub mod Upgrade
pub mod Transform
pub mod Validation
pub mod Examples
