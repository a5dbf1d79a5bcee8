-- ===== src/Lib.antt =====
-- etcdauto: an etcd cluster that forms itself in Kubernetes. Each pod runs cmd/etcdcluster, which looks
-- for the other pods' etcd, joins their cluster or begins one, and restarts etcd after a brain split.
--
-- Parts and files:
-- Prelude: slices, strings and maps of Go (Prelude/Lists, Prelude/Text, Prelude/Maps), Boolean tests.
-- Cluster/Host: what the program asks of files, environment, processes and the etcd client (which is
--   third-party code). A run is the list of what has been asked, newest first; a `Host` answers each
--   question by any function of that list. So one `Host` is one behaviour of the rest of the system,
--   and a theorem for every `Host` holds for every behaviour.
-- Cluster/Discovery: pkg/cluster/discovery.go. `discover_endpoints` is DiscoverEndpoints,
--   `check_endpoint_health` checkEndpointHealth, `check_single_endpoint` checkSingleEndpoint,
--   `read_ip_file` readIPFile; also FileExists and DirExists of pkg/util/tool.go. The goroutines run one
--   after the other, and what they record is a list that `tally` reads in any order.
-- Cluster/Members and Cluster/Join: the membership half of pkg/cluster/manager.go, from GetClient to
--   startEtcd, function by function.
-- Cluster/BrainSplit: the brain-split half of pkg/cluster/manager.go.
-- Etcdcluster: runClusterLoop, waitExit and waitExitWithBrainSplitCheck of cmd/etcdcluster/main.go.
--   The goroutine of StartBrainSplitChecker and the main goroutine are one sequence of wake-ups.
-- Controller/Hosts: the host dictionaries of pkg/controller/pod.go and configmap.go. Go's sets are
--   third-party code: Controller/Sets is a record of their operations with the facts that are used.
-- Controller/Pod: Reconcile and the queries of pkg/controller/pod.go; the API server's answers are
--   arguments.
-- Certs: pkg/cert. Certs/Crypto and Certs/Api are records of what it uses of the cryptography and of
--   the API server's secrets; Certs/Authority is ca.go and member.go, Certs/Manager secret.go.
--   Certs/Memory has an instance of both records, on which the tests run.
-- Controller/SecretSync: pkg/controller/secret.go. A reconciliation comes after Start has stored the CA.
-- Controller/Loop: the goroutine of Start in pkg/controller/service.go and configmap.go, a step relation
--   that takes what the two do differently as a record, `Goroutine`; service_goroutine
--   (Controller/Service/Starting) and configmap_goroutine (Controller/ConfigMaps/Starting) are its
--   values. Controller/ConfigMaps/Hearing follows the hosts from a message into the config map, and
--   Controller/EcsNode/Starting composes the goroutine of ecnode.go with its subscribers.
-- Controller/ConfigMaps: pkg/controller/configmap.go, beside the parts in Controller/Hosts.
-- Controller/EcsNode: Reconcile and getIpmap of pkg/controller/ecnode.go.
-- Controller/Node: pkg/controller/node.go. The stateful set is a record of the API server's calls; the
--   loop of syncReplicas has the source's three attempts. Controller/Node/Loop is the goroutine of Start
--   with the nodes, the events and the queue before Reconcile, as a step relation.
-- Controller/PubSub: pkg/util/pubsub.go, over a store of numbered channels, generic in the messages.
-- Controller/Service: pkg/controller/service.go, with the stored service and endpoints as arguments.
-- Ecsnode: ApplyDefault of cmd/ecsnode/config.go; Ecsnode/Controllers and Ecsnode/Main:
--   setupControllers and main of its main.go.
-- Setup: pkg/init: ExtractNetworkInfo of network.go (Setup/Network), cert.go (Setup/Certificate) and
--   env.go (Setup/Environment), over the files and variables of Setup/Files, a record of the calls of
--   package os; and of cmd/etcdcluster/main.go parsePodName (Setup/PodName), loadConfig
--   (Setup/Settings), initializeEnvironment (Setup/Startup) and main (Setup/Startup/Main), which
--   compose them.
-- Cluster/Measures, Running, Passive, Only: counts over the record of a run, and rules for calls that
--   leave them as they were or that return only in some cases.
-- Cluster/Tests, Etcdcluster/Tests, Controller/Tests, Setup/Tests, Setup/Startup/Tests,
--   Certs/Manager/Tests and the Tests beside the other controllers hold concrete runs.
--
-- A function that goes on with an answer in several ways is split where the answer comes in; the part
-- after it is a function by clauses on the answer (`members_listed`, `client_ready`, ...).
--
-- Bounds: `promote_learner` has the source's 100 attempts. The main loop never ends in the source;
-- `run_cluster_loop` is cut off after any number of iterations, and its theorems hold for each number.
-- A wait ends with the known wake-ups, in the outcome `waits`.
--
-- Names: `parse_pod_name` stops at the largest int, as strconv.Atoi does.
--
-- Not modelled: log lines and error texts, timeouts (a call that runs out of time is one that fails), and
-- the cleaning of joined paths; other writers of a secret, or of the files of a pod, between the calls of
-- one run, and links, by which two paths name one file; the generated code and the type declarations of
-- pkg/apis; the flags, the build information and the signals of cmd/ecsnode/main.go; the end of the
-- goroutines of ecnode.go and node.go. The library that calls the controllers is third-party code, as
-- are the API server, the cryptography, the sets and the etcd client, whose calls are parameters.
pub mod Prelude
pub mod Cluster
pub mod Etcdcluster
pub mod Controller
pub mod Setup
pub mod Certs
pub mod Ecsnode
