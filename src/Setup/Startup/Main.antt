-- ===== src/Setup/Startup/Main.antt =====
-- `main` of cmd/etcdcluster/main.go up to the main loop, which composes loadConfig and
-- initializeEnvironment. Which files are missing for os.Stat, and where the etcd binary is, are answers
-- of the state; what net answers is an argument.
use etcdauto.Prelude.{
  ◌⊎◌, ℕ, String, ◌≡◌, ap, subst, Bool, true, Option, none, some, List, Map, all, is_some, arith,
}
use etcdauto.Certs.Crypto.{Crypto, Moment}
use etcdauto.Setup.Network.{Addr}
use etcdauto.Setup.Settings.{Settings, Loaded, loaded, rejected, panicked, load_config}
use etcdauto.Setup.Settings.Loading.{IsUsable, load_config-IsUsable}
use etcdauto.Setup.Files.{Files, Done}
use etcdauto.Setup.Certificate.{create_cert_template}
use etcdauto.Setup.Certificate.Generated.{Generated}
use etcdauto.Setup.Environment.Variables.{IsOrder}
use etcdauto.Setup.Startup.{cert_config, initialize_environment}
use etcdauto.Setup.Startup.Pairs.{different, written_paths, PairKept}
use etcdauto.Setup.Startup.Ready.{Ready, initialize_environment-Ready}

module _ (C : Crypto) (F : Files C.Bytes) (in_order : Map String → Map String) (itoa : ℕ → String)
    (addresses : String → Option (List Addr)) (absent : F.State → String → Bool)
    (look_path : F.State → Option String) where
  -- klog.Fatal, a panic, or the configuration and the etcd binary with which the main loop begins
  pub data Started : Type 0 where
    aborted crashed : Started
    running : Settings → String → F.State → Started

  unfoldable pub environment_initialized : Settings → String → Option Done × F.State → Started
  environment_initialized cfg etcd (none, s) = aborted
  environment_initialized cfg etcd (some d, s) = running cfg etcd s

  unfoldable pub binary_located : Moment → Settings → F.State → Option String → Started
  unfolding environment_initialized initialize_environment
  binary_located t cfg s none = aborted
  binary_located t cfg s (some etcd) =
      environment_initialized cfg etcd (initialize_environment C F in_order itoa addresses t cfg s)

  unfoldable pub config_loaded : Moment → F.State → Loaded → Started
  unfolding binary_located
  config_loaded t s panicked = crashed
  config_loaded t s (rejected e) = aborted
  config_loaded t s (loaded cfg) = binary_located t cfg s (look_path s)

  unfoldable pub main : Moment → F.State → Started
  unfolding config_loaded load_config
  main t s = config_loaded t s (load_config (F.env s) (absent s) addresses)

  injected :
      {a b : Settings} {x y : String} {s r : F.State}
      → running a x s ≡ running b y r
      → (a ≡ b) × (s ≡ r)
  injected e = (cc, cc)

  initialized-running :
      (cfg cfg' : Settings) (etcd etcd' : String) (r : Option Done × F.State) (s' : F.State)
      → environment_initialized cfg etcd r ≡ running cfg' etcd' s'
      → (cfg ≡ cfg') × (r ≡ (some tt, s'))
  unfolding environment_initialized
  initialized-running cfg cfg' etcd etcd' (none, s) s' h = ground (arith, h)
  initialized-running cfg cfg' etcd etcd' (some d, s) s' h =
      let (same, at) = injected h in (same, ap (λ x. (some tt, x)) at)

  located-running :
      (t : Moment) (cfg cfg' : Settings) (etcd : String) (found : Option String) (s s' : F.State)
      → binary_located t cfg s found ≡ running cfg' etcd s'
      → (cfg ≡ cfg') × (initialize_environment C F in_order itoa addresses t cfg s ≡ (some tt, s'))
  unfolding binary_located
  located-running t cfg cfg' etcd none s s' h = ground (arith, h)
  located-running t cfg cfg' etcd (some x) s s' h =
      initialized-running cfg cfg' x etcd
        (initialize_environment C F in_order itoa addresses t cfg s) s' h

  loaded-running :
      (t : Moment) (cfg : Settings) (etcd : String) (answer : Loaded) (s s' : F.State)
      → config_loaded t s answer ≡ running cfg etcd s'
      → (answer ≡ loaded cfg)
        × (initialize_environment C F in_order itoa addresses t cfg s ≡ (some tt, s'))
  unfolding config_loaded
  loaded-running t cfg etcd panicked s s' h = ground (arith, h)
  loaded-running t cfg etcd (rejected e) s s' h = ground (arith, h)
  loaded-running t cfg etcd (loaded c) s s' h =
      let (same, done) = located-running t c cfg etcd (look_path s) s s' h in
      (
        ap loaded same,
        subst (λ x. initialize_environment C F in_order itoa addresses t x s ≡ (some tt, s')) same
            done,
      )

  -- The main loop begins only with a usable configuration and with the environment set up for it,
  -- where the files that are written are different ones and no address fails to parse, in
  -- whatever order Go goes through the map of the variables: etcd has its name, its data
  -- directory, its URLs and the paths of its certificate, its key and the CA; the file for
  -- etcdctl and the two probes are written; and the paths of the certificate and the key exist.
  -- Either both existed once the directories were made, and what they hold is as it was, whatever
  -- that is; or they hold a certificate for the template of the configuration and its key, which
  -- load together, the certificate verifies against the authority of the CA file if that one may
  -- sign, and the path of the CA exists.
  pub main-Ready :
      (t : Moment) (cfg : Settings) (etcd : String) (s s' : F.State)
      → IsOrder in_order
      → different (written_paths cfg (F.env s)) ≡ true
      → all is_some (create_cert_template C (cert_config cfg)).ip_addresses ≡ true
      → main t s ≡ running cfg etcd s'
      → IsUsable (F.env s) (absent s) addresses cfg
        × Ready C F addresses cfg (F.env s) s'
        × (PairKept C F cfg s s' ⊎ Generated C F t (cert_config cfg) s s')
  unfolding main
  main-Ready t cfg etcd s s' order apart ips h =
      let (read, done) =
        loaded-running t cfg etcd (load_config (F.env s) (absent s) addresses) s s' h in
      let (ready, pair) =
        initialize_environment-Ready C F in_order itoa addresses t cfg s s' order apart ips done in
      (load_config-IsUsable (F.env s) (absent s) addresses cfg read, ready, pair)
