-- ===== src/Ecsnode/Main.antt =====
-- `main` of cmd/ecsnode/main.go, up to the manager, with LoadFromYaml. What the file holds, how yaml
-- reads it, and whether there are a cluster and a manager are arguments.
use etcdauto.Prelude.{
  String, ◌≡◌, ◌≢◌, Bool, not, ◌&&◌, Option, none, some, ◌==◌, if◌then◌else◌, arith, refl, sym, ap,
  subst, ◌∙◌, Bool-cases, inl, inr, if_true, if_false, eq_iff,
}
use etcdauto.Ecsnode.{Config, apply_default}
use etcdauto.Ecsnode.Controllers.{Kind, Added, SetUp, exits, failed, set_up, setup_controllers}
use etcdauto.Ecsnode.Controllers.Accepting.{setup_controllers_only}
use etcdauto.Ecsnode.Controllers.Wanted.{wanted_kinds, Joined}
use etcdauto.Ecsnode.Defaults.{IsValid, apply_default-IsValid}

-- `unmarshal` is what yaml.Unmarshal leaves in `cfg`: `none` is an error, and a document that is
-- "null" sets the pointer to nil, which is `some none`.
module _ (Bytes : Type 0) (read_file : String → Option Bytes)
    (unmarshal : Bytes → Option (Option Config)) where
  unfoldable pub unmarshalled : Option Bytes → Option (Option Config)
  unmarshalled none = none
  unmarshalled (some bytes) = unmarshal bytes

  unfoldable pub load_from_yaml : String → Option (Option Config)
  unfolding unmarshalled
  load_from_yaml path = unmarshalled (read_file path)

module _ (D : Type 0) (completes adds : Kind → Bool)
    (has_client has_cluster has_manager : Bool) where
  -- klog.Fatal, or the configuration and the controllers with which the manager is started
  pub data Launched : Type 0 where
    fatal : Launched
    launched : Config → Added D → Launched

  unfoldable pub controllers_set_up : Config → SetUp D → Launched
  controllers_set_up cfg exits = fatal
  controllers_set_up cfg failed = fatal
  controllers_set_up cfg (set_up a) = launched cfg a

  unfoldable pub defaults_applied : Option Config → Launched
  unfolding controllers_set_up setup_controllers
  defaults_applied none = fatal
  defaults_applied (some cfg) =
      if has_cluster && has_manager
      then controllers_set_up cfg (setup_controllers D completes adds has_client cfg)
      else fatal

  -- `defaultns` is the variable NAMESPACE.
  unfoldable pub config_read : String → Option (Option Config) → Launched
  unfolding defaults_applied apply_default
  config_read defaultns none = fatal
  config_read defaultns (some cfg) =
      if defaultns == "" then fatal else defaults_applied (apply_default cfg defaultns)

  unfoldable pub main :
      (Bytes : Type 0)
      → (String → Option Bytes)
      → (Bytes → Option (Option Config))
      → (String → String)
      → String
      → Launched
  unfolding config_read load_from_yaml
  main Bytes read_file unmarshal env config =
      config_read (env "NAMESPACE") (load_from_yaml Bytes read_file unmarshal config)

  -- The controllers that the configuration asks for, with channels of their own
  abbrev pub AreWanted : Config → Added D → Type 0
  AreWanted cfg a =
      let service = not (cfg.service_config.name == "") in
      let configmap = not (cfg.configmap.name == "") in
      let node = not (cfg.node.statefulset_name == "") in
      (a.kinds ≡ wanted_kinds service configmap cfg.cert.enabled node)
      × Joined D service configmap a.topics

  set_up_inverts :
      (cfg d : Config) (a : Added D) (r : SetUp D)
      → controllers_set_up cfg r ≡ launched d a
      → (r ≡ set_up a) × (cfg ≡ d)
  unfolding controllers_set_up
  set_up_inverts cfg d a exits h = ground (arith, h)
  set_up_inverts cfg d a failed h = ground (arith, h)
  set_up_inverts cfg d a (set_up b) h = (cc, cc)

  defaults_inverts :
      (given : Option Config) (d : Config) (a : Added D)
      → defaults_applied given ≡ launched d a
      → (given ≡ some d) × AreWanted d a
  unfolding defaults_applied
  defaults_inverts none d a h = ground (arith, h)
  defaults_inverts (some cfg) d a h = elim (Bool-cases (has_cluster && has_manager)) [
    | inl e ↦
        let (done, same) =
          set_up_inverts cfg d a (setup_controllers D completes adds has_client cfg)
            (sym (if_true (has_cluster && has_manager) _ _ e) ∙ h) in
        (
          ap (λ x. some x) same,
          subst (λ x. AreWanted x a) same
              (setup_controllers_only D completes adds has_client cfg a done),
        )
    | inr e ↦ let bad = sym (if_false (has_cluster && has_manager) _ _ e) ∙ h in ground (arith, bad)
  ]

  read_inverts :
      (defaultns : String) (answer : Option (Option Config)) (d : Config) (a : Added D)
      → config_read defaultns answer ≡ launched d a
      → (given : Option Config) × (answer ≡ some given)
        × (defaultns ≢ "")
        × (apply_default given defaultns ≡ some d)
        × AreWanted d a
  unfolding config_read
  read_inverts defaultns none d a h = ground (arith, h)
  read_inverts defaultns (some given) d a h = elim (Bool-cases (defaultns == "")) [
    | inl e ↦ let bad = sym (if_true (defaultns == "") _ _ e) ∙ h in ground (arith, bad)
    | inr e ↦
        let (accepted, wanted) =
          defaults_inverts (apply_default given defaultns) d a
            (sym (if_false (defaultns == "") _ _ e) ∙ h) in
        (given, refl, (λ q. ground (arith, e, q, eq_iff defaultns "")), accepted, wanted)
  ]

  -- A manager that is started has a configuration that the file gave and that is valid, for the
  -- namespace of the environment, which is not empty; it has exactly the controllers that this
  -- configuration asks for, in order, and each of them that subscribes has a channel of its own on its
  -- topic, whichever controllers the manager would refuse and whether or not there is a client.
  pub main-AreWanted :
      (Bytes : Type 0) (read_file : String → Option Bytes)
      (unmarshal : Bytes → Option (Option Config)) (env : String → String) (config : String)
      (cfg : Config) (a : Added D)
      → main Bytes read_file unmarshal env config ≡ launched cfg a
      → ((given : Option Config) × (load_from_yaml Bytes read_file unmarshal config ≡ some given)
          × (apply_default given (env "NAMESPACE") ≡ some cfg))
        × (env "NAMESPACE" ≢ "")
        × IsValid (env "NAMESPACE") cfg
        × AreWanted cfg a
  unfolding main
  main-AreWanted Bytes read_file unmarshal env config cfg a h =
      let answer = load_from_yaml Bytes read_file unmarshal config in
      let (given, found, named, accepted, wanted) = read_inverts (env "NAMESPACE") answer cfg a h in
      (
        (given, found, accepted),
        named,
        apply_default-IsValid given cfg (env "NAMESPACE") accepted,
        wanted,
      )
