-- ===== src/Ecsnode/Controllers/Accepting.antt =====
-- What `setupControllers` gives when the manager may refuse a controller and there may be no client.
use etcdauto.Prelude.{
  String, ◌≡◌, refl, sym, subst, ap, ◌∙◌, Bool, true, false, not, ◌||◌, ◌==◌, if◌then◌else◌, arith,
}
use etcdauto.Controller.EcsNode.Starting.{ecs_node_topic}
use etcdauto.Ecsnode.{Config}
use etcdauto.Ecsnode.Controllers.{
  pod_topic, Kind, ecs_node_kind, pod_kind, service_kind, configmap_kind, secret_kind, node_kind,
  Added, SetUp, exits, failed, set_up, then_do, join_topic, complete, add, new_pod,
  new_service_sync, new_configmap_sync, add_service, add_configmap, make_client, add_secret,
  add_node, set_up_for, setup_controllers,
}
use etcdauto.Ecsnode.Controllers.Wanted.{
  all_well, wanted_kinds, set_up_wanted, Joined, joined_topics-Joined,
}

module _ (D : Type 0) where
  set_up_injective : {a b : Added D} → set_up a ≡ set_up b → a ≡ b
  set_up_injective h = cc

  -- What gives a result under some answers gives it where nothing is refused.
  abbrev Within : SetUp D → SetUp D → Type 0
  Within x y = (a : Added D) → x ≡ set_up a → y ≡ set_up a

  then_do-Within :
      (x y : SetUp D) (f g : Added D → SetUp D)
      → Within x y
      → ((a : Added D) → Within (f a) (g a))
      → Within (then_do D x f) (then_do D y g)
  unfolding then_do
  then_do-Within exits y f g first after a h = ground (arith, h)
  then_do-Within failed y f g first after a h = ground (arith, h)
  then_do-Within (set_up b) y f g first after a h = rw (first b refl) (after b a h)

  if-Within :
      (wanted : Bool) (x y z : SetUp D)
      → Within x y
      → Within (if wanted then x else z) (if wanted then y else z)
  if-Within true x y z h = h
  if-Within false x y z h = λ a e. e

  module _ (completes adds : Kind → Bool) (has_client : Bool) where
    complete-Within :
        (k : Kind) (a : Added D)
        → Within (complete D completes adds has_client k a) (complete D all_well all_well true k a)
    unfolding complete
    complete-Within k a b h = ground (arith, h)

    add-Within :
        (k : Kind) (a : Added D)
        → Within (add D completes adds has_client k a) (add D all_well all_well true k a)
    unfolding add
    add-Within k a b h = ground (arith, h)

    join-Within :
        (topic id : String) (k : Kind) (a : Added D)
        → Within
            (then_do D (join_topic D topic id a) (complete D completes adds has_client k))
            (then_do D (join_topic D topic id a) (complete D all_well all_well true k))
    join-Within topic id k a = then_do-Within _ _ _ _ (λ b h. h) (λ b. complete-Within k b)

    completed-Within :
        (k : Kind) (a : Added D)
        → Within
            (then_do D
              (complete D completes adds has_client k a)
              (add D completes adds has_client k))
            (then_do D (complete D all_well all_well true k a) (add D all_well all_well true k))
    completed-Within k a = then_do-Within _ _ _ _ (complete-Within k a) (λ b. add-Within k b)

    service-Within :
        (wanted : Bool) (a : Added D)
        → Within
            (add_service D completes adds has_client wanted a)
            (add_service D all_well all_well true wanted a)
    unfolding add_service new_service_sync
    service-Within wanted a = if-Within wanted _ _ _ (
        then_do-Within _ _ _ _ (join-Within pod_topic "service" service_kind a)
          (λ b. add-Within service_kind b))

    configmap-Within :
        (wanted : Bool) (a : Added D)
        → Within
            (add_configmap D completes adds has_client wanted a)
            (add_configmap D all_well all_well true wanted a)
    unfolding add_configmap new_configmap_sync
    configmap-Within wanted a = if-Within wanted _ _ _ (
        then_do-Within _ _ _ _ (join-Within ecs_node_topic "configmap" configmap_kind a)
          (λ b. add-Within configmap_kind b))

    client-Within :
        (wanted : Bool) (a : Added D)
        → Within
            (make_client D completes adds has_client wanted a)
            (make_client D all_well all_well true wanted a)
    unfolding make_client
    client-Within wanted a b h = ground (arith, h)

    secret-Within :
        (wanted : Bool) (a : Added D)
        → Within
            (add_secret D completes adds has_client wanted a)
            (add_secret D all_well all_well true wanted a)
    unfolding add_secret
    secret-Within wanted a = if-Within wanted _ _ _ (completed-Within secret_kind a)

    node-Within :
        (wanted : Bool) (a : Added D)
        → Within
            (add_node D completes adds has_client wanted a)
            (add_node D all_well all_well true wanted a)
    unfolding add_node
    node-Within wanted a = if-Within wanted _ _ _ (completed-Within node_kind a)

    set_up_for-Within :
        (service configmap secret node : Bool)
        → Within
            (set_up_for D completes adds has_client service configmap secret node)
            (set_up_for D all_well all_well true service configmap secret node)
    unfolding set_up_for new_pod
    set_up_for-Within service configmap secret node =
        then_do-Within _ _ _ _ (complete-Within ecs_node_kind _) (λ a.
          then_do-Within _ _ _ _ (join-Within ecs_node_topic "pod" pod_kind a) (λ a.
            then_do-Within _ _ _ _ (add-Within ecs_node_kind a) (λ a.
              then_do-Within _ _ _ _ (add-Within pod_kind a) (λ a.
                then_do-Within _ _ _ _ (service-Within service a) (λ a.
                  then_do-Within _ _ _ _ (configmap-Within configmap a) (λ a.
                    then_do-Within _ _ _ _ (client-Within (secret || node) a) (λ a.
                      then_do-Within _ _ _ _ (secret-Within secret a) (node-Within node))))))))

  -- A set-up that ends has added exactly the wanted controllers, whatever might have been refused.
  pub setup_controllers_only :
      (completes adds : Kind → Bool) (has_client : Bool) (cfg : Config) (a : Added D)
      → setup_controllers D completes adds has_client cfg ≡ set_up a
      → let service = not (cfg.service_config.name == "") in
        let configmap = not (cfg.configmap.name == "") in
        let node = not (cfg.node.statefulset_name == "") in
        (a.kinds ≡ wanted_kinds service configmap cfg.cert.enabled node)
        × Joined D service configmap a.topics
  unfolding setup_controllers
  setup_controllers_only completes adds has_client cfg a h =
      let service = not (cfg.service_config.name == "") in
      let configmap = not (cfg.configmap.name == "") in
      let node = not (cfg.node.statefulset_name == "") in
      let wide =
        set_up_for-Within completes adds has_client service configmap cfg.cert.enabled node a h in
      let same =
        set_up_injective (sym (set_up_wanted D service configmap cfg.cert.enabled node) ∙ wide) in
      (
        sym (ap (λ x. x.kinds) same),
        subst (λ x. Joined D service configmap x.topics) same
            (joined_topics-Joined D service configmap),
      )
