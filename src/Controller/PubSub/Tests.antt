-- ===== src/Controller/PubSub/Tests.antt =====
-- A run of the topics: two subscribers, and a message.
use etcdauto.Prelude.{none, if◌then◌else◌, ◌==◌, ℕ, ◌≤◌, ◌≡◌, some, length}
use etcdauto.Controller.PubSub.{PubSub, new_pub_sub, unsubscribe, subscribe, publish_on}
use etcdauto.Controller.PubSub.Safety.{subscribes, Reachable, initial, next, publish_never_panics}
use etcdauto.Controller.PubSub.Queues.{queues, at_id, or_empty, offer}
use etcdauto.Controller.PubSub.Refinement.{pub_sub_refines}

abbrev pod_only : PubSub ℕ
pod_only = (subscribe ℕ "/ecsnode" "pod" (new_pub_sub ℕ)).1

abbrev both : PubSub ℕ
both = (subscribe ℕ "/ecsnode" "configmap" pod_only).1

both-Reachable : Reachable ℕ both
both-Reachable =
    next pod_only both
      (next (new_pub_sub ℕ) pod_only (initial) (subscribes "/ecsnode" "pod" (new_pub_sub ℕ)))
      (subscribes "/ecsnode" "configmap" pod_only)

publish_never_panics_example :
    (ps' : PubSub ℕ) × (publish_on ℕ "/ecsnode" 7 both ≡ some ps')
    × ((c : ℕ) → (length (both.channels c).messages ≤ 10) × (length (ps'.channels c).messages ≤ 10))
publish_never_panics_example = publish_never_panics ℕ both "/ecsnode" 7 both-Reachable

pub_sub_refines_example :
    (queues ℕ (subscribe ℕ "/pod" "service" both).1 "/ecsnode" "pod" ≡ (
      if at_id ℕ "/pod" "service" "/ecsnode" "pod"
      then or_empty ℕ (queues ℕ both "/ecsnode" "pod")
      else queues ℕ both "/ecsnode" "pod"))
    × (queues ℕ (unsubscribe ℕ "/pod" "service" both) "/ecsnode" "pod" ≡ (
        if at_id ℕ "/pod" "service" "/ecsnode" "pod" then none else queues ℕ both "/ecsnode" "pod"))
    × ((d : ℕ) (ps' : PubSub ℕ)
        → publish_on ℕ "/pod" d both ≡ some ps'
        → queues ℕ ps' "/ecsnode" "pod" ≡ (
            if "/pod" == "/ecsnode"
            then offer ℕ d (queues ℕ both "/ecsnode" "pod")
            else queues ℕ both "/ecsnode" "pod"))
pub_sub_refines_example = pub_sub_refines ℕ both "/pod" "service" "/ecsnode" "pod" both-Reachable
