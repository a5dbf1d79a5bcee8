-- ===== src/Cluster/Join/Processes.antt =====
-- Joining a cluster and the etcd processes: a failed join leaves none behind.
use etcdauto.Prelude.{
  ℕ, ◌+◌, String, ◌≡◌, refl, ◌∙◌, Bool, true, false, Option, none, some, List, ◌∷◌, Map, arith,
  Bool-cases, inl, inr,
}
use etcdauto.Cluster.Host.{
  Host, AddResponse, ListResponse, Client, History, start_process, act, ◌>>=◌, setenv, Result, ok,
  err, list_failed, add_failed, promote_failed, sigterm, done, Process,
}
use etcdauto.Cluster.Members.{Config, start_etcd}
use etcdauto.Cluster.Members.Promote.{promote_learner-Ends}
use etcdauto.Cluster.Measures.{is_passive, Leaves, leaves_rules}
use etcdauto.Cluster.Running.{
  running, running-IsActive, Settled, Settles, Settles-err, running_rules,
}
use etcdauto.Cluster.Passive.{
  dir_exists-Leaves, remove_if_present-Leaves, remove_dead_member-Leaves, promote_learner-Leaves,
  process_members-Leaves,
}
use etcdauto.Cluster.Join.{
  promote_answer, etcd_started, member_added, add_member_and_start, learner_promoted,
  handle_existing_member_with_data, handle_existing_member_without_data, handle_member_join,
  members_listed, join_existing_cluster,
}

-- The next call settles what this one began: a process that runs goes in, and stays or is stopped.
module _ (w : Host) (cfg : Config) where
  start_etcd-Settles : (bin : String) → Settles w (start_etcd w cfg bin)
  unfolding start_etcd running
  start_etcd-Settles bin = record { at = λ h. ground arith }

  told_to_stop :
      (h : History) (n : ℕ)
      → running w h ≡ n + 1
      → Settled w (done (err promote_failed)) (sigterm ∷ h) n
  unfolding running
  told_to_stop h n e = elim (Bool-cases (w.signals h)) [
    | inl heard ↦ inl (rw heard (omega (arith, e)))
    | inr deaf ↦ inr (refl, deaf, rw deaf e)
  ]

  etcd_started_ok :
      (c : Client) (promote : Bool) (id : ℕ) (proc : Process) (h : History) (n : ℕ)
      → running w h ≡ n + 1
      → Settled w
          (etcd_started w cfg c promote id (ok proc) h).0
          (etcd_started w cfg c promote id (ok proc) h).1
          n
  unfolding etcd_started promote_answer running
  etcd_started_ok c true id proc h n e =
      let kept = (promote_learner-Leaves w (running w) (running-IsActive w) cfg c id).at h in
      elim (promote_learner-Ends w cfg c id h) [
        | inl (i, le, r, s, q) ↦ rw q (rw q at kept ∙ e)
        | inr (r, q) ↦ rw q (told_to_stop _ n (rw q at kept ∙ e))
      ]
  etcd_started_ok c false id proc h n e = e

  start_then-Settles :
      (c : Client) (promote : Bool) (id : ℕ) (bin : String)
      → Settles w (start_etcd w cfg bin >>= etcd_started w cfg c promote id)
  unfolding start_etcd
  start_then-Settles c promote id bin = record {
    at = λ h. elim (Bool-cases (w.starts h bin)) [
      | inl up ↦ rw up (
          etcd_started_ok c promote id bin (start_process bin ∷ h) (running w h)
            (unfold running in rw up))
      | inr down ↦ rw down (unfold etcd_started in inl (unfold running in rw down))
    ];
  }

  setenv-Leaves : (k v : String) → Leaves (running w) (act (setenv k v))
  unfolding running
  setenv-Leaves k v = record { at = λ h. refl }

  member_added-Settles :
      (c : Client) (promote : Bool) (bin : String) (resp : Option AddResponse)
      → Settles w (member_added w cfg c promote bin resp)
  unfolding member_added
  member_added-Settles c promote bin none = Settles-err w add_failed
  member_added-Settles c promote bin (some resp) =
      search (running_rules, setenv-Leaves, start_then-Settles)

  add_member_and_start-Settles :
      (c : Client) (my_ips : List String) (voting : ℕ) (bin : String)
      → Settles w (add_member_and_start w cfg c my_ips voting bin)
  unfolding add_member_and_start is_passive
  add_member_and_start-Settles c my_ips voting bin =
      search (running_rules, leaves_rules, member_added-Settles, running-IsActive) depth 7

  learner_promoted-Settles :
      (c : Client) (id : ℕ) (bin : String) (r : Result (Unit {0}))
      → Settles w (learner_promoted w cfg c id bin r)
  unfolding learner_promoted is_passive
  learner_promoted-Settles c id bin (ok u) = start_etcd-Settles bin
  learner_promoted-Settles c id bin (err e) =
      search (running_rules, leaves_rules, remove_dead_member-Leaves, running-IsActive) depth 7

  with_data-Settles :
      (c : Client) (id : ℕ) (learner : Bool) (bin : String)
      → Settles w (handle_existing_member_with_data w cfg c id learner bin)
  unfolding handle_existing_member_with_data
  with_data-Settles c id learner bin = search (
    running_rules, promote_learner-Leaves, running-IsActive, learner_promoted-Settles,
    start_etcd-Settles,
  )

  without_data-Settles :
      (c : Client) (id : ℕ) (my_ips : List String) (voting : ℕ) (bin : String)
      → Settles w (handle_existing_member_without_data w cfg c id my_ips voting bin)
  unfolding handle_existing_member_without_data is_passive
  without_data-Settles c id my_ips voting bin =
      search (running_rules, leaves_rules, running-IsActive, add_member_and_start-Settles) depth 7

  handle_member_join-Settles :
      (c : Client) (id : ℕ) (learner : Bool) (my_ips : List String) (voting : ℕ) (bin : String)
      → Settles w (handle_member_join w cfg c id learner my_ips voting bin)
  unfolding handle_member_join
  handle_member_join-Settles c id learner my_ips voting bin = search (
    running_rules, dir_exists-Leaves, remove_if_present-Leaves, running-IsActive, with_data-Settles,
    without_data-Settles, add_member_and_start-Settles,
  )

  members_listed-Settles :
      (c : Client) (my_ips : List String) (dead : Map (Unit {0})) (bin : String)
      (resp : Option ListResponse)
      → Settles w (members_listed w cfg c my_ips dead bin resp)
  unfolding members_listed
  members_listed-Settles c my_ips dead bin none = Settles-err w list_failed
  members_listed-Settles c my_ips dead bin (some resp) =
      search (running_rules, process_members-Leaves, running-IsActive, handle_member_join-Settles)

  join_existing_cluster-Settles :
      (c : Client) (my_ips : List String) (dead : Map (Unit {0})) (bin : String)
      → Settles w (join_existing_cluster w cfg c my_ips dead bin)
  unfolding join_existing_cluster is_passive
  join_existing_cluster-Settles c my_ips dead bin =
      search (running_rules, leaves_rules, running-IsActive, members_listed-Settles) depth 7

-- A pod that tries to join a cluster has one running etcd process more afterwards when the attempt
-- returns that process, and as many as before when it returns an error or panics: an etcd that was
-- started for a learner whose promotion failed has been told to stop. The one exception is the error
-- of a failed promotion where the signal to stop could not be sent: that etcd runs on. A process
-- counts as running until such a signal has reached it.
pub join_leaves_no_orphan :
    (w : Host) (cfg : Config) (c : Client) (my_ips : List String) (dead : Map (Unit {0}))
    (bin : String) (h : History)
    → let (o, h') = join_existing_cluster w cfg c my_ips dead bin h in Settled w o h' (running w h)
join_leaves_no_orphan w cfg c my_ips dead bin h =
    (join_existing_cluster-Settles w cfg c my_ips dead bin).at h
