-- ===== src/Cluster/Join.antt =====
-- pkg/cluster/manager.go, second half of the membership code: how a pod joins an existing cluster.
pub mod Processes
use etcdauto.Prelude.{
  ℕ, String, ◌⧺◌, Bool, true, false, not, Option, none, some, List, [], ◌∷◌, Map, join, ltb, eqb,
  if◌then◌else◌,
}
use etcdauto.Cluster.Host.{
  Host, Member, ListResponse, AddResponse, Client, Process, setenv, remove_all, member_list,
  member_remove, member_add, member_add_as_learner, sigterm, M, pure, ask, act, ◌>>=◌, ◌>>◌, Result,
  ok, err, list_failed, remove_failed, add_failed, no_voting_members, start_failed, promote_failed,
  promote_cleaned_up,
}
use etcdauto.Cluster.Discovery.{dir_exists}
use etcdauto.Cluster.Members.{
  Config, Scan, start_scan, member_dir, my_peers, build_peer_url_set, build_cluster_config,
  start_etcd, remove_if_present, remove_dead_member, process_members, promote_learner,
}

-- The member that `removeDeadMember` is given where only the ID is known
abbrev pub only_id : ℕ → Member
only_id id = record { id = id; name = ""; peer_urls = []; is_learner = false }

module _ (w : Host) (cfg : Config) where
  -- After etcd was started for a learner: the answer of its promotion. When that failed, etcd is
  -- told to stop; an error of that is only logged.
  unfoldable pub promote_answer : Process → Result (Unit {0}) → M (Result Process)
  promote_answer proc (ok _) = pure (ok proc)
  promote_answer proc (err _) = do told ← ask sigterm (λ h. w.signals h); pure (err promote_failed)

  -- `addMemberAndStart` from the answer of `startEtcd` on
  unfoldable pub etcd_started : Client → Bool → ℕ → Result Process → M (Result Process)
  etcd_started c should_promote id (err _) = pure (err start_failed)
  etcd_started c should_promote id (ok proc) =
      if should_promote
      then (do promoted ← promote_learner w cfg c id; promote_answer proc promoted)
      else pure (ok proc)

  -- `addMemberAndStart` from the answer of the add request on
  unfoldable pub member_added : Client → Bool → String → Option AddResponse → M (Result Process)
  member_added c should_promote bin none = pure (err add_failed)
  member_added c should_promote bin (some resp) = do
    act (setenv "ETCD_INITIAL_CLUSTER_STATE" "existing")
    act (setenv "ETCD_INITIAL_CLUSTER" (join "," (build_cluster_config cfg resp.members)))
    started ← start_etcd w cfg bin
    etcd_started c should_promote resp.member.id started

  unfoldable pub add_member_and_start : Client → List String → ℕ → String → M (Result Process)
  add_member_and_start c my_ips voting bin =
      let peers = my_peers cfg.peer_port my_ips in
      if eqb voting 1
      then (do
        resp ← ask (member_add_as_learner c peers) (λ h. w.add_learner_reply h c peers)
        member_added c true bin resp)
      else if ltb 1 voting
      then (do
        resp ← ask (member_add c peers) (λ h. w.add_reply h c peers)
        member_added c false bin resp)
      else pure (err no_voting_members)

  -- `handleExistingMemberWithData` from the answer of the promotion on
  unfoldable pub learner_promoted : Client → ℕ → String → Result (Unit {0}) → M (Result Process)
  learner_promoted c id bin (ok _) = start_etcd w cfg bin
  learner_promoted c id bin (err _) = do
    remove_dead_member w cfg c (only_id id)
    act (remove_all (member_dir cfg))
    pure (err promote_cleaned_up)

  unfoldable pub handle_existing_member_with_data : Client → ℕ → Bool → String → M (Result Process)
  handle_existing_member_with_data c id learner bin =
      if learner
      then (do promoted ← promote_learner w cfg c id; learner_promoted c id bin promoted)
      else start_etcd w cfg bin

  unfoldable pub handle_existing_member_without_data :
      Client → ℕ → List String → ℕ → String → M (Result Process)
  handle_existing_member_without_data c id my_ips voting bin = do
    removed ← ask (member_remove c id) (λ h. w.remove_succeeds h c id)
    if not removed then pure (err remove_failed) else add_member_and_start c my_ips voting bin

  unfoldable pub handle_member_join :
      Client → ℕ → Bool → List String → ℕ → String → M (Result Process)
  handle_member_join c id learner my_ips voting bin =
      if not (eqb id 0)
      then (do
        present ← dir_exists w (member_dir cfg)
        if present
            then handle_existing_member_with_data c id learner bin
            else handle_existing_member_without_data c id my_ips voting bin)
      else (do remove_if_present w cfg (member_dir cfg); add_member_and_start c my_ips voting bin)

  -- `JoinExistingCluster` from the answer of the list request on
  unfoldable pub members_listed :
      Client → List String → Map (Unit {0}) → String → Option ListResponse → M (Result Process)
  members_listed c my_ips dead bin none = pure (err list_failed)
  members_listed c my_ips dead bin (some resp) = do
    s ←
        process_members w cfg c dead (build_peer_url_set my_ips cfg.peer_port) resp.members
          start_scan
    handle_member_join c s.my_id s.my_learner my_ips s.voting bin

  unfoldable pub join_existing_cluster :
      Client → List String → Map (Unit {0}) → String → M (Result Process)
  join_existing_cluster c my_ips dead bin = do
    resp ← ask (member_list c) (λ h. w.list_reply h c)
    members_listed c my_ips dead bin resp
