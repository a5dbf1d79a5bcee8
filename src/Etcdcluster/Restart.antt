-- ===== src/Etcdcluster/Restart.antt =====
-- When the main goroutine of cmd/etcdcluster/main.go goes back to the loop while its etcd was
-- running: only for a brain split.
use etcdauto.Prelude.{
  String, ◌≡◌, refl, sym, ap, ◌∙◌, ◌≢◌, ◌⊎◌, inl, inr, false≢true, true, ◌||◌, Option, none, some,
  List, [], ◌∷◌, Any, eqb, arith, Bool-cases,
}
use etcdauto.Cluster.Host.{
  tick, read_dir, Host, DirEntry, Wake, signalled, process_exited, ticked, History, ListResponse,
  new_client, done, M, ask, act,
}
use etcdauto.Cluster.Discovery.{load_tls_config}
use etcdauto.Cluster.BrainSplit.{
  BrainSplitCheckConfig, BrainSplitCheckResult, LocalInfo, Others, verify_with_other_nodes,
  get_local_cluster_info, compare_with, others_listed, check_brain_split,
}
use etcdauto.Cluster.BrainSplit.Verify.{
  Agrees, reply, after, also, replies, verify_with_other_nodes_lem,
}
use etcdauto.Cluster.Only.{
  same_answer, Only, Only-map, Only-pure, Only-known, Only-bind, Only-if, Only-exit, Only-wait,
  only_rules,
}
use etcdauto.Etcdcluster.{
  kill_and_exit, wait_exit, after_check, watch, wait_exit_with_brain_split_check,
}

Any-also :
    (P : ListResponse → Type 0) (o : Option ListResponse) (rs : List ListResponse)
    → Any P (also o rs)
    → ((r : ListResponse) × (o ≡ some r) × P r) ⊎ Any P rs
Any-also P none rs bad = inr bad
Any-also P (some r) rs (inl p) = inl (r, refl, p)
Any-also P (some r) rs (inr rest) = inr rest

module _ (w : Host) where
  reply_given :
      (e : String) (h : History) (r : ListResponse)
      → reply w e h ≡ some r
      → w.list_reply (new_client (e ∷ []) ∷ h) (e ∷ []) ≡ some r
  reply_given e h r q = ground (arith, q)

  -- A reply with the property was given at some moment.
  abbrev Given : (ListResponse → Type 0) → Type 0
  Given P =
      (g : History) × (e : String) × (r : ListResponse) × (w.list_reply g (e ∷ []) ≡ some r) × P r

  Any-replies :
      (P : ListResponse → Type 0) (es : List String) (h : History)
      → Any P (replies w es h)
      → Given P
  Any-replies P [] h bad = absurd bad
  Any-replies P (e ∷ es) h bad = elim (Any-also P (reply w e h) (replies w es (after w e h)) bad) [
    | inl (r, q, p) ↦ (new_client (e ∷ []) ∷ h, e, r, reply_given e h r q, p)
    | inr rest ↦ Any-replies P es (after w e h) rest
  ]

  -- Our etcd is up and knows its cluster and its member; and an endpoint answered with a member
  -- list of another cluster, or without our member.
  abbrev pub ForeignReply : String → String → Type 0
  ForeignReply pod_name port =
      (g : History) × (info : LocalInfo) × ((get_local_cluster_info w pod_name port g).0
        ≡ done info)
      × (info.cluster_id ≢ 0)
      × (info.member_id ≢ 0)
      × Given (λ r. ¬ Agrees info.cluster_id info.member_id r)

  module _ (cfg : BrainSplitCheckConfig) (pod_name port : String) where
    abbrev Detected : BrainSplitCheckResult → Type 0
    Detected res = res.brain_split_detected ≡ true

    verify-Only :
        (info : LocalInfo) (es : List String)
        → Only Detected
            (Given (λ r. ¬ Agrees info.cluster_id info.member_id r))
            (verify_with_other_nodes w info.cluster_id info.member_id es 0)
    verify-Only info es = record {
      at = λ h a e d.
          let (res, h', q, j) = verify_with_other_nodes_lem w info.cluster_id info.member_id es h in
          Any-replies (λ r. ¬ Agrees info.cluster_id info.member_id r) es h
            (j.0.0 (
              ap (λ x. x.brain_split_detected) (same_answer res a (sym (ap (λ x. x.0) q) ∙ e))
              ∙ d));
    }

    compare_with-Only :
        (info : LocalInfo) (others : Others)
        → Only Detected
            (Given (λ r. ¬ Agrees info.cluster_id info.member_id r))
            (compare_with w cfg info others)
    unfolding compare_with
    compare_with-Only info others =
        Only-if _ _ _ _ _ (Only-pure _ _ _ (λ d. absurd (false≢true d)))
          (verify-Only info others.endpoints)

    others_listed-Only :
        (info : LocalInfo) (listing : Option (List DirEntry))
        → Only Detected
            (Given (λ r. ¬ Agrees info.cluster_id info.member_id r))
            (others_listed w cfg info listing)
    unfolding others_listed
    others_listed-Only info none = Only-pure _ _ _ (λ d. absurd (false≢true d))
    others_listed-Only info (some es) = Only-bind _ _ _ _ (compare_with-Only info)

    check_brain_split-Only :
        Only Detected (ForeignReply pod_name port) (check_brain_split w cfg pod_name port)
    unfolding check_brain_split
    check_brain_split-Only =
        Only-known Detected (ForeignReply pod_name port) (get_local_cluster_info w pod_name port) _
          λ info g known. elim (Bool-cases (eqb info.cluster_id 0 || eqb info.member_id 0)) [
            | inl early ↦ rw early (Only-pure _ _ _ (λ d. absurd (false≢true d)))
            | inr up ↦ rw up (
                Only-bind _ _ (ask (read_dir cfg.node_ip_dir) (λ h. w.dir_of h cfg.node_ip_dir)) _
                  λ listing.
                    Only-map _ _ _ _
                      (λ given. (g, info, known, ground (arith, up), ground (arith, up), given))
                      (others_listed-Only info listing))
          ]

    -- A check has reported a split, and its report was right.
    abbrev pub Caught : Type 0
    Caught =
        (g : History) × (res : BrainSplitCheckResult) × ((check_brain_split w cfg pod_name port g).0
          ≡ done res)
        × (res.brain_split_detected ≡ true)
        × ForeignReply pod_name port

    -- The answer of the wait is `tt`.
    abbrev Returns : Unit {0} → Type 0
    Returns u = Unit

    kill_and_exit-Only : Only Returns Caught (kill_and_exit w)
    unfolding kill_and_exit
    kill_and_exit-Only = search only_rules

    wait_exit-Only : (ws : List Wake) → Only Returns Caught (wait_exit w ws)
    unfolding wait_exit
    wait_exit-Only [] = Only-wait _ _
    wait_exit-Only (signalled ∷ ws) = kill_and_exit-Only
    wait_exit-Only (process_exited ∷ ws) = Only-exit _ _
    wait_exit-Only (ticked ∷ ws) = wait_exit-Only ws

    after_check-Only :
        (res : BrainSplitCheckResult) (again : M (Unit {0})) (ws : List Wake) (g : History)
        → (check_brain_split w cfg pod_name port g).0 ≡ done res
        → Only Returns Caught again
        → Only Returns Caught (after_check w cfg pod_name port again ws res)
    unfolding after_check
    after_check-Only res again ws g checked next = elim (Bool-cases res.brain_split_detected) [
      | inl split ↦ record {
        at = λ h a e p. (g, res, checked, split, check_brain_split-Only.at g res checked split);
      }
      | inr whole ↦ rw whole (Only-if _ _ _ _ _ (wait_exit-Only ws) next)
    ]

    watch-Only : (ws : List Wake) → Only Returns Caught (watch w cfg pod_name port ws)
    unfolding watch
    watch-Only [] = Only-wait _ _
    watch-Only (signalled ∷ ws) = kill_and_exit-Only
    watch-Only (process_exited ∷ ws) = Only-exit _ _
    watch-Only (ticked ∷ ws) = Only-bind Returns Caught (act tick) _ λ u.
        Only-known Returns Caught (check_brain_split w cfg pod_name port) _ λ res g checked.
          after_check-Only res (watch w cfg pod_name port ws) ws g checked (watch-Only ws)

-- While pod 0 watches the etcd that it has started as a new cluster, it goes back to its main loop
-- only for a brain split: a check has reported one; at some moment its own etcd gave a cluster ID, and a member ID for this
-- pod's name, neither of them 0, and at some moment an endpoint answered with the member list of
-- another cluster or with one that does not hold that member ID. In every other run it exits, panics
-- or is still waiting.
pub restart_needs_split :
    (w : Host) (cfg : BrainSplitCheckConfig) (pod_name port : String) (h : History)
    → (wait_exit_with_brain_split_check w cfg pod_name port h).0 ≡ done tt
    → Caught w cfg pod_name port
unfolding wait_exit_with_brain_split_check
restart_needs_split w cfg pod_name port h returned =
    (Only-bind (Returns w cfg pod_name port) (Caught w cfg pod_name port)
        (load_tls_config w cfg.cert_file cfg.key_file) _
        λ loaded.
          Only-if _ _ loaded _ _
            (record { at = λ h. (watch-Only w cfg pod_name port (w.wakes h)).at h })
            (record { at = λ h. (wait_exit-Only w cfg pod_name port (w.wakes h)).at h })).at
      h tt returned tt
