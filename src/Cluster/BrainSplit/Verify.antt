-- ===== src/Cluster/BrainSplit/Verify.antt =====
-- What `verifyWithOtherNodes` and `checkBrainSplit` of pkg/cluster/manager.go conclude from the
-- replies of the other nodes.
use etcdauto.Prelude.{
  ℕ, ◌+◌, String, ◌≡◌, refl, ap, ◌∙◌, ◌≢◌, ◌<◌, ◌↔◌, ◌⊎◌, inl, inr, true, false, not, ◌&&◌, Option,
  none, some, List, [], ◌∷◌, Any, All, eqb, arith, if◌then◌else◌, Bool-cases, Option-cases,
}
use etcdauto.Cluster.Host.{
  Host, Member, ListResponse, History, new_client, member_list, Outcome, done, M,
}
use etcdauto.Cluster.BrainSplit.{
  Reason, verified, no_healthy_nodes, cluster_mismatch, member_missing, BrainSplitCheckResult,
  detected, undetected, member_id_found, compare_reply, verify_with_other_nodes,
}

-- What the code takes for an answer of our own cluster: it has our cluster's ID, or 0, and lists our
-- member.
abbrev pub Agrees : ℕ → ℕ → ListResponse → Type 0
Agrees cluster id r =
    ((r.cluster_id ≡ 0) ⊎ (r.cluster_id ≡ cluster)) × Any (λ m. m.id ≡ id) r.members

member_id_found_iff :
    (ms : List Member) (id : ℕ) → (member_id_found ms id ≡ true) ↔ Any (λ m. m.id ≡ id) ms
unfolding member_id_found
member_id_found_iff [] id = ground arith
member_id_found_iff (m ∷ ms) id = ground (arith, member_id_found_iff ms id)

mismatch_iff :
    (cluster id : ℕ) (r : ListResponse)
    → ((not (eqb r.cluster_id 0) && not (eqb cluster r.cluster_id)) ≡ false)
      ↔ ((r.cluster_id ≡ 0) ⊎ (r.cluster_id ≡ cluster))
mismatch_iff cluster id r = ground arith

-- The verdict on a list of replies, when `count` nodes agreed before them
abbrev pub Judged : ℕ → ℕ → List ListResponse → ℕ → BrainSplitCheckResult → Type 0
Judged cluster id rs count res =
    ((res.brain_split_detected ≡ true) ↔ Any (λ r. ¬ Agrees cluster id r) rs)
    × ((res.reason ≡ verified) ↔ (All (Agrees cluster id) rs × ((0 < count) ⊎ (rs ≢ []))))

Judged-end :
    (cluster id count : ℕ)
    → Judged cluster id [] count (undetected (if eqb count 0 then no_healthy_nodes else verified))
Judged-end cluster id count = ground arith

Judged-agree :
    (cluster id : ℕ) (r : ListResponse) (rs : List ListResponse) (count : ℕ)
    (res : BrainSplitCheckResult)
    → Agrees cluster id r
    → Judged cluster id rs (count + 1) res
    → Judged cluster id (r ∷ rs) count res
Judged-agree cluster id r rs count res a ((d, d'), (v, v')) = (
  (λ q. inr (d q), λ bad. elim bad [ inl bad_r ↦ absurd (bad_r a) | inr rest ↦ d' rest ]),
  (λ q. ((a, (v q).0), inr (λ e. ground (arith, e))), λ good. v' (good.0.1, inl (omega arith))),
)

Judged-split :
    (cluster id : ℕ) (r : ListResponse) (rs : List ListResponse) (count : ℕ) (why : Reason)
    → (¬ Agrees cluster id r)
    → why ≢ verified
    → Judged cluster id (r ∷ rs) count (detected why)
Judged-split cluster id r rs count why foreign other =
    ((λ q. inl foreign, λ bad. refl), (λ q. absurd (other q), λ good. absurd (foreign good.0.0)))

abbrev pub also : Option ListResponse → List ListResponse → List ListResponse
also none rs = rs
also (some r) rs = r ∷ rs

module _ (w : Host) where
  -- What the endpoint answers after a run: a member list, or nothing
  abbrev pub reply : String → History → Option ListResponse
  reply e h =
      if w.connects h (e ∷ []) then w.list_reply (new_client (e ∷ []) ∷ h) (e ∷ []) else none

  abbrev pub after : String → History → History
  after e h =
      if w.connects h (e ∷ [])
      then member_list (e ∷ []) ∷ new_client (e ∷ []) ∷ h
      else new_client (e ∷ []) ∷ h

  -- The replies, each after those before it
  abbrev pub replies : List String → History → List ListResponse
  replies [] h = []
  replies (e ∷ es) h = also (reply e h) (replies es (after e h))

  replies-off :
      (e : String) (es : List String) (h : History)
      → w.connects h (e ∷ []) ≡ false
      → replies (e ∷ es) h ≡ replies es (new_client (e ∷ []) ∷ h)
  replies-off e es h off =
      let says : reply e h ≡ none = rw off refl in
      let goes : after e h ≡ new_client (e ∷ []) ∷ h = rw off refl in
      ap (λ o. also o (replies es (after e h))) says ∙ ap (replies es) goes

  replies-on :
      (e : String) (es : List String) (h : History) (o : Option ListResponse)
      → w.connects h (e ∷ []) ≡ true
      → w.list_reply (new_client (e ∷ []) ∷ h) (e ∷ []) ≡ o
      → replies (e ∷ es) h ≡ also o (replies es (member_list (e ∷ []) ∷ new_client (e ∷ []) ∷ h))
  replies-on e es h o on q =
      let says : reply e h ≡ o = rw on q in
      let goes : after e h ≡ member_list (e ∷ []) ∷ new_client (e ∷ []) ∷ h = rw on refl in
      ap (λ o. also o (replies es (after e h))) says ∙ ap (λ g. also o (replies es g)) goes

  -- A run of the loop, with its verdict
  abbrev Verdict : ℕ → ℕ → List ListResponse → ℕ → Outcome BrainSplitCheckResult × History → Type 0
  Verdict cluster id rs count run =
      (res : BrainSplitCheckResult) × (h' : History) × (run ≡ (done res, h'))
      × Judged cluster id rs count res

  compare_reply-Verdict :
      (cluster id : ℕ) (e : String) (next counted : M BrainSplitCheckResult) (r : ListResponse)
      (rs : List ListResponse) (count : ℕ) (h : History)
      → Verdict cluster id rs (count + 1) (counted h)
      → Verdict cluster id (r ∷ rs) count (compare_reply w cluster id e next counted (some r) h)
  unfolding compare_reply
  compare_reply-Verdict cluster id e next counted r rs count h (res, h', q, j) =
      elim (Bool-cases (not (eqb r.cluster_id 0) && not (eqb cluster r.cluster_id))) [
        | inl split ↦ rw split (
          detected (cluster_mismatch cluster r.cluster_id e),
          h,
          refl,
          Judged-split cluster id r rs count _ (λ a. ground (arith, a)) (λ e. ground (arith, e)),
        )
        | inr same ↦ elim (Bool-cases (member_id_found r.members id)) [
          | inr gone ↦ rw same (
              rw gone (
                detected (member_missing e id),
                h,
                refl,
                Judged-split cluster id r rs count _
                    (λ a. ground (arith, member_id_found_iff r.members id, a))
                    (λ e. ground (arith, e)),
              ))
          | inl there ↦ rw same (
              rw there (
                res,
                h',
                q,
                Judged-agree cluster id r rs count res
                    ((mismatch_iff cluster id r).0 same, (member_id_found_iff r.members id).0 there)
                    j,
              ))
        ]
      ]

  verify_Verdict :
      (cluster id : ℕ) (es : List String) (count : ℕ) (h : History)
      → Verdict cluster id (replies es h) count (verify_with_other_nodes w cluster id es count h)
  unfolding verify_with_other_nodes
  verify_Verdict cluster id [] count h = (_, h, refl, Judged-end cluster id count)
  verify_Verdict cluster id (e ∷ es) count h = elim (Bool-cases (w.connects h (e ∷ []))) [
    | inr off ↦
        rw (replies-off e es h off)
          (rw off (verify_Verdict cluster id es count (new_client (e ∷ []) ∷ h)))
    | inl on ↦ elim (Option-cases (w.list_reply (new_client (e ∷ []) ∷ h) (e ∷ []))) [
      | inl silent ↦ rw (replies-on e es h none on silent) (
          rw on (
            rw silent (
              unfold compare_reply in
              verify_Verdict cluster id es count (member_list (e ∷ []) ∷ new_client (e ∷ []) ∷ h))))
      | inr (r, says) ↦ rw (replies-on e es h (some r) on says) (
          rw on (
            rw says (
              compare_reply-Verdict cluster id e (verify_with_other_nodes w cluster id es count)
                (verify_with_other_nodes w cluster id es (count + 1)) r _ count _
                (verify_Verdict cluster id es (count + 1)
                  (member_list (e ∷ []) ∷ new_client (e ∷ []) ∷ h)))))
    ]
  ]

-- The comparison with the other nodes returns. It reports a split exactly when one of them
-- answers with a cluster ID that is neither 0 nor this pod's, or with a member list that lacks
-- this pod's member, whatever its cluster ID; and it reports "verified" exactly when some node
-- answers and every answer has this pod's cluster ID or 0 and lists this pod's member. Nodes that
-- do not answer decide nothing.
pub verify_with_other_nodes_lem :
    (w : Host) (cluster id : ℕ) (es : List String) (h : History)
    → (res : BrainSplitCheckResult) × (h' : History) × (verify_with_other_nodes w cluster id es 0 h
        ≡ (done res, h'))
      × Judged cluster id (replies w es h) 0 res
verify_with_other_nodes_lem w cluster id es h = verify_Verdict w cluster id es 0 h
