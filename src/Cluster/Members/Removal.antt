-- ===== src/Cluster/Members/Removal.antt =====
-- What `processMembers` of pkg/cluster/manager.go does to a member list.
use etcdauto.Prelude.{
  ℕ, ◌+◌, String, ◌⧺◌, ◌≡◌, ap, ◌∙◌, inl, inr, Bool, true, false, not, ◌&&◌, List, [], ◌∷◌, Map,
  lookup, any, Any, filter, length, some, eqb, arith, contains, contains-append, eq_iff,
  if◌then◌else◌, Bool-cases,
}
use etcdauto.Cluster.Host.{Host, Member, Client, Event, History, member_remove, done}
use etcdauto.Cluster.Members.{
  Config, Scan, see_self, is_self, should_remove, remove_dead_member, process_members,
}

module _ (cfg : Config) (dead my_urls : Map (Unit {0})) where
  -- Another pod's member with a dead IP in a peer URL
  abbrev pub is_doomed : Member → Bool
  is_doomed m = not (is_self cfg my_urls m) && should_remove dead m

  -- Another pod's member that stays and votes
  abbrev pub is_voter : Member → Bool
  is_voter m = not (is_self cfg my_urls m) && not (should_remove dead m) && not m.is_learner

-- The last ID other than 0, and the last learner flag
abbrev pub last_id : List Member → ℕ → ℕ
last_id [] id = id
last_id (m ∷ ms) id = last_id ms (if eqb m.id 0 then id else m.id)

abbrev pub last_learner : List Member → Bool → Bool
last_learner [] b = b
last_learner (m ∷ ms) b = last_learner ms m.is_learner

-- The run after a removal request for each of the members
abbrev pub ask_removals : Client → List Member → History → History
ask_removals c [] h = h
ask_removals c (m ∷ ms) h = ask_removals c ms (member_remove c m.id ∷ h)

-- The scan returns. It asks for the removal of exactly the other pods' members that have a dead IP
-- in a peer URL, in the order of the list, and for nothing else; it counts the voting members
-- among the other pods' members that stay; and it takes this pod's ID and learner flag from the
-- entries recognised as this pod's, and from no other.
pub process_members_lem :
    (w : Host) (cfg : Config) (c : Client) (dead my_urls : Map (Unit {0})) (ms : List Member)
    (s : Scan) (h : History)
    → process_members w cfg c dead my_urls ms s h ≡ (
      done (record {
        my_id = last_id (filter (is_self cfg my_urls) ms) s.my_id;
        my_learner = last_learner (filter (is_self cfg my_urls) ms) s.my_learner;
        voting = s.voting + length (filter (is_voter cfg dead my_urls) ms);
      }),
      ask_removals c (filter (is_doomed cfg dead my_urls) ms) h,
    )
unfolding process_members see_self remove_dead_member
process_members_lem w cfg c dead my_urls [] s h = ground arith
process_members_lem w cfg c dead my_urls (m ∷ ms) s h = elim (Bool-cases (is_self cfg my_urls m)) [
  | inl me ↦ rw me (process_members_lem w cfg c dead my_urls ms (see_self m s) h)
  | inr other ↦ rw other (elim (Bool-cases (should_remove dead m)) [
    | inl gone ↦ rw gone (process_members_lem w cfg c dead my_urls ms s (member_remove c m.id ∷ h))
    | inr stays ↦ rw stays (elim (Bool-cases m.is_learner) [
      | inl learns ↦ rw learns (process_members_lem w cfg c dead my_urls ms s h)
      | inr votes ↦ rw votes (
          process_members_lem w cfg c dead my_urls ms (record s { voting = s.voting + 1 }) h
          ∙ ground arith)
    ])
  ])
]

any-Any :
    (p : String → Bool) (xs : List String) (x : String)
    → Any (λ y. y ≡ x) xs
    → p x ≡ true
    → any p xs ≡ true
any-Any p [] x a h = absurd a
any-Any p (y ∷ ys) x (inl e) h = rw e (rw h)
any-Any p (y ∷ ys) x (inr a) h = ground (arith, any-Any p ys x a h)

any-lookup :
    (p : String × Unit {0} → Bool) (k : String) (m : Map (Unit {0}))
    → lookup k m ≡ some tt
    → p (k, tt) ≡ true
    → any p m ≡ true
unfolding lookup
any-lookup p k [] e h = cc
any-lookup p k ((j, v) ∷ m) e h = ground (arith, eq_iff j k, any-lookup p k m)

lookalike_is_doomed :
    (cfg : Config) (dead my_urls : Map (Unit {0})) (m : Member) (front ip rest : String)
    → is_self cfg my_urls m ≡ false
    → lookup ip dead ≡ some tt
    → Any (λ url. url ≡ front ⧺ (ip ⧺ rest)) m.peer_urls
    → is_doomed cfg dead my_urls m ≡ true
unfolding should_remove
lookalike_is_doomed cfg dead my_urls m front ip rest other known listed = rw other (
    any-Any (λ url. any (λ d. contains url d.0) dead) m.peer_urls _ listed
      (any-lookup (λ d. contains (front ⧺ (ip ⧺ rest)) d.0) ip dead known
        (contains-append front ip rest)))

ask_removals_keeps :
    (c : Client) (ms : List Member) (e : Event) (h : History)
    → Any (λ x. x ≡ e) h
    → Any (λ x. x ≡ e) (ask_removals c ms h)
ask_removals_keeps c [] e h there = there
ask_removals_keeps c (m ∷ ms) e h there =
    ask_removals_keeps c ms e (member_remove c m.id ∷ h) (inr there)

doomed_asked :
    (c : Client) (p : Member → Bool) (ms : List Member) (m : Member) (h : History)
    → p m ≡ true
    → Any (λ x. x ≡ m) ms
    → Any (λ e. e ≡ member_remove c m.id) (ask_removals c (filter p ms) h)
doomed_asked c p [] m h doomed there = absurd there
doomed_asked c p (x ∷ xs) m h doomed (inl e) =
    let here : p x ≡ true = ap p e ∙ doomed in
    rw here (
      ask_removals_keeps c (filter p xs) (member_remove c m.id) (member_remove c x.id ∷ h)
        (inl (ap (λ y. member_remove c y.id) e)))
doomed_asked c p (x ∷ xs) m h doomed (inr there) = elim (Bool-cases (p x)) [
  | inl this ↦ rw this (doomed_asked c p xs m (member_remove c x.id ∷ h) doomed there)
  | inr other ↦ rw other (doomed_asked c p xs m h doomed there)
]

-- Dead IPs are searched for as substrings: when the scan meets a member that is not recognised as this
-- pod's, and the text of a dead IP stands anywhere in one of its peer URLs, the removal of that member
-- has been asked for afterwards; so also when the IP in the URL is a longer one (10.0.0.1 in
-- https://10.0.0.12:2480).
pub lookalike_is_removed :
    (w : Host) (cfg : Config) (c : Client) (dead my_urls : Map (Unit {0})) (ms : List Member)
    (s : Scan) (h : History) (m : Member) (front ip rest : String)
    → Any (λ x. x ≡ m) ms
    → is_self cfg my_urls m ≡ false
    → lookup ip dead ≡ some tt
    → Any (λ url. url ≡ front ⧺ (ip ⧺ rest)) m.peer_urls
    → Any (λ e. e ≡ member_remove c m.id) (process_members w cfg c dead my_urls ms s h).1
lookalike_is_removed w cfg c dead my_urls ms s h m front ip rest there other known listed =
    rw (process_members_lem w cfg c dead my_urls ms s h) (
      doomed_asked c (is_doomed cfg dead my_urls) ms m h
        (lookalike_is_doomed cfg dead my_urls m front ip rest other known listed) there)
