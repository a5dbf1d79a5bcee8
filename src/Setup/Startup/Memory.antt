-- ===== src/Setup/Startup/Memory.antt =====
-- A file system in memory, to run the set-up on. Writing to some of the files fails.
use etcdauto.Prelude.{
  String, ◌≡◌, ◌≢◌, refl, sym, ap, ◌∙◌, if_true, if_false, Bool, true, false, Option, none, some,
  List, [], is_some, arith, ◌==◌, eq_iff, eq_refl, Bool-cases, inl, inr, if◌then◌else◌,
}
use etcdauto.Certs.Memory.{texts}
use etcdauto.Setup.Files.{Files, Done}

abbrev pub Content : Type 0
Content = List String

pub record Disk : Type 0 where
  pub files : String → Option Content
  pub vars : String → String

unfoldable pub put : {A : Type 0} → String → A → (String → A) → String → A
put p a f q = if q == p then a else f q

pub put_here : {A : Type 0} (p : String) (a : A) (f : String → A) → put p a f p ≡ a
unfolding put
put_here p a f = rw (eq_refl p) refl

pub put_elsewhere :
    {A : Type 0} (p : String) (a : A) (f : String → A) (q : String) → q ≢ p → put p a f q ≡ f q
unfolding put
put_elsewhere p a f q other = ground (arith, other, eq_iff q p)

unfoldable pub store : (String → Bool) → String → Content → Disk → Option Done × Disk
unfolding put
store full p b s =
    if full p then (none, s) else (some tt, record s { files = put p (some b) s.files })

pub store_content :
    (full : String → Bool) (p : String) (b : Content) (s s' : Disk)
    → store full p b s ≡ (some tt, s')
    → s'.files p ≡ some b
unfolding store
store_content full p b s s' h = elim (Bool-cases (full p)) [
  | inl e ↦ ground (arith, sym (if_true (full p) _ _ e) ∙ h)
  | inr e ↦
      let stored = ap (λ r. r.1.files p) (sym (if_false (full p) _ _ e) ∙ h) in
      sym stored ∙ put_here p (some b) s.files
]

pub store_elsewhere :
    (full : String → Bool) (p : String) (b : Content) (s : Disk) (q : String)
    → q ≢ p
    → (store full p b s).1.files q ≡ s.files q
unfolding store
store_elsewhere full p b s q other = elim (Bool-cases (full p)) [
  | inl e ↦ rw e refl
  | inr e ↦ rw e (put_elsewhere p (some b) s.files q other)
]

pub store_exists :
    (full : String → Bool) (p : String) (b : Content) (s : Disk)
    → is_some (s.files p) ≡ true
    → is_some ((store full p b s).1.files p) ≡ true
unfolding store
store_exists full p b s h = elim (Bool-cases (full p)) [
  | inl e ↦ rw e h
  | inr e ↦ rw e (rw (put_here p (some b) s.files) refl)
]

pub store_vars :
    (full : String → Bool) (p : String) (b : Content) (s : Disk) (k : String)
    → (store full p b s).1.vars k ≡ s.vars k
unfolding store
store_vars full p b s k = elim (Bool-cases (full p)) [ inl e ↦ rw e refl | inr e ↦ rw e refl ]

unfoldable pub disk : (String → Bool) → Files texts.Bytes
unfolding put store texts
disk full = record {
  State = Disk;
  content = λ s p. s.files p;
  env = λ s k. s.vars k;
  exists = λ s p. is_some (s.files p);
  read = λ s p. s.files p;
  empty = [];
  create = λ p s. store (λ q. false) p [] s;
  write = store full;
  write_file = store full;
  mkdir_all = λ p s. (some tt, s);
  setenv = λ k v s. (some tt, record s { vars = put k v s.vars });
  exists_content = λ s p b h. rw h refl;
  read_content = λ s p b h. h;
  create_empty = λ p s s' h. store_content (λ q. false) p [] s s' h;
  create_elsewhere =
      λ p s q other. let e = store_elsewhere (λ q. false) p [] s q other in (e, ap is_some e);
  write_content = λ p b s s' h g. store_content full p b s s' g;
  write_exists = λ p b s h. store_exists full p b s h;
  write_elsewhere =
      λ p b s q other. let e = store_elsewhere full p b s q other in (e, ap is_some e);
  write_file_content = store_content full;
  write_file_elsewhere =
      λ p b s q other. let e = store_elsewhere full p b s q other in (e, ap is_some e);
  mkdir_all_content = λ p s q. refl;
  mkdir_all_exists = λ p s q h. h;
  setenv_value = λ k v s s' h. sym (ap (λ r. r.1.vars k) h) ∙ put_here k v s.vars;
  setenv_elsewhere = λ k v s j other. put_elsewhere k v s.vars j other;
  setenv_files = λ k v s q. (refl, refl);
  create_env = λ p s k. refl;
  write_env = store_vars full;
  write_file_env = store_vars full;
  mkdir_all_env = λ p s k. refl;
}
