-- ===== src/Controller/SecretSync/Storing.antt =====
-- The steps of `loadOrCreateCA`, each with the CA secrets that are stored after it.
use etcdauto.Prelude.{
  String, ◌≡◌, ◌≢◌, refl, sym, ap, subst, ◌∙◌, inl, inr, Option, none, some, Map, lookup, Unique,
  [], arith,
}
use etcdauto.Certs.Crypto.{Crypto, Moment}
use etcdauto.Certs.Authority.{Certificate, generate_ca}
use etcdauto.Certs.Authority.Loading.{
  some_injective, IsEncoded, generate_ca-IsEncoded, IsEncoded-load_ca,
}
use etcdauto.Certs.Api.{Done, Secret, Api}
use etcdauto.Certs.Manager.{ca_keys, ca_secret, load_entries, load_ca_from_secret, ensure_ca_secret}
use etcdauto.Certs.Manager.Keeping.{ensure_secret-Ensured, ensure_secret_elsewhere}
use etcdauto.Certs.Manager.Copying.{copy_ca_secret_data-Holds, copy_ca_secret_data_elsewhere}
use etcdauto.Certs.Manager.Reading.{
  Held, Loadable, Readable, load_entries-IsEncoded, load_keeps, load-Held, load_fails-absent,
}
use etcdauto.Controller.SecretSync.{
  CertConfig, ca_config, ca_content, sync_ca_to_namespace, keep, ensure_generated, create_ca,
  or_create, then_sync,
}

module _ (C : Crypto) (A : Api C) (t : Moment) (cfg : CertConfig) where
  abbrev pub HeldIn : String → Certificate C → A.State → Type 0
  HeldIn ns ca s = Held C A ns cfg.ca_secret_name ca s

  -- The secret lists no key twice.
  abbrev pub UniqueIn : String → A.State → Type 0
  UniqueIn ns s = (x : Secret C) → A.stored s ns cfg.ca_secret_name ≡ some x → Unique x.entries

  -- The CA secret of the namespace is the same in both states.
  abbrev pub Still : String → A.State → A.State → Type 0
  Still ns s r = (A.stored r ns cfg.ca_secret_name ≡ A.stored s ns cfg.ca_secret_name)

  Still-Held :
      (ns : String) (s r : A.State) (ca : Certificate C)
      → Still ns s r
      → HeldIn ns ca s
      → HeldIn ns ca r
  Still-Held ns s r ca e (x, there, loads) = (x, e ∙ there, loads)

  pub Still-UniqueIn : (ns : String) (s r : A.State) → Still ns s r → UniqueIn ns s → UniqueIn ns r
  Still-UniqueIn ns s r e u x there = u x (sym e ∙ there)

  pub Held-IsEncoded :
      (ns : String) (ca : Certificate C) (s : A.State) → HeldIn ns ca s → IsEncoded C ca
  Held-IsEncoded ns ca s (x, there, loads) =
      load_entries-IsEncoded C A ns cfg.ca_secret_name x.entries ca loads

  pub kept :
      (ca x : Certificate C) (r : Option Done × A.State)
      → (keep C A ca r).0 ≡ some x
      → (ca ≡ x) × (r.0 ≡ some tt) × ((keep C A ca r).1 ≡ r.1)
  unfolding keep
  kept ca x (none, s) h = ground (arith, h)
  kept ca x (some u, s) h = (some_injective h, refl, refl)

  content_loads :
      (ca : Certificate C) (m : Map C.Bytes)
      → IsEncoded C ca
      → ((k : String) → lookup k m ≡ lookup k (ca_content C A ca))
      → load_entries C m ≡ some ca
  unfolding load_entries ca_content lookup
  content_loads ca m h same = rw (same "ca.pem") (rw (same "ca-key.pem") (IsEncoded-load_ca C ca h))

  keep_state : (ca : Certificate C) (r : Option Done × A.State) → (keep C A ca r).1 ≡ r.1
  unfolding keep
  keep_state ca (none, s) = refl
  keep_state ca (some u, s) = refl

  ca_secret_loads :
      (x : Certificate C) → IsEncoded C x → load_entries C (ca_secret C t x).entries ≡ some x
  unfolding ca_secret ca_content
  ca_secret_loads x h = content_loads x (ca_secret C t x).entries h (λ k. refl)

  content-Unique : (ca : Certificate C) → Unique (ca_content C A ca)
  unfolding ca_content lookup
  content-Unique ca = (refl, (refl, tt))

  synced-HeldIn :
      (ca x : Certificate C) (ns : String) (s : A.State)
      → IsEncoded C ca
      → UniqueIn ns s
      → (keep C A ca (sync_ca_to_namespace C A t cfg ca ns s)).0 ≡ some x
      → (ca ≡ x) × HeldIn ns ca (keep C A ca (sync_ca_to_namespace C A t cfg ca ns s)).1
  unfolding sync_ca_to_namespace ca_content lookup
  synced-HeldIn ca x ns s h u e =
      let (same, ok, state) = kept ca x _ e in
      let (y, there, entries) =
        copy_ca_secret_data-Holds C A t ns cfg.ca_secret_name (ca_content C A ca) [] s
          (content-Unique ca) u ok in
      (same, subst (HeldIn ns ca) (sym state) (y, there, content_loads ca y.entries h entries))

  synced-Still :
      (ca : Certificate C) (ns ms : String) (s : A.State)
      → ns ≢ ms
      → Still ms s (keep C A ca (sync_ca_to_namespace C A t cfg ca ns s)).1
  unfolding sync_ca_to_namespace
  synced-Still ca ns ms s d =
      ap (λ r. A.stored r ms cfg.ca_secret_name) (keep_state ca _)
      ∙ copy_ca_secret_data_elsewhere C A t ns cfg.ca_secret_name (ca_content C A ca) [] s ms
          cfg.ca_secret_name (inl d)

  pub generated-HeldIn :
      (ns : String) (made : Option (Certificate C)) (s : A.State) (ca : Certificate C)
      → made ≡ generate_ca C t (ca_config cfg)
      → A.stored s ns cfg.ca_secret_name ≡ none
      → (ensure_generated C A t cfg ns made s).0 ≡ some ca
      → HeldIn ns ca (ensure_generated C A t cfg ns made s).1
  unfolding ensure_generated ensure_ca_secret
  generated-HeldIn ns none s ca e absent h = ground (arith, h)
  generated-HeldIn ns (some x) s ca e absent h =
      let (same, ok, state) = kept x ca _ h in
      let encoded = generate_ca-IsEncoded C t (ca_config cfg) x (sym e) in
      elim (ensure_secret-Ensured C A ns cfg.ca_secret_name ca_keys (ca_secret C t x) s ok) [
        | inl (y, there, still, keys) ↦ ground (arith, absent, there)
        | inr (gone, there) ↦ subst (HeldIn ns ca) (sym state) (
          ca_secret C t x,
          there,
          subst (λ z. load_entries C (ca_secret C t x).entries ≡ some z) same
              (ca_secret_loads x encoded),
        )
      ]

  generated-Still :
      (ns ms : String) (made : Option (Certificate C)) (s : A.State)
      → ns ≢ ms
      → Still ms s (ensure_generated C A t cfg ns made s).1
  unfolding ensure_generated ensure_ca_secret
  generated-Still ns ms none s d = refl
  generated-Still ns ms (some x) s d =
      ap (λ r. A.stored r ms cfg.ca_secret_name) (keep_state x _)
      ∙ ensure_secret_elsewhere C A ns cfg.ca_secret_name ca_keys (ca_secret C t x) s ms
          cfg.ca_secret_name (inl d)

  pub then_sync-HeldIn :
      (from target : String) (r : Option (Certificate C) × A.State) (ca : Certificate C)
      → target ≢ from
      → UniqueIn target r.1
      → ((x : Certificate C) → r.0 ≡ some x → HeldIn from x r.1)
      → (then_sync C A t cfg target r).0 ≡ some ca
      → HeldIn from ca (then_sync C A t cfg target r).1
        × HeldIn target ca (then_sync C A t cfg target r).1
  unfolding then_sync
  then_sync-HeldIn from target (none, s) ca d u held h = ground (arith, h)
  then_sync-HeldIn from target (some x, s) ca d u held h =
      let at_from = held x refl in
      let (same, there) = synced-HeldIn x ca target s (Held-IsEncoded from x s at_from) u h in
      let still = synced-Still x target from s d in
      subst
        (λ z.
          HeldIn from z (keep C A x (sync_ca_to_namespace C A t cfg x target s)).1
          × HeldIn target z (keep C A x (sync_ca_to_namespace C A t cfg x target s)).1)
        same (Still-Held from s _ x still at_from, there)

  pub or_create-HeldIn :
      (ns : String) (r : Option (Certificate C) × A.State) (ca : Certificate C)
      → ((x : Certificate C) → r.0 ≡ some x → HeldIn ns x r.1)
      → (r.0 ≡ none → A.stored r.1 ns cfg.ca_secret_name ≡ none)
      → (or_create C A t cfg ns r).0 ≡ some ca
      → HeldIn ns ca (or_create C A t cfg ns r).1
  unfolding or_create create_ca
  or_create-HeldIn ns (some x, s) ca held absent h = held ca h
  or_create-HeldIn ns (none, s) ca held absent h =
      generated-HeldIn ns (generate_ca C t (ca_config cfg)) s ca refl (absent refl) h

  pub or_create-Still :
      (ns ms : String) (r : Option (Certificate C) × A.State)
      → ns ≢ ms
      → Still ms r.1 (or_create C A t cfg ns r).1
  unfolding or_create create_ca
  or_create-Still ns ms (some x, s) d = refl
  or_create-Still ns ms (none, s) d = generated-Still ns ms (generate_ca C t (ca_config cfg)) s d

  -- What is relied on for a namespace: reads do not fail, and a CA secret that is there lists no key
  -- twice and can be loaded
  abbrev pub Sound : String → A.State → Type 0
  Sound ns s =
      UniqueIn ns s × (Loadable C A ns cfg.ca_secret_name s × Readable C A ns cfg.ca_secret_name)

  pub loaded-HeldIn :
      (ns : String) (s : A.State) (ca : Certificate C)
      → (load_ca_from_secret C A ns cfg.ca_secret_name s).0 ≡ some ca
      → HeldIn ns ca (load_ca_from_secret C A ns cfg.ca_secret_name s).1
  loaded-HeldIn ns s ca h = load-Held C A ns cfg.ca_secret_name s ca h

  pub loaded-absent :
      (ns : String) (s : A.State)
      → Sound ns s
      → (load_ca_from_secret C A ns cfg.ca_secret_name s).0 ≡ none
      → A.stored (load_ca_from_secret C A ns cfg.ca_secret_name s).1 ns cfg.ca_secret_name ≡ none
  loaded-absent ns s (u, (l, r)) h =
      load_keeps C A ns cfg.ca_secret_name s ns cfg.ca_secret_name
      ∙ load_fails-absent C A ns cfg.ca_secret_name s l r h

  pub Still-Sound : (ns : String) (s r : A.State) → Still ns s r → Sound ns s → Sound ns r
  Still-Sound ns s r e (u, (l, read)) =
      (Still-UniqueIn ns s r e u, ((λ x there. l x (sym e ∙ there)), read))

  pub loaded-Still :
      (ns ms : String) (s : A.State)
      → Still ms s (load_ca_from_secret C A ns cfg.ca_secret_name s).1
  loaded-Still ns ms s = load_keeps C A ns cfg.ca_secret_name s ms cfg.ca_secret_name
