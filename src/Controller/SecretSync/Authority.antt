-- ===== src/Controller/SecretSync/Authority.antt =====
-- `loadOrCreateCA`: the CA that the controller uses is the one that is stored, in the CA's namespace
-- and in the controller's own, and it stays the same when the controller starts again.
use etcdauto.Prelude.{
  String, ◌≡◌, ◌≢◌, refl, sym, subst, ◌∙◌, Bool, true, false, not, Option, none, some, arith, ◌==◌,
  eq_iff,
}
use etcdauto.Certs.Crypto.{Crypto, Moment}
use etcdauto.Certs.Authority.{Certificate, generate_ca}
use etcdauto.Certs.Authority.Loading.{some_injective}
use etcdauto.Certs.Api.{Api}
use etcdauto.Certs.Manager.{load_ca_from_secret}
use etcdauto.Certs.Manager.Reading.{Held, Held-load}
use etcdauto.Controller.SecretSync.{
  CertConfig, ca_config, create_ca, or_create, then_sync, load_or_create_answered,
  load_or_create_ca,
}
use etcdauto.Controller.SecretSync.Storing.{
  HeldIn, Sound, Still-UniqueIn, Still-Sound, kept, generated-HeldIn, then_sync-HeldIn,
  or_create-HeldIn, or_create-Still, loaded-HeldIn, loaded-absent, loaded-Still,
}

module _ (C : Crypto) (A : Api C) (t : Moment) (cfg : CertConfig) (self : String) where
  crossed :
      (m : Option (Certificate C)) (s : A.State) (ca : Certificate C)
      → cfg.ca_secret_namespace ≢ self
      → Sound C A t cfg cfg.ca_secret_namespace s
      → Sound C A t cfg self s
      → ((x : Certificate C) → m ≡ some x → HeldIn C A t cfg cfg.ca_secret_namespace x s)
      → (load_or_create_answered C A true t cfg self (m, s)).0 ≡ some ca
      → HeldIn C A t cfg cfg.ca_secret_namespace ca
          (load_or_create_answered C A true t cfg self (m, s)).1
        × HeldIn C A t cfg self ca (load_or_create_answered C A true t cfg self (m, s)).1
  unfolding load_or_create_answered
  crossed (some x) s ca d sound own held h =
      then_sync-HeldIn C A t cfg cfg.ca_secret_namespace self (some x, s) ca (λ e. d (sym e)) own.0
        held h
  crossed none s ca d sound own held h =
      let loaded = load_ca_from_secret C A self cfg.ca_secret_name s in
      let created = or_create C A t cfg self loaded in
      let still =
        or_create-Still C A t cfg self cfg.ca_secret_namespace loaded (λ e. d (sym e))
        ∙ loaded-Still C A t cfg self cfg.ca_secret_namespace s in
      let both =
        then_sync-HeldIn C A t cfg self cfg.ca_secret_namespace created ca d
          (Still-UniqueIn C A t cfg cfg.ca_secret_namespace s created.1 still sound.0)
          (λ x.
            or_create-HeldIn C A t cfg self loaded x (loaded-HeldIn C A t cfg self s)
              (loaded-absent C A t cfg self s own))
          h in
      (both.1, both.0)

  alone :
      (m : Option (Certificate C)) (s : A.State) (ca : Certificate C)
      → ((x : Certificate C) → m ≡ some x → HeldIn C A t cfg cfg.ca_secret_namespace x s)
      → (m ≡ none → A.stored s cfg.ca_secret_namespace cfg.ca_secret_name ≡ none)
      → (load_or_create_answered C A false t cfg self (m, s)).0 ≡ some ca
      → HeldIn C A t cfg cfg.ca_secret_namespace ca
          (load_or_create_answered C A false t cfg self (m, s)).1
  unfolding load_or_create_answered create_ca
  alone (some x) s ca held absent h = held ca h
  alone none s ca held absent h =
      generated-HeldIn C A t cfg cfg.ca_secret_namespace (generate_ca C t (ca_config cfg)) s ca refl
        (absent refl) h

  answered-HeldIn :
      (s : A.State) (ca : Certificate C) (cross : Bool)
      → cross ≡ not (cfg.ca_secret_namespace == self)
      → Sound C A t cfg cfg.ca_secret_namespace s
      → Sound C A t cfg self s
      → let r =
          load_or_create_answered C A cross t cfg self
            (load_ca_from_secret C A cfg.ca_secret_namespace cfg.ca_secret_name s) in
        r.0 ≡ some ca
        → HeldIn C A t cfg cfg.ca_secret_namespace ca r.1 × HeldIn C A t cfg self ca r.1
  answered-HeldIn s ca true e sound own h =
      let loaded = load_ca_from_secret C A cfg.ca_secret_namespace cfg.ca_secret_name s in
      crossed loaded.0 loaded.1 ca (ground (arith, e, eq_iff cfg.ca_secret_namespace self))
        (Still-Sound C A t cfg cfg.ca_secret_namespace s loaded.1
          (loaded-Still C A t cfg cfg.ca_secret_namespace cfg.ca_secret_namespace s) sound)
        (Still-Sound C A t cfg self s loaded.1
          (loaded-Still C A t cfg cfg.ca_secret_namespace self s) own)
        (loaded-HeldIn C A t cfg cfg.ca_secret_namespace s) h
  answered-HeldIn s ca false e sound own h =
      let loaded = load_ca_from_secret C A cfg.ca_secret_namespace cfg.ca_secret_name s in
      let there =
        alone loaded.0 loaded.1 ca (loaded-HeldIn C A t cfg cfg.ca_secret_namespace s)
          (loaded-absent C A t cfg cfg.ca_secret_namespace s sound) h in
      let same : cfg.ca_secret_namespace ≡ self =
        ground (arith, e, eq_iff cfg.ca_secret_namespace self) in
      (
        there,
        subst (λ ns. HeldIn C A t cfg ns ca (load_or_create_answered C A false t cfg self loaded).1)
            same there,
      )

  -- Where reads do not fail, and the CA secret, in the CA's namespace and in the controller's own, is
  -- absent or holds a CA that can be loaded: the CA with which loadOrCreateCA returns is the one that
  -- is stored in both namespaces.
  pub load_or_create_ca-Held :
      (s : A.State) (ca : Certificate C)
      → Sound C A t cfg cfg.ca_secret_namespace s
      → Sound C A t cfg self s
      → (load_or_create_ca C A t cfg self s).0 ≡ some ca
      → Held C A cfg.ca_secret_namespace cfg.ca_secret_name ca
          (load_or_create_ca C A t cfg self s).1
        × Held C A self cfg.ca_secret_name ca (load_or_create_ca C A t cfg self s).1
  unfolding load_or_create_ca
  load_or_create_ca-Held s ca sound own h =
      answered-HeldIn s ca (not (cfg.ca_secret_namespace == self)) refl sound own h

  again :
      (u : Moment) (m : Option (Certificate C)) (r : A.State) (cross : Bool) (ca x : Certificate C)
      → m ≡ some ca
      → (load_or_create_answered C A cross u cfg self (m, r)).0 ≡ some x
      → x ≡ ca
  unfolding load_or_create_answered then_sync
  again u none r cross ca x e h = ground (arith, e)
  again u (some y) r true ca x e h = sym (kept C A u cfg y x _ h).0 ∙ some_injective e
  again u (some y) r false ca x e h = some_injective (sym h ∙ e)

  answers :
      (u : Moment) (r : A.State) {o : Option (Certificate C)}
      → (load_or_create_ca C A u cfg self r).0 ≡ o
      → (load_or_create_answered C A
          (not (cfg.ca_secret_namespace == self))
          u
          cfg
          self
          (load_ca_from_secret C A cfg.ca_secret_namespace cfg.ca_secret_name r)).0
        ≡ o
  unfolding load_or_create_ca
  answers u r h = h

  -- A controller that starts again, at another time and in any state with the CA's secret unchanged
  -- from the end of a first start, uses the CA of the first start, if it can read and returns one.
  pub load_or_create_ca-again :
      (u : Moment) (s r : A.State) (ca x : Certificate C)
      → Sound C A t cfg cfg.ca_secret_namespace s
      → Sound C A t cfg self s
      → (load_or_create_ca C A t cfg self s).0 ≡ some ca
      → A.stored r cfg.ca_secret_namespace cfg.ca_secret_name
        ≡ A.stored (load_or_create_ca C A t cfg self s).1 cfg.ca_secret_namespace cfg.ca_secret_name
      → (load_or_create_ca C A u cfg self r).0 ≡ some x
      → x ≡ ca
  load_or_create_ca-again u s r ca x sound own h same g =
      let (y, there, loads) = (load_or_create_ca-Held s ca sound own h).0 in
      let (unique, (loadable, readable)) = sound in
      let found =
        Held-load C A cfg.ca_secret_namespace cfg.ca_secret_name r ca readable
          (y, same ∙ there, loads) in
      again u (load_ca_from_secret C A cfg.ca_secret_namespace cfg.ca_secret_name r).0
        (load_ca_from_secret C A cfg.ca_secret_namespace cfg.ca_secret_name r).1
        (not (cfg.ca_secret_namespace == self)) ca x found (answers u r g)
