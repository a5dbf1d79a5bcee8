-- ===== src/Certs/Manager/Reading.antt =====
-- `LoadCAFromSecret`: what a load says of the stored secret, and what a stored CA loads as.
use etcdauto.Prelude.{String, ◌≡◌, ◌≢◌, refl, sym, ap, subst, ◌∙◌, none, some, Map, lookup, arith}
use etcdauto.Certs.Crypto.{Crypto}
use etcdauto.Certs.Authority.{Certificate}
use etcdauto.Certs.Authority.Loading.{>>=-eq-some, some_injective, IsEncoded, load_ca-IsEncoded}
use etcdauto.Certs.Api.{Secret, Answer, succeeded, not_found, failed, Api}
use etcdauto.Certs.Manager.{
  ca_cert_key, ca_key_key, load_entries, load_answered, load_ca_from_secret,
}

module _ (C : Crypto) (A : Api C) (ns name : String) where
  -- A secret is stored from which the CA is loaded.
  abbrev pub Held : Certificate C → A.State → Type 0
  Held ca s =
      ((x : Secret C) × (A.stored s ns name ≡ some x) × (load_entries C x.entries ≡ some ca))

  -- The secret, if there is one, holds a CA that can be loaded.
  abbrev pub Loadable : A.State → Type 0
  Loadable s = (x : Secret C) → A.stored s ns name ≡ some x → load_entries C x.entries ≢ none

  -- A read of the secret does not fail.
  abbrev pub Readable : Type 0
  Readable = (s : A.State) → (A.get ns name s).0 ≢ failed

  pub load_entries-IsEncoded :
      (m : Map C.Bytes) (ca : Certificate C) → load_entries C m ≡ some ca → IsEncoded C ca
  unfolding load_entries
  load_entries-IsEncoded m ca h =
      let (p, at_p, h1) = >>=-eq-some (lookup ca_cert_key m) _ h in
      let (q, at_q, h2) = >>=-eq-some (lookup ca_key_key m) _ h1 in load_ca-IsEncoded C p q ca h2

  answered-Held :
      (a : Answer (Secret C)) (s : A.State) (ca : Certificate C)
      → ((x : Secret C) → a ≡ succeeded x → A.stored s ns name ≡ some x)
      → (load_answered C A (a, s)).0 ≡ some ca
      → Held ca s
  unfolding load_answered
  answered-Held (succeeded x) s ca found h = (x, found x refl, h)
  answered-Held not_found s ca found h = ground (arith, h)
  answered-Held failed s ca found h = ground (arith, h)

  answered-state : (a : Answer (Secret C)) (s : A.State) → (load_answered C A (a, s)).1 ≡ s
  unfolding load_answered
  answered-state (succeeded x) s = refl
  answered-state not_found s = refl
  answered-state failed s = refl

  found_after_get :
      (s : A.State) (x : Secret C)
      → (A.get ns name s).0 ≡ succeeded x
      → A.stored (A.get ns name s).1 ns name ≡ some x
  found_after_get s x e = A.get_keeps ns name s ns name ∙ A.get_found ns name s x e

  pub load_keeps :
      (s : A.State) (ms key : String)
      → A.stored (load_ca_from_secret C A ns name s).1 ms key ≡ A.stored s ms key
  unfolding load_ca_from_secret
  load_keeps s ms key =
      ap (λ r. A.stored r ms key) (answered-state (A.get ns name s).0 (A.get ns name s).1)
      ∙ A.get_keeps ns name s ms key

  pub load-Held :
      (s : A.State) (ca : Certificate C)
      → (load_ca_from_secret C A ns name s).0 ≡ some ca
      → Held ca (load_ca_from_secret C A ns name s).1
  unfolding load_ca_from_secret
  load-Held s ca h =
      let r = A.get ns name s in
      subst (Held ca) (sym (answered-state r.0 r.1))
        (answered-Held r.0 r.1 ca (found_after_get s) h)

  answered_absent :
      (a : Answer (Secret C)) (s s' : A.State)
      → a ≡ (A.get ns name s).0
      → Loadable s
      → Readable
      → (load_answered C A (a, s')).0 ≡ none
      → A.stored s ns name ≡ none
  unfolding load_answered
  answered_absent (succeeded x) s s' e sound read h =
      absurd (sound x (A.get_found ns name s x (sym e)) h)
  answered_absent not_found s s' e sound read h = A.get_absent ns name s (sym e)
  answered_absent failed s s' e sound read h = absurd (read s (sym e))

  pub load_fails-absent :
      (s : A.State)
      → Loadable s
      → Readable
      → (load_ca_from_secret C A ns name s).0 ≡ none
      → A.stored s ns name ≡ none
  unfolding load_ca_from_secret
  load_fails-absent s sound read h =
      answered_absent (A.get ns name s).0 s (A.get ns name s).1 refl sound read h

  Held-answered :
      (a : Answer (Secret C)) (s s' : A.State) (ca : Certificate C)
      → a ≡ (A.get ns name s).0
      → Readable
      → Held ca s
      → (load_answered C A (a, s')).0 ≡ some ca
  unfolding load_answered
  Held-answered (succeeded x) s s' ca e read (y, there, loads) =
      let same = sym (A.get_found ns name s x (sym e)) ∙ there in
      subst (λ z. load_entries C z.entries ≡ some ca) (sym (some_injective same)) loads
  Held-answered not_found s s' ca e read (y, there, loads) =
      ground (arith, A.get_absent ns name s (sym e), there)
  Held-answered failed s s' ca e read held = absurd (read s (sym e))

  -- A stored CA is what a read that does not fail loads.
  pub Held-load :
      (s : A.State) (ca : Certificate C)
      → Readable
      → Held ca s
      → (load_ca_from_secret C A ns name s).0 ≡ some ca
  unfolding load_ca_from_secret
  Held-load s ca read held =
      Held-answered (A.get ns name s).0 s (A.get ns name s).1 ca refl read held
