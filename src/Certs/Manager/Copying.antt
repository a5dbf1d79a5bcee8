-- ===== src/Certs/Manager/Copying.antt =====
-- `CopyCASecretData`: after a success the stored secret has the entries that were to be copied.
use etcdauto.Prelude.{
  String, ◌≡◌, ◌≢◌, refl, sym, ap, ◌∙◌, ◌⊎◌, Bool, true, false, some, Map, lookup, Unique, arith,
}
use etcdauto.Certs.Crypto.{Crypto, Moment}
use etcdauto.Certs.Api.{Secret, Answer, succeeded, not_found, failed, Api}
use etcdauto.Certs.Manager.{
  copied_secret, with_entries, maps_equal, replace_entries, copy_answered, copy_ca_secret_data,
}
use etcdauto.Certs.Manager.Keeping.{written_keeps, written_succeeded}
use etcdauto.Certs.Manager.Comparing.{maps_equal_iff}

module _ (C : Crypto) (A : Api C) where
  -- The secret is stored with these entries.
  abbrev pub Holds : A.State → String → String → Map C.Bytes → Type 0
  Holds s ns name content =
      ((x : Secret C) × (A.stored s ns name ≡ some x)
        × ((k : String) → lookup k x.entries ≡ lookup k content))

  module _ (t : Moment) (ns name : String) (content : Map C.Bytes) (annotations : Map String) where
    replaced :
        (content-Unique : Unique content) (same : Bool) (x : Secret C) (s : A.State)
        → Unique x.entries
        → A.stored s ns name ≡ some x
        → maps_equal C x.entries content ≡ same
        → (replace_entries C A same ns name content x s).0 ≡ some tt
        → Holds (replace_entries C A same ns name content x s).1 ns name content
    unfolding replace_entries with_entries
    replaced content-Unique true x s u at e h =
        (x, at, (maps_equal_iff C x.entries content u content-Unique).0 e)
    replaced content-Unique false x s u at e h =
        let new = with_entries C content x in
        (
          new,
          ap (λ r. A.stored r ns name) (written_keeps (A.update ns name new s))
              ∙ A.update_stores ns name new s (written_succeeded _ h),
          λ k. refl,
        )

    copied :
        (content-Unique : Unique content) (s : A.State) (a : Answer (Secret C)) (s' : A.State)
        → ((x : Secret C) → A.stored s ns name ≡ some x → Unique x.entries)
        → a ≡ (A.get ns name s).0
        → s' ≡ (A.get ns name s).1
        → (copy_answered C A t ns name content annotations (a, s')).0 ≡ some tt
        → Holds (copy_answered C A t ns name content annotations (a, s')).1 ns name content
    unfolding copy_answered copied_secret
    copied content-Unique s (succeeded x) s' u p q h =
        let at = A.get_found ns name s x (sym p) in
        let kept = ap (λ r. A.stored r ns name) q ∙ A.get_keeps ns name s ns name in
        replaced content-Unique (maps_equal C x.entries content) x s' (u x at) (kept ∙ at) refl h
    copied content-Unique s not_found s' u p q h =
        let new = copied_secret C t content annotations in
        (
          new,
          ap (λ r. A.stored r ns name) (written_keeps (A.create ns name new s'))
              ∙ A.create_stores ns name new s' (written_succeeded _ h),
          λ k. refl,
        )
    copied content-Unique s failed s' u p q h = ground (arith, h)

    -- After a successful copy the secret is stored, and each key has the value in it that it has in
    -- the copied data, where no key is listed twice in that data nor in the secret that was there.
    pub copy_ca_secret_data-Holds :
        (s : A.State)
        → Unique content
        → ((x : Secret C) → A.stored s ns name ≡ some x → Unique x.entries)
        → (copy_ca_secret_data C A t ns name content annotations s).0 ≡ some tt
        → (x : Secret C) × (A.stored
              (copy_ca_secret_data C A t ns name content annotations s).1
              ns
              name
            ≡ some x)
          × ((k : String) → lookup k x.entries ≡ lookup k content)
    unfolding copy_ca_secret_data
    copy_ca_secret_data-Holds s content-Unique u h =
        copied content-Unique s (A.get ns name s).0 (A.get ns name s).1 u refl refl h

    replaced_elsewhere :
        (same : Bool) (x : Secret C) (s : A.State) (ms key : String)
        → (ns ≢ ms) ⊎ (name ≢ key)
        → A.stored (replace_entries C A same ns name content x s).1 ms key ≡ A.stored s ms key
    unfolding replace_entries
    replaced_elsewhere true x s ms key d = refl
    replaced_elsewhere false x s ms key d =
        ap (λ r. A.stored r ms key) (written_keeps (A.update ns name (with_entries C content x) s))
        ∙ A.update_elsewhere ns name (with_entries C content x) s ms key d

    copied_elsewhere :
        (a : Answer (Secret C)) (s : A.State) (ms key : String)
        → (ns ≢ ms) ⊎ (name ≢ key)
        → A.stored (copy_answered C A t ns name content annotations (a, s)).1 ms key
          ≡ A.stored s ms key
    unfolding copy_answered
    copied_elsewhere (succeeded x) s ms key d =
        replaced_elsewhere (maps_equal C x.entries content) x s ms key d
    copied_elsewhere not_found s ms key d =
        let new = copied_secret C t content annotations in
        ap (λ r. A.stored r ms key) (written_keeps (A.create ns name new s))
        ∙ A.create_elsewhere ns name new s ms key d
    copied_elsewhere failed s ms key d = refl

    pub copy_ca_secret_data_elsewhere :
        (s : A.State) (ms key : String)
        → (ns ≢ ms) ⊎ (name ≢ key)
        → A.stored (copy_ca_secret_data C A t ns name content annotations s).1 ms key
          ≡ A.stored s ms key
    unfolding copy_ca_secret_data
    copy_ca_secret_data_elsewhere s ms key d =
        copied_elsewhere (A.get ns name s).0 (A.get ns name s).1 ms key d
        ∙ A.get_keeps ns name s ms key
