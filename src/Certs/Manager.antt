-- ===== src/Certs/Manager.antt =====
-- pkg/cert/secret.go: the SecretManager. An operation returns `none` where the source returns an
-- error. The namespace is that of the manager, `t` is the time of the call.
pub mod Comparing
pub mod Keeping
pub mod Copying
pub mod Reading
mod Tests
use etcdauto.Prelude.{
  ℕ, ◌+◌, String, Bool, true, false, ◌&&◌, Option, none, some, Map, lookup, insert, is_some, List,
  [], ◌∷◌, length, eqb, ltb, ◌==◌, if◌then◌else◌,
}
use etcdauto.Certs.Crypto.{Crypto, Moment}
use etcdauto.Certs.Authority.{Certificate, load_ca, ◌>>=◌}
use etcdauto.Certs.Api.{
  Kind, secret_type_opaque, secret_type_tls, Done, Secret, Answer, succeeded, not_found, failed,
  Api,
}

abbrev pub ca_cert_key : String
ca_cert_key = "ca.pem"

abbrev pub ca_key_key : String
ca_key_key = "ca-key.pem"

abbrev pub tls_cert_key : String
tls_cert_key = "tls.crt"

abbrev pub tls_private_key_key : String
tls_private_key_key = "tls.key"

abbrev pub ca_keys : List String
ca_keys = ca_cert_key ∷ ca_key_key ∷ []

-- `requiredKeys` of EnsureClientSecret
abbrev pub client_keys : List String
client_keys = tls_cert_key ∷ tls_private_key_key ∷ []

abbrev pub created_at : String
created_at = "etcdauto.io/cert-created-at"

abbrev pub expires_at : String
expires_at = "etcdauto.io/cert-expires-at"

abbrev pub rotation_flag : String
rotation_flag = "etcdauto.io/cert-rotation-enabled"

unfoldable pub labels_for : String → Map String
labels_for component =
    ("app.kubernetes.io/name", "etcd")
    ∷ ("app.kubernetes.io/component", component)
    ∷ ("app.kubernetes.io/managed-by", "etcdauto")
    ∷ []

-- The keys that must be there, in the order in which the source looks them up
unfoldable pub has_keys : {V : Type 0} → List String → Map V → Bool
has_keys [] m = true
has_keys (k ∷ ks) m = is_some (lookup k m) && has_keys ks m

unfoldable pub has_required : Bool → Option Done
has_required true = some tt
has_required false = none

unfoldable pub written : {S : Type 0} → Answer Done × S → Option Done × S
written (succeeded u, s) = (some tt, s)
written (not_found, s) = (none, s)
written (failed, s) = (none, s)

-- `for k, v := range annotations { ann[k] = v }`
unfoldable pub insert_all : {V : Type 0} → Map V → Map V → Map V
insert_all [] m = m
insert_all ((k, v) ∷ rest) m = insert_all rest (insert k v m)

module _ (C : Crypto) where
  unfoldable pub ca_secret : Moment → Certificate C → Secret C
  unfolding labels_for
  ca_secret t ca = record {
    kind = secret_type_opaque;
    annotations =
        (created_at, C.format_time t)
        ∷ (expires_at, C.not_after ca.certificate)
        ∷ (rotation_flag, "false")
        ∷ [];
    labels = labels_for "ca-certificate";
    entries = (ca_cert_key, ca.cert_pem) ∷ (ca_key_key, ca.key_pem) ∷ [];
  }

  unfoldable pub client_secret : Moment → Certificate C → Certificate C → Secret C
  unfolding labels_for
  client_secret t ca client = record {
    kind = secret_type_tls;
    annotations =
        (created_at, C.format_time t)
        ∷ (expires_at, C.not_after client.certificate)
        ∷ (rotation_flag, "false")
        ∷ [];
    labels = labels_for "client-certificate";
    entries =
        (ca_cert_key, ca.cert_pem)
        ∷ (tls_cert_key, client.cert_pem)
        ∷ (tls_private_key_key, client.key_pem)
        ∷ [];
  }

  unfoldable pub copied_secret : Moment → Map C.Bytes → Map String → Secret C
  unfolding labels_for insert_all
  copied_secret t content annotations = record {
    kind = secret_type_opaque;
    annotations =
        insert_all annotations ((created_at, C.format_time t) ∷ (rotation_flag, "false") ∷ []);
    labels = labels_for "ca-certificate";
    entries = content;
  }

  unfoldable pub with_entries : Map C.Bytes → Secret C → Secret C
  with_entries content x = record {
    kind = x.kind;
    annotations = x.annotations;
    labels = x.labels;
    entries = content;
  }

  unfoldable pub with_rotation : Secret C → Secret C
  with_rotation x = record {
    kind = x.kind;
    annotations = insert rotation_flag "true" x.annotations;
    labels = x.labels;
    entries = x.entries;
  }

  unfoldable pub same_value : C.Bytes → Option C.Bytes → Bool
  same_value v none = false
  same_value v (some w) = C.bytes_equal v w

  unfoldable pub values_equal : Map C.Bytes → Map C.Bytes → Bool
  unfolding same_value
  values_equal [] b = true
  values_equal ((k, v) ∷ a) b = same_value v (lookup k b) && values_equal a b

  unfoldable pub maps_equal : Map C.Bytes → Map C.Bytes → Bool
  unfolding values_equal
  maps_equal a b = eqb (length a) (length b) && values_equal a b

  unfoldable pub load_entries : Map C.Bytes → Option (Certificate C)
  unfolding load_ca
  load_entries m = do
    cert_pem ← lookup ca_cert_key m
    key_pem ← lookup ca_key_key m
    load_ca C cert_pem key_pem

  module _ (A : Api C) where
    -- The part that EnsureCASecret and EnsureClientSecret share
    unfoldable pub ensure_answered :
        String
        → String
        → List String
        → Secret C
        → Answer (Secret C) × A.State
        → Option Done × A.State
    unfolding has_keys has_required written
    ensure_answered ns name keys fresh (succeeded existing, s) =
        (has_required (has_keys keys existing.entries), s)
    ensure_answered ns name keys fresh (not_found, s) = written (A.create ns name fresh s)
    ensure_answered ns name keys fresh (failed, s) = (none, s)

    unfoldable pub ensure_secret :
        String → String → List String → Secret C → A.State → Option Done × A.State
    unfolding ensure_answered
    ensure_secret ns name keys fresh s = ensure_answered ns name keys fresh (A.get ns name s)

    unfoldable pub ensure_ca_secret :
        Moment → String → String → Certificate C → A.State → Option Done × A.State
    unfolding ensure_secret ca_secret
    ensure_ca_secret t ns name ca s = ensure_secret ns name ca_keys (ca_secret t ca) s

    unfoldable pub ensure_client_secret :
        Moment → String → String → Certificate C → Certificate C → A.State → Option Done × A.State
    unfolding ensure_secret client_secret
    ensure_client_secret t ns name ca client s =
        ensure_secret ns name client_keys (client_secret t ca client) s

    unfoldable pub replace_entries :
        Bool → String → String → Map C.Bytes → Secret C → A.State → Option Done × A.State
    unfolding written with_entries
    replace_entries true ns name content existing s = (some tt, s)
    replace_entries false ns name content existing s =
        written (A.update ns name (with_entries content existing) s)

    unfoldable pub copy_answered :
        Moment
        → String
        → String
        → Map C.Bytes
        → Map String
        → Answer (Secret C) × A.State
        → Option Done × A.State
    unfolding replace_entries maps_equal copied_secret written
    copy_answered t ns name content annotations (succeeded existing, s) =
        replace_entries (maps_equal existing.entries content) ns name content existing s
    copy_answered t ns name content annotations (not_found, s) =
        written (A.create ns name (copied_secret t content annotations) s)
    copy_answered t ns name content annotations (failed, s) = (none, s)

    unfoldable pub copy_ca_secret_data :
        Moment → String → String → Map C.Bytes → Map String → A.State → Option Done × A.State
    unfolding copy_answered
    copy_ca_secret_data t ns name content annotations s =
        copy_answered t ns name content annotations (A.get ns name s)

    unfoldable pub load_answered : Answer (Secret C) × A.State → Option (Certificate C) × A.State
    unfolding load_entries
    load_answered (succeeded x, s) = (load_entries x.entries, s)
    load_answered (not_found, s) = (none, s)
    load_answered (failed, s) = (none, s)

    unfoldable pub load_ca_from_secret :
        String → String → A.State → Option (Certificate C) × A.State
    unfolding load_answered
    load_ca_from_secret ns name s = load_answered (A.get ns name s)

    unfoldable pub enable_answered :
        String → String → Answer (Secret C) × A.State → Option Done × A.State
    unfolding written with_rotation
    enable_answered ns name (succeeded x, s) = written (A.update ns name (with_rotation x) s)
    enable_answered ns name (not_found, s) = (none, s)
    enable_answered ns name (failed, s) = (none, s)

    unfoldable pub enable_certificate_rotation : String → String → A.State → Option Done × A.State
    unfolding enable_answered
    enable_certificate_rotation ns name s = enable_answered ns name (A.get ns name s)

    -- `time.Until(expiresAt)` is what is left of the time, a negative duration where nothing is; the
    -- threshold is not negative.
    unfoldable pub expires_within : Moment → ℕ → Option String → Option Bool
    expires_within t threshold none = none
    expires_within t threshold (some text) = do
      deadline ← C.parse_time text
      some (ltb deadline (C.clock t + threshold))

    -- A missing annotation reads as the empty text.
    unfoldable pub is_on : Option String → Bool
    is_on none = false
    is_on (some text) = text == "true"

    unfoldable pub rotation_due : Moment → ℕ → Map String → Option Bool
    unfolding expires_within is_on
    rotation_due t threshold annotations =
        if is_on (lookup rotation_flag annotations)
        then expires_within t threshold (lookup expires_at annotations)
        else some false

    unfoldable pub check_answered : Moment → ℕ → Answer (Secret C) × A.State → Option Bool × A.State
    unfolding rotation_due
    check_answered t threshold (succeeded x, s) = (rotation_due t threshold x.annotations, s)
    check_answered t threshold (not_found, s) = (none, s)
    check_answered t threshold (failed, s) = (none, s)

    unfoldable pub check_certificate_rotation_needed :
        Moment → String → String → ℕ → A.State → Option Bool × A.State
    unfolding check_answered
    check_certificate_rotation_needed t ns name threshold s =
        check_answered t threshold (A.get ns name s)
