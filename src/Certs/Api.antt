-- ===== src/Certs/Api.antt =====
-- The Kubernetes API as pkg/cert and the secret controller use it: the secrets of a cluster, read and
-- written by name. A state is that of the server together with the connection to it, so a call may
-- fail in one state and succeed in the next; a call that fails may or may not have taken effect.
-- Nobody else writes the secrets between the calls of one run.
use etcdauto.Prelude.{String, ◌≡◌, ◌≢◌, ◌⊎◌, Option, none, some, Map}
use etcdauto.Certs.Crypto.{Crypto}

pub data Kind : Type 0 where
  secret_type_opaque : Kind
  secret_type_tls : Kind

-- corev1.Secret; `entries` is its Data.
pub record Secret (C : Crypto) : Type 0 where
  pub kind : Kind
  pub annotations : Map String
  pub labels : Map String
  pub entries : Map C.Bytes

abbrev pub Done : Type 0
Done = Unit

-- An error is told apart by apierrors.IsNotFound.
pub data Answer (A : Type 0) : Type 0 where
  succeeded : A → Answer A
  not_found : Answer A
  failed : Answer A

pub record Api (C : Crypto) : Type 1 where
  pub State : Type 0
  pub stored : State → String → String → Option (Secret C)
  pub get : String → String → State → Answer (Secret C) × State
  pub create : String → String → Secret C → State → Answer Done × State
  pub update : String → String → Secret C → State → Answer Done × State
  pub remove : String → String → State → Answer Done × State
  pub get_keeps :
      (ns name : String) (s : State) (ms key : String)
      → stored (get ns name s).1 ms key ≡ stored s ms key
  pub get_found :
      (ns name : String) (s : State) (x : Secret C)
      → (get ns name s).0 ≡ succeeded x
      → stored s ns name ≡ some x
  pub get_absent :
      (ns name : String) (s : State) → (get ns name s).0 ≡ not_found → stored s ns name ≡ none
  pub create_stores :
      (ns name : String) (x : Secret C) (s : State)
      → (create ns name x s).0 ≡ succeeded tt
      → stored (create ns name x s).1 ns name ≡ some x
  pub create_may :
      (ns name : String) (x : Secret C) (s : State)
      → (stored (create ns name x s).1 ns name ≡ stored s ns name)
        ⊎ (stored (create ns name x s).1 ns name ≡ some x)
  -- An object that exists is not created again.
  pub create_refuses :
      (ns name : String) (x y : Secret C) (s : State)
      → stored s ns name ≡ some y
      → stored (create ns name x s).1 ns name ≡ some y
  pub create_elsewhere :
      (ns name : String) (x : Secret C) (s : State) (ms key : String)
      → (ns ≢ ms) ⊎ (name ≢ key)
      → stored (create ns name x s).1 ms key ≡ stored s ms key
  pub update_stores :
      (ns name : String) (x : Secret C) (s : State)
      → (update ns name x s).0 ≡ succeeded tt
      → stored (update ns name x s).1 ns name ≡ some x
  pub update_elsewhere :
      (ns name : String) (x : Secret C) (s : State) (ms key : String)
      → (ns ≢ ms) ⊎ (name ≢ key)
      → stored (update ns name x s).1 ms key ≡ stored s ms key
  pub remove_succeeded :
      (ns name : String) (s : State)
      → (remove ns name s).0 ≡ succeeded tt
      → stored (remove ns name s).1 ns name ≡ none
  pub remove_not_found :
      (ns name : String) (s : State)
      → (remove ns name s).0 ≡ not_found
      → stored (remove ns name s).1 ns name ≡ none
  pub remove_elsewhere :
      (ns name : String) (s : State) (ms key : String)
      → (ns ≢ ms) ⊎ (name ≢ key)
      → stored (remove ns name s).1 ms key ≡ stored s ms key
