-- ===== src/Cluster/Host.antt =====
-- The world that pkg/cluster talks to: files, environment, processes and the etcd client, which is
-- a third-party package. A run is the list of what the program has asked for, newest first, and
-- what the world answers is any function of that list (a `Host`), so every behaviour of the network
-- and of the other pods, a changing one too, is some `Host`.
use etcdauto.Prelude.{
  ℕ, String, ◌⧺◌, ◌≡◌, refl, Bool, true, false, Option, List, [], ◌∷◌, ◌==◌, contains,
  if◌then◌else◌,
}

-- pb.Member of the etcd API
pub record Member : Type 0 where
  pub id : ℕ
  pub name : String
  pub peer_urls : List String
  pub is_learner : Bool

pub record ListResponse : Type 0 where
  pub cluster_id : ℕ
  pub members : List Member

pub record AddResponse : Type 0 where
  pub member : Member
  pub members : List Member

pub record DirEntry : Type 0 where
  pub name : String
  pub is_dir : Bool

-- os.Stat: its error is "does not exist" or another one.
pub data FileStat : Type 0 where
  missing denied file directory : FileStat

-- The error of `client.Get`
pub data GetReply : Type 0 where
  found permission_denied failed : GetReply

-- A client is known by its endpoints.
abbrev pub Client : Type 0
Client = List String

pub data Event : Type 0 where
  setenv : String → String → Event
  stat read_dir read_file remove_all : String → Event
  load_key_pair : String → String → Event
  dial : String → Event
  new_client : Client → Event
  get_health alarm_list member_list : Client → Event
  member_remove member_promote : Client → ℕ → Event
  member_add member_add_as_learner : Client → List String → Event
  start_process : String → Event
  sleep : ℕ → Event
  sigterm kill wait_exit tick : Event

abbrev pub History : Type 0
History = List Event

-- What wakes the main goroutine, or the brain-split checker, while etcd runs: a signal, the end of
-- the etcd process, or the checker's ticker
pub data Wake : Type 0 where
  signalled process_exited ticked : Wake

pub record Host : Type 0 where
  pub stat_of : History → String → FileStat
  pub dir_of : History → String → Option (List DirEntry)
  pub file_of : History → String → Option String
  pub key_pair_loads : History → String → String → Bool
  pub dials : History → String → Bool
  pub connects : History → Client → Bool
  pub get_reply : History → Client → GetReply
  pub alarms : History → Client → Option (List ℕ)
  pub list_reply : History → Client → Option ListResponse
  pub remove_succeeds : History → Client → ℕ → Bool
  pub promote_succeeds : History → Client → ℕ → Bool
  pub add_reply : History → Client → List String → Option AddResponse
  pub add_learner_reply : History → Client → List String → Option AddResponse
  pub starts : History → String → Bool
  pub signals : History → Bool
  pub kills : History → Bool
  pub wakes : History → List Wake
  -- net.ParseIP finds an address
  pub is_ip : String → Bool

-- How a call ends: it returns, panics, ends the process, or is still running where the record ends.
pub data Outcome (A : Type 0) : Type 0 where
  done : A → Outcome A
  panics : Outcome A
  exits : Outcome A
  waits : Outcome A

abbrev pub M : Type 0 → Type 0
M A = History → Outcome A × History

abbrev pub pure : {A : Type 0} → A → M A
pure a h = (done a, h)

abbrev pub panic : {A : Type 0} → M A
panic h = (panics, h)

-- os.Exit, and klog.Fatal
abbrev pub exit : {A : Type 0} → M A
exit h = (exits, h)

abbrev pub wait : {A : Type 0} → M A
wait h = (waits, h)

-- Ask the world: the answer depends on what was asked before.
abbrev pub ask : {A : Type 0} → Event → (History → A) → M A
ask e answer h = (done (answer h), e ∷ h)

abbrev pub act : Event → M (Unit {0})
act e h = (done tt, e ∷ h)

abbrev pub continue : {A B : Type 0} → Outcome A → (A → M B) → M B
continue (done a) f h = f a h
continue panics f h = (panics, h)
continue exits f h = (exits, h)
continue waits f h = (waits, h)

infixl 5 ◌>>=◌ ◌>>◌
abbrev pub ◌>>=◌ : {A B : Type 0} → M A → (A → M B) → M B
◌>>=◌ m f h = let (o, h') = m h in continue o f h'

abbrev pub ◌>>◌ : {B : Type 0} → M (Unit {0}) → M B → M B
m >> k = m >>= λ _. k

-- The errors that pkg/cluster returns; the texts of the errors that they wrap are left out.
pub data Error : Type 0 where
  no_alive_endpoints key_pair_failed client_failed tls_failed read_dir_failed : Error
  list_failed remove_failed add_failed no_voting_members start_failed : Error
  promote_failed promote_cleaned_up : Error
  read_file_failed : Error

pub data Result {ℓ} (A : Type ℓ) : Type ℓ where
  ok : A → Result A
  err : Error → Result A

-- A started process (exec.Cmd), known by its binary
abbrev pub Process : Type 0
Process = String

-- net.JoinHostPort
unfoldable pub join_host_port : String → String → String
join_host_port host port =
    if contains host ":" then "[" ⧺ (host ⧺ ("]:" ⧺ port)) else host ⧺ (":" ⧺ port)

-- os.Getenv after the run so far, over the environment at the start
unfoldable pub getenv : (String → String) → History → String → String
getenv initial [] key = initial key
getenv initial (setenv k v ∷ h) key = if k == key then v else getenv initial h key
getenv initial (_ ∷ h) key = getenv initial h key

-- Calls that return, whatever happened before: no panic and no exit
pub record Total {A : Type 0} (m : M A) : Type 0 where
  pub returns : (h : History) → (a : A) × (h' : History) × (m h ≡ (done a, h'))

pub Total-pure : {A : Type 0} (a : A) → Total (pure a)
Total-pure a = record { returns = λ h. (a, h, refl) }

pub Total-ask : {A : Type 0} (e : Event) (f : History → A) → Total (ask e f)
Total-ask e f = record { returns = λ h. (f h, e ∷ h, refl) }

pub Total-bind :
    {A B : Type 0} (m : M A) (f : A → M B) → Total m → ((a : A) → Total (f a)) → Total (m >>= f)
Total-bind m f tm tf = record {
  returns = λ h.
      let (a, h', e) = tm.returns h in let (b, h'', e') = (tf a).returns h' in (b, h'', rw e e');
}

pub Total-if : {A : Type 0} (b : Bool) (m n : M A) → Total m → Total n → Total (if b then m else n)
Total-if true m n tm tn = tm
Total-if false m n tm tn = tn

pub ruleset total_rules = (Total-pure, Total-ask, Total-bind, Total-if)
