-- ===== src/Setup/Files.antt =====
-- Package os as pkg/init uses it: files with their contents, directories and the environment of the
-- process. A state is that of the file system and of the environment, so a call may fail in one state
-- and succeed in the next. A call that fails may have taken effect in part. No two paths name the same
-- file, and nobody else writes the files between the calls of one run.
use etcdauto.Prelude.{String, ◌≡◌, refl, ◌≢◌, Bool, true, Option, none, some, arith}

abbrev pub Done : Type 0
Done = Unit

-- A run of calls, of which the first that fails ends it: `none` is an error.
infixl 4 ◌>>>◌
unfoldable pub ◌>>>◌ : {S A B : Type 0} → Option A × S → (A → S → Option B × S) → Option B × S
(none, s) >>> f = (none, s)
(some a, s) >>> f = f a s

pub >>>-inverts :
    {S A B : Type 0} (r : Option A × S) (f : A → S → Option B × S) (b : B) (s' : S)
    → (r >>> f) ≡ (some b, s')
    → (a : A) × (s : S) × (r ≡ (some a, s)) × (f a s ≡ (some b, s'))
unfolding ◌>>>◌
>>>-inverts (none, s) f b s' h = ground (arith, h)
>>>-inverts (some a, s) f b s' h = (a, s, refl, h)

pub record Files (B : Type 0) : Type 1 where
  pub State : Type 0
  -- What stands in a regular file; the value of a variable
  pub content : State → String → Option B
  pub env : State → String → String
  -- os.Stat without an error
  pub exists : State → String → Bool
  pub read : State → String → Option B
  pub empty : B
  pub create : String → State → Option Done × State
  -- The first write to a file that was just created
  pub write : String → B → State → Option Done × State
  -- os.WriteFile
  pub write_file : String → B → State → Option Done × State
  pub mkdir_all : String → State → Option Done × State
  pub setenv : String → String → State → Option Done × State
  pub exists_content : (s : State) (p : String) (b : B) → content s p ≡ some b → exists s p ≡ true
  pub read_content : (s : State) (p : String) (b : B) → read s p ≡ some b → content s p ≡ some b
  pub create_empty :
      (p : String) (s s' : State) → create p s ≡ (some tt, s') → content s' p ≡ some empty
  pub create_elsewhere :
      (p : String) (s : State) (q : String)
      → q ≢ p
      → (content (create p s).1 q ≡ content s q) × (exists (create p s).1 q ≡ exists s q)
  pub write_content :
      (p : String) (b : B) (s s' : State)
      → content s p ≡ some empty
      → write p b s ≡ (some tt, s')
      → content s' p ≡ some b
  pub write_exists :
      (p : String) (b : B) (s : State) → exists s p ≡ true → exists (write p b s).1 p ≡ true
  pub write_elsewhere :
      (p : String) (b : B) (s : State) (q : String)
      → q ≢ p
      → (content (write p b s).1 q ≡ content s q) × (exists (write p b s).1 q ≡ exists s q)
  pub write_file_content :
      (p : String) (b : B) (s s' : State) → write_file p b s ≡ (some tt, s') → content s' p ≡ some b
  pub write_file_elsewhere :
      (p : String) (b : B) (s : State) (q : String)
      → q ≢ p
      → (content (write_file p b s).1 q ≡ content s q)
        × (exists (write_file p b s).1 q ≡ exists s q)
  pub mkdir_all_content :
      (p : String) (s : State) (q : String) → content (mkdir_all p s).1 q ≡ content s q
  pub mkdir_all_exists :
      (p : String) (s : State) (q : String) → exists s q ≡ true → exists (mkdir_all p s).1 q ≡ true
  pub setenv_value : (k v : String) (s s' : State) → setenv k v s ≡ (some tt, s') → env s' k ≡ v
  pub setenv_elsewhere :
      (k v : String) (s : State) (j : String) → j ≢ k → env (setenv k v s).1 j ≡ env s j
  pub setenv_files :
      (k v : String) (s : State) (q : String)
      → (content (setenv k v s).1 q ≡ content s q) × (exists (setenv k v s).1 q ≡ exists s q)
  pub create_env : (p : String) (s : State) (k : String) → env (create p s).1 k ≡ env s k
  pub write_env : (p : String) (b : B) (s : State) (k : String) → env (write p b s).1 k ≡ env s k
  pub write_file_env :
      (p : String) (b : B) (s : State) (k : String) → env (write_file p b s).1 k ≡ env s k
  pub mkdir_all_env : (p : String) (s : State) (k : String) → env (mkdir_all p s).1 k ≡ env s k
