-- ===== src/Certs/Memory.antt =====
-- Instances to run the certificate code on: an API server whose state is what it stores and whose
-- calls do not fail, and a cryptography of texts, in which a certificate is its subject's name
-- followed by the certificate that signed it.
use etcdauto.Prelude.{
  String, ◌≡◌, ◌≢◌, refl, ◌↔◌, ◌⊎◌, inl, inr, Bool, true, false, ◌&&◌, Option, none, some, List, [],
  ◌∷◌, arith, ◌==◌, eq_iff, eq_refl, if◌then◌else◌,
}
use etcdauto.Certs.Crypto.{Crypto, Template}
use etcdauto.Certs.Api.{Done, Secret, Answer, succeeded, not_found, failed, Api}

abbrev Text : Type 0
Text = List String

unfoldable pub same_text : Text → Text → Bool
same_text [] [] = true
same_text [] (y ∷ ys) = false
same_text (x ∷ xs) [] = false
same_text (x ∷ xs) (y ∷ ys) = (x == y) && same_text xs ys

pub same_text_iff : (a b : Text) → (same_text a b ≡ true) ↔ (a ≡ b)
unfolding same_text
same_text_iff [] [] = ground arith
same_text_iff [] (y ∷ ys) = ground arith
same_text_iff (x ∷ xs) [] = ground arith
same_text_iff (x ∷ xs) (y ∷ ys) = ground (arith, same_text_iff xs ys, eq_iff x y)

unfoldable pub text_block : Text → Option (String × Text)
text_block [] = none
text_block (kind ∷ b) = some (kind, b)

unfoldable pub text_key : Text → Option String
text_key [] = none
text_key (k ∷ b) = some k

unfoldable pub signed_by : Text → Text → Bool
unfolding same_text
signed_by parent [] = false
signed_by parent (subject ∷ issuer) = same_text issuer parent

unfoldable pub text_certificate : Template → Option Text → Option Text
text_certificate m none = some (m.common_name ∷ [])
text_certificate m (some parent) = some (m.common_name ∷ parent)

pub signed_by_created :
    (m : Template) (parent der c : Text)
    → text_certificate m (some parent) ≡ some der
    → some der ≡ some c
    → signed_by parent c ≡ true
unfolding text_certificate signed_by
signed_by_created m parent der [] h g = ground (arith, h, g)
signed_by_created m parent der (x ∷ c) h g = (same_text_iff c parent).1 (ground (arith, h, g))

unfoldable pub texts : Crypto
unfolding same_text text_block text_key signed_by text_certificate
texts = record {
  Bytes = Text;
  Cert = Text;
  Key = String;
  Signer = String;
  of_text = λ s. s ∷ [];
  encode = λ kind b. kind ∷ b;
  decode = text_block;
  bytes_equal = same_text;
  parse_certificate = λ b. some b;
  raw = λ c. c;
  generate_key = λ t. some "key";
  marshal_key = λ k. some (k ∷ []);
  parse_ec_key = text_key;
  parse_pkcs8_key = text_key;
  parse_pkcs1_key = λ b. none;
  ecdsa_signer = λ k. k;
  ecdsa_of = λ k. some k;
  random_serial = λ t. some t;
  create_certificate = λ t serial m parent own signer. text_certificate m parent;
  verifies = λ t parent c. signed_by parent c;
  can_sign = λ t c. true;
  parse_ip = λ s. some s;
  format_time = λ t. "now";
  not_after = λ c. "later";
  clock = λ t. t;
  parse_time = λ s. some 0;
  bytes_equal_iff = same_text_iff;
  decode_encode = λ kind b. refl;
  parse_marshal = λ k b h. ground (arith, h);
  parse_created = λ t serial m parent own signer der h e. (der, refl);
  verifies_created =
      λ t serial m parent own signer der c h g able. signed_by_created m parent der c h g;
}

module _ (C : Crypto) where
  abbrev pub Shelf : Type 0
  Shelf = String → String → Option (Secret C)

  unfoldable pub put : String → String → Option (Secret C) → Shelf → Shelf
  put ns name o s = λ ms key. if (ns == ms) && (name == key) then o else s ms key

  pub put_here :
      (ns name : String) (o : Option (Secret C)) (s : Shelf) → put ns name o s ns name ≡ o
  unfolding put
  put_here ns name o s = rw (eq_refl ns) (rw (eq_refl name) refl)

  pub put_elsewhere :
      (ns name : String) (o : Option (Secret C)) (s : Shelf) (ms key : String)
      → (ns ≢ ms) ⊎ (name ≢ key)
      → put ns name o s ms key ≡ s ms key
  unfolding put
  put_elsewhere ns name o s ms key d = ground (arith, d, eq_iff ns ms, eq_iff name key)

  unfoldable pub answer_of : Option (Secret C) → Answer (Secret C)
  answer_of none = not_found
  answer_of (some x) = succeeded x

  unfoldable pub create_at :
      Option (Secret C) → String → String → Secret C → Shelf → Answer Done × Shelf
  unfolding put
  create_at none ns name x s = (succeeded tt, put ns name (some x) s)
  create_at (some y) ns name x s = (failed, s)

  pub answer_found : (o : Option (Secret C)) (x : Secret C) → answer_of o ≡ succeeded x → o ≡ some x
  unfolding answer_of
  answer_found none x h = ground (arith, h)
  answer_found (some y) x h = ground (arith, h)

  pub answer_absent : (o : Option (Secret C)) → answer_of o ≡ not_found → o ≡ none
  unfolding answer_of
  answer_absent none h = refl
  answer_absent (some y) h = ground (arith, h)

  pub create_stored :
      (o : Option (Secret C)) (ns name : String) (x : Secret C) (s : Shelf)
      → (create_at o ns name x s).0 ≡ succeeded tt
      → (create_at o ns name x s).1 ns name ≡ some x
  unfolding create_at
  create_stored none ns name x s h = put_here ns name (some x) s
  create_stored (some y) ns name x s h = ground (arith, h)

  pub created_may :
      (o : Option (Secret C)) (ns name : String) (x : Secret C) (s : Shelf)
      → ((create_at o ns name x s).1 ns name ≡ s ns name)
        ⊎ ((create_at o ns name x s).1 ns name ≡ some x)
  unfolding create_at
  created_may none ns name x s = inr (put_here ns name (some x) s)
  created_may (some y) ns name x s = inl refl

  pub create_refused :
      (o : Option (Secret C)) (ns name : String) (x y : Secret C) (s : Shelf)
      → o ≡ some y
      → s ns name ≡ some y
      → (create_at o ns name x s).1 ns name ≡ some y
  unfolding create_at
  create_refused none ns name x y s e h = ground (arith, e)
  create_refused (some z) ns name x y s e h = h

  pub created_elsewhere :
      (o : Option (Secret C)) (ns name : String) (x : Secret C) (s : Shelf) (ms key : String)
      → (ns ≢ ms) ⊎ (name ≢ key)
      → (create_at o ns name x s).1 ms key ≡ s ms key
  unfolding create_at
  created_elsewhere none ns name x s ms key d = put_elsewhere ns name (some x) s ms key d
  created_elsewhere (some y) ns name x s ms key d = refl

  unfoldable pub memory : Api C
  unfolding put answer_of create_at
  memory = record {
    State = Shelf;
    stored = λ s ns name. s ns name;
    get = λ ns name s. (answer_of (s ns name), s);
    create = λ ns name x s. create_at (s ns name) ns name x s;
    update = λ ns name x s. (succeeded tt, put ns name (some x) s);
    remove = λ ns name s. (succeeded tt, put ns name none s);
    get_keeps = λ ns name s ms key. refl;
    get_found = λ ns name s x h. answer_found (s ns name) x h;
    get_absent = λ ns name s h. answer_absent (s ns name) h;
    create_stores = λ ns name x s h. create_stored (s ns name) ns name x s h;
    create_may = λ ns name x s. created_may (s ns name) ns name x s;
    create_refuses = λ ns name x y s h. create_refused (s ns name) ns name x y s h h;
    create_elsewhere = λ ns name x s ms key d. created_elsewhere (s ns name) ns name x s ms key d;
    update_stores = λ ns name x s h. put_here ns name (some x) s;
    update_elsewhere = λ ns name x s ms key d. put_elsewhere ns name (some x) s ms key d;
    remove_succeeded = λ ns name s h. put_here ns name none s;
    remove_not_found = λ ns name s h. put_here ns name none s;
    remove_elsewhere = λ ns name s ms key d. put_elsewhere ns name none s ms key d;
  }
