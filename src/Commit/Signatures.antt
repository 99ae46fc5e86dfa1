-- ===== src/Commit/Signatures.antt =====
-- lofire/src/commit.rs: `verify_sig` on a commit that `Commit::new` has signed.
use lofire_rs.Common.{
  ℕ, zero, suc, ◌+◌, Bytes, List, [], ◌∷◌, ◌++◌, take, drop, length, true, Option, none, some, ok,
  ap, ◌≡◌, refl, arith, ◌∙◌, take-append-drop,
}
use lofire_rs.Types.{Commit, CommitContentV0, ObjectRef, PrivKey, PubKey, Timestamp}
use lofire_rs.Commit.{Ed25519, new, new_v0, deps_acks, verify_sig}

take-all {ℓ} : {A : Type ℓ} (n : ℕ) (xs : List A) → length xs ≡ n → take n xs ≡ xs
take-all zero [] h = refl
take-all zero (x ∷ xs) h = absurd (omega arith)
take-all (suc n) [] h = refl
take-all (suc n) (x ∷ xs) h = ap (◌∷◌ x) (take-all n xs (omega arith))

length-drop {ℓ} : {A : Type ℓ} (m n : ℕ) (xs : List A) → length xs ≡ m + n → length (drop m xs) ≡ n
length-drop zero n xs h = omega arith
length-drop (suc m) n [] h = absurd (omega arith)
length-drop (suc m) n (x ∷ xs) h = length-drop m n xs (omega arith)

halves {ℓ} :
    {A : Type ℓ} (n : ℕ) (xs : List A) → length xs ≡ n + n → take n xs ++ take n (drop n xs) ≡ xs
halves n xs h =
    ap (◌++◌ (take n xs)) (take-all n (drop n xs) (length-drop n n xs h)) ∙ take-append-drop n xs

-- The public key `pk` verifies what the pair `kp` signs.
abbrev pub Signs : (ed : Ed25519) → ed.Keypair → ed.PublicKey → Type 0
Signs ed kp pk =
    (message : Bytes)
    → (s : ed.Signature) × (ed.signature_from_bytes (ed.sign kp message) ≡ some s)
      × (ed.verify_strict pk message s ≡ true)

-- With the bytes of a pair of keys that sign, `Commit::new` returns a commit of the given author,
-- dependencies and body that `verify_sig` accepts: the two halves of the signature are joined again.
pub verify_sig-new :
    (ed : Ed25519) (author_privkey : PrivKey) (author_pubkey : PubKey) (seq : ℕ)
    (branch : ObjectRef) (deps acks refs : List ObjectRef) (metadata : Bytes) (body : ObjectRef)
    (expiry : Option Timestamp) (kp : ed.Keypair) (pk : ed.PublicKey)
    → ed.keypair_from_bytes (author_privkey.ed25519_priv_key ++ author_pubkey.ed25519_pub_key)
      ≡ some kp
    → ed.public_key_from_bytes author_pubkey.ed25519_pub_key ≡ some pk
    → Signs ed kp pk
    → (c : Commit) × (new ed author_privkey author_pubkey seq branch deps acks refs metadata body
          expiry
        ≡ ok c)
      × (c.v0.content.author ≡ author_pubkey)
      × (deps_acks c ≡ acks ++ deps)
      × (c.v0.content.body ≡ body)
      × (verify_sig ed c ≡ ok tt)
unfolding new new_v0 verify_sig deps_acks
verify_sig-new ed sk pk seq branch deps acks refs metadata body expiry kp p paired public signs =
    let content : CommitContentV0 = record {
      author = pk;
      seq = seq;
      branch = branch;
      deps = deps;
      acks = acks;
      refs = refs;
      metadata = metadata;
      body = body;
      expiry = expiry;
    } in
    let message = ed.commit_content_to_vec content in
    let bytes = ed.sign kp message in
    let (s, read, valid) = signs message in
    let joined = halves 32 bytes (ed.length-sign kp message) in
    (
      record {
        v0 = record {
          id = none;
          key = none;
          content = content;
          sig = record { ed25519_sig = (take 32 bytes, take 32 (drop 32 bytes)) };
        };
      },
      simp paired,
      refl,
      refl,
      refl,
      simp (public, joined, read, valid),
    )
