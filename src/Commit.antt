-- ===== src/Commit.antt =====
-- lofire/src/commit.rs: construction, signatures and accessors of commits.
-- `Load` loads commits and their bodies and walks a branch, `Verify` checks a commit.
pub mod Load
pub mod Verify
pub mod Missing
pub mod Walk
pub mod Sets
pub mod Deps
pub mod Ends
pub mod Checked
pub mod Signatures
use lofire_rs.Common.{
  ℕ, Bytes, List, ◌++◌, take, drop, chunks, Bool, true, Option, none, some, Outcome, ok, err, ◌>>=◌,
  ok_or, if◌then◌else◌, ◌≡◌, length,
}
use lofire_rs.Types.{
  Commit, CommitBody, CommitContentV0, CommitType, CommitV0, ObjectId, ObjectRef, PrivKey, PubKey,
  Sig, SymKey, Timestamp,
}

pub data CommitLoadError : Type 0 where
  missing_blocks : List ObjectId → CommitLoadError
  object_parse_error deserialize_error : CommitLoadError

pub data CommitVerifyError : Type 0 where
  invalid_signature permission_denied : CommitVerifyError
  body_load_error dep_load_error : CommitLoadError → CommitVerifyError

-- `ed25519_dalek::SignatureError`, which has no visible content.
pub data SignatureError : Type 0 where
  signature_error : SignatureError

-- What is used of the ed25519_dalek crate, and `serde_bare::to_vec` of the content of a commit.
pub record Ed25519 : Type 1 where
  pub commit_content_to_vec : CommitContentV0 → Bytes
  pub Keypair : Type 0
  pub PublicKey : Type 0
  pub Signature : Type 0
  pub keypair_from_bytes : Bytes → Option Keypair
  pub public_key_from_bytes : Bytes → Option PublicKey
  pub signature_from_bytes : Bytes → Option Signature
  -- `Keypair::sign`, then `to_bytes`
  pub sign : Keypair → Bytes → Bytes
  pub length-sign : (kp : Keypair) (message : Bytes) → length (sign kp message) ≡ 64
  pub verify_strict : PublicKey → Bytes → Signature → Bool

-- `CommitBody::to_type`
unfoldable pub to_type : CommitBody → CommitType
to_type (CommitBody.ack _) = CommitType.ack
to_type (CommitBody.add_branch _) = CommitType.add_branch
to_type (CommitBody.add_members _) = CommitType.add_members
to_type (CommitBody.branch _) = CommitType.branch
to_type (CommitBody.end_of_branch _) = CommitType.end_of_branch
to_type (CommitBody.remove_branch _) = CommitType.remove_branch
to_type (CommitBody.repository _) = CommitType.repository
to_type (CommitBody.snapshot _) = CommitType.snapshot
to_type (CommitBody.transaction _) = CommitType.transaction

module _ (ed : Ed25519) where
  -- `CommitV0::new`. The two halves of a signature are its two chunks of 32 bytes.
  unfoldable pub new_v0 :
      PrivKey
      → PubKey
      → ℕ
      → ObjectRef
      → List ObjectRef
      → List ObjectRef
      → List ObjectRef
      → Bytes
      → ObjectRef
      → Option Timestamp
      → Outcome SignatureError CommitV0
  new_v0 author_privkey author_pubkey seq branch deps acks refs metadata body expiry = do
    let content : CommitContentV0 = record {
      author = author_pubkey;
      seq = seq;
      branch = branch;
      deps = deps;
      acks = acks;
      refs = refs;
      metadata = metadata;
      body = body;
      expiry = expiry;
    }
    let content_ser = ed.commit_content_to_vec content
    let kp = author_privkey.ed25519_priv_key ++ author_pubkey.ed25519_pub_key
    keypair ← ok_or signature_error (ed.keypair_from_bytes kp)
    let sig_bytes = ed.sign keypair content_ser
    let sig : Sig = record { ed25519_sig = (take 32 sig_bytes, take 32 (drop 32 sig_bytes)) }
    ok (record { id = none; key = none; content = content; sig = sig })

  -- `Commit::new`
  unfoldable pub new :
      PrivKey
      → PubKey
      → ℕ
      → ObjectRef
      → List ObjectRef
      → List ObjectRef
      → List ObjectRef
      → Bytes
      → ObjectRef
      → Option Timestamp
      → Outcome SignatureError Commit
  unfolding new_v0
  new author_privkey author_pubkey seq branch deps acks refs metadata body expiry = do
    c ← new_v0 author_privkey author_pubkey seq branch deps acks refs metadata body expiry
    ok (record { v0 = c })

  -- `Commit::verify_sig`
  unfoldable pub verify_sig : Commit → Outcome {0} SignatureError Unit
  verify_sig c = do
    let content_ser = ed.commit_content_to_vec c.v0.content
    pk ← ok_or signature_error (ed.public_key_from_bytes c.v0.content.author.ed25519_pub_key)
    let sig_bytes = c.v0.sig.ed25519_sig.0 ++ c.v0.sig.ed25519_sig.1
    sig ← ok_or signature_error (ed.signature_from_bytes sig_bytes)
    if ed.verify_strict pk content_ser sig then ok tt else err signature_error

-- `Commit::id`, `key`, `sig`, `content`, `acks`, `deps`, `seq`
abbrev pub id : Commit → Option ObjectId
id c = c.v0.id

abbrev pub key : Commit → Option SymKey
key c = c.v0.key

abbrev pub sig : Commit → Sig
sig c = c.v0.sig

abbrev pub content : Commit → CommitContentV0
content c = c.v0.content

abbrev pub acks : Commit → List ObjectRef
acks c = c.v0.content.acks

abbrev pub deps : Commit → List ObjectRef
deps c = c.v0.content.deps

abbrev pub seq : Commit → ℕ
seq c = c.v0.content.seq

-- `Commit::deps_acks`: the acks, then the deps
unfoldable pub deps_acks : Commit → List ObjectRef
deps_acks c = acks c ++ deps c

-- `Commit::set_id`, `set_key`
unfoldable pub set_id : ObjectId → Commit → Commit
set_id i c = record { v0 = record c.v0 { id = some i } }

unfoldable pub set_key : SymKey → Commit → Commit
set_key k c = record { v0 = record c.v0 { key = some k } }
