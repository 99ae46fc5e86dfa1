-- ===== src/Tests/Commits.antt =====
-- Commits that are signed and verified.
use lofire_rs.Commit.Sets.{Ends}
use lofire_rs.Common.{
  contains, ℕ, zero, suc, Bytes, [], ◌∷◌, ◌++◌, length, true, false, beq, none, some, ok, err, ◌≡◌,
  refl, if◌then◌else◌, get_elem?,
}
use lofire_rs.Types.{
  Block, Commit, CommitContentV0, CommitType, data_chunk, Digest, ObjectId, object_id_list,
  ObjectRef, PubKey, SymKey, digest_has_eq,
}
use lofire_rs.Block
use lofire_rs.Store.{not_found}
use lofire_rs.Object.Build.{make_block}
use lofire_rs.Object.Read
use lofire_rs.Object.Persist
use lofire_rs.Object.Persist.{Getter}
use lofire_rs.Commit.{Ed25519, deps_acks, new, verify_sig}
use lofire_rs.Commit.Load.{load, load_body}
use lofire_rs.Commit.Signatures.{Signs, verify_sig-new}
use lofire_rs.Tests.Crate.{
  crates, author, object_ref, commit_content, commit_with, branch_block_id, root_block_id,
  ack_block_id,
}

abbrev repeat : ℕ → Bytes
repeat zero = []
repeat (suc n) = 7 ∷ repeat n

one_byte : ℕ → Block
unfolding make_block
one_byte b =
    make_block crates (crates.block_content_to_vec (data_chunk (b ∷ []))) [] [] (object_id_list [])
      none

abbrev digest : Bytes → Digest
digest i = record { blake3_digest32 = i }

abbrev get : Getter
get i =
    if beq (digest branch_block_id) i
    then ok (one_byte 1)
    else if beq (digest root_block_id) i
    then ok (one_byte 0)
    else if beq (digest ack_block_id) i
    then ok (one_byte 3)
    else err not_found

-- A commit that depends on the root of the branch.
abbrev ack_commit : Commit
ack_commit = commit_with (commit_content (object_ref root_block_id ∷ []) ack_block_id)

abbrev with_key : Bytes → SymKey → ObjectRef
with_key i k = record { id = record { blake3_digest32 = i }; key = k }

abbrev EndsAt : ObjectId → SymKey → Type 0
EndsAt i k =
    Ends (load crates get 2 (record { id = i; key = k }))
    × Ends (
        load_body crates get 2
          (commit_with (record (commit_content [] []) { body = record { id = i; key = k } })))

abbrev LoadsOnlyRoot : ObjectId → SymKey → Type 0
LoadsOnlyRoot i k =
    (c : Commit)
    → load crates get 2 (record { id = i; key = k }) ≡ ok c
    → contains i (digest root_block_id ∷ []) ≡ true

-- A signature scheme that accepts every signature of 64 bytes.
abbrev pub scheme : Ed25519
scheme = record {
  commit_content_to_vec = λ content. content.author.ed25519_pub_key;
  Keypair = Bytes;
  PublicKey = Bytes;
  Signature = Bytes;
  keypair_from_bytes = some;
  public_key_from_bytes = some;
  signature_from_bytes = some;
  sign = λ kp message. repeat 64;
  length-sign = λ kp message. refl;
  verify_strict = λ pk message s. true;
}

signs : Signs scheme (1 ∷ 2 ∷ []) (2 ∷ [])
signs message = (_, refl, refl)

verify_sig-new_example :
    (c : Commit) × (new scheme
        (record { ed25519_priv_key = 1 ∷ [] })
        (record { ed25519_pub_key = 2 ∷ [] })
        4
        (object_ref [])
        (object_ref (7 ∷ []) ∷ [])
        (object_ref (8 ∷ []) ∷ [])
        []
        []
        (object_ref ack_block_id)
        none
      ≡ ok c)
    × (c.v0.content.author ≡ record { ed25519_pub_key = 2 ∷ [] })
    × (deps_acks c ≡ object_ref (8 ∷ []) ∷ object_ref (7 ∷ []) ∷ [])
    × (c.v0.content.body ≡ object_ref ack_block_id)
    × (verify_sig scheme c ≡ ok tt)
verify_sig-new_example =
    verify_sig-new scheme (record { ed25519_priv_key = 1 ∷ [] })
      (record { ed25519_pub_key = 2 ∷ [] }) 4 (object_ref []) (object_ref (7 ∷ []) ∷ [])
      (object_ref (8 ∷ []) ∷ []) [] [] (object_ref ack_block_id) none (1 ∷ 2 ∷ []) (2 ∷ []) refl
      refl signs
