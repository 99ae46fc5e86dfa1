-- ===== src/Types.antt =====
-- lofire/src/types.rs: the data types of repositories.
-- An enum with the single variant V0 (or Blake3Digest32, ...) is a record with the single field of
-- that name. `[u8; n]` and `Vec<u8>` are byte strings, unsigned integers are native numbers, and a
-- `HashMap` is an association list.
use lofire_rs.Common.{
  ℕ, zero, suc, refl, Bytes, bytes_eq, bytes_eq_iff, Eq, ◌≡◌, ◌↔◌, Bool, true, Option, List, ap,
  sym, ◌∙◌, ◌==◌, nat_has_eq,
}

pub record Digest : Type 0 where
  pub blake3_digest32 : Bytes

pub record SymKey : Type 0 where
  pub chacha20_key : Bytes

-- `SymKey::slice`
unfoldable pub sym_key_slice : SymKey → Bytes
sym_key_slice k = k.chacha20_key

pub record PubKey : Type 0 where
  pub ed25519_pub_key : Bytes

-- `PubKey::slice`
unfoldable pub pub_key_slice : PubKey → Bytes
pub_key_slice k = k.ed25519_pub_key

pub record PrivKey : Type 0 where
  pub ed25519_priv_key : Bytes

pub record Sig : Type 0 where
  pub ed25519_sig : Bytes × Bytes

pub digest_eq_iff : (a b : Digest) → (bytes_eq a.blake3_digest32 b.blake3_digest32 ≡ true) ↔ (a ≡ b)
digest_eq_iff a b = (
  λ h. λ i. record { blake3_digest32 = (bytes_eq_iff _ _).0 h i },
  λ p. (bytes_eq_iff _ _).1 (ap (λ (d : Digest). d.blake3_digest32) p),
)

pub pub_key_eq_iff :
    (a b : PubKey) → (bytes_eq a.ed25519_pub_key b.ed25519_pub_key ≡ true) ↔ (a ≡ b)
pub_key_eq_iff a b = (
  λ h. λ i. record { ed25519_pub_key = (bytes_eq_iff _ _).0 h i },
  λ p. (bytes_eq_iff _ _).1 (ap (λ (d : PubKey). d.ed25519_pub_key) p),
)

-- Derived equality of the types that are compared.
instance abbrev pub digest_has_eq : Eq Digest
digest_has_eq = record {
  beq = λ a b. bytes_eq a.blake3_digest32 b.blake3_digest32;
  beq_iff = digest_eq_iff;
}

instance abbrev pub pub_key_has_eq : Eq PubKey
pub_key_has_eq = record {
  beq = λ a b. bytes_eq a.ed25519_pub_key b.ed25519_pub_key;
  beq_iff = pub_key_eq_iff;
}

-- Minutes since 2022-02-22 22:22 UTC.
abbrev pub Timestamp : Type 0
Timestamp = ℕ

pub data RelTime : Type 0 where
  seconds : ℕ → RelTime
  minutes : ℕ → RelTime
  hours : ℕ → RelTime
  days : ℕ → RelTime

pub record BloomFilter : Type 0 where
  pub k : ℕ
  pub f : Bytes

abbrev pub BloomFilter128 : Type 0
BloomFilter128 = List Bytes

abbrev pub BlockId : Type 0
BlockId = Digest

pub record BlockRef : Type 0 where
  pub id : BlockId
  pub key : SymKey

abbrev pub ObjectId : Type 0
ObjectId = BlockId

abbrev pub ObjectRef : Type 0
ObjectRef = BlockRef

pub data BlockContentV0 : Type 0 where
  internal_node : List SymKey → BlockContentV0
  data_chunk : Bytes → BlockContentV0

pub record DepList : Type 0 where
  pub v0 : List ObjectId

pub data ObjectDeps : Type 0 where
  object_id_list : List ObjectId → ObjectDeps
  dep_list_ref : ObjectRef → ObjectDeps

-- `id` and `key` are skipped by serde.
pub record BlockV0 : Type 0 where
  pub id : Option BlockId
  pub key : Option SymKey
  pub children : List BlockId
  pub deps : ObjectDeps
  pub expiry : Option Timestamp
  pub content : Bytes

pub record Block : Type 0 where
  pub v0 : BlockV0

pub record RepositoryV0 : Type 0 where
  pub id : PubKey
  pub branches : List ObjectRef
  pub allow_ext_requests : Bool
  pub metadata : Bytes

pub record Repository : Type 0 where
  pub v0 : RepositoryV0

pub record AddBranch : Type 0 where
  pub v0 : ObjectRef

pub record RemoveBranch : Type 0 where
  pub v0 : ObjectRef

pub data CommitType : Type 0 where
  repository add_branch remove_branch branch add_members end_of_branch : CommitType
  transaction snapshot ack : CommitType

-- The derived equality of `CommitType` compares the places of the variants.
unfoldable pub discriminant : CommitType → ℕ
discriminant CommitType.repository = 0
discriminant CommitType.add_branch = 1
discriminant CommitType.remove_branch = 2
discriminant CommitType.branch = 3
discriminant CommitType.add_members = 4
discriminant CommitType.end_of_branch = 5
discriminant CommitType.transaction = 6
discriminant CommitType.snapshot = 7
discriminant CommitType.ack = 8

of_discriminant : ℕ → CommitType
of_discriminant zero = CommitType.repository
of_discriminant (suc zero) = CommitType.add_branch
of_discriminant (suc (suc zero)) = CommitType.remove_branch
of_discriminant (suc (suc (suc zero))) = CommitType.branch
of_discriminant (suc (suc (suc (suc zero)))) = CommitType.add_members
of_discriminant (suc (suc (suc (suc (suc zero))))) = CommitType.end_of_branch
of_discriminant (suc (suc (suc (suc (suc (suc zero)))))) = CommitType.transaction
of_discriminant (suc (suc (suc (suc (suc (suc (suc zero))))))) = CommitType.snapshot
of_discriminant _ = CommitType.ack

of_discriminant-discriminant : (t : CommitType) → of_discriminant (discriminant t) ≡ t
unfolding of_discriminant discriminant
of_discriminant-discriminant CommitType.repository = refl
of_discriminant-discriminant CommitType.add_branch = refl
of_discriminant-discriminant CommitType.remove_branch = refl
of_discriminant-discriminant CommitType.branch = refl
of_discriminant-discriminant CommitType.add_members = refl
of_discriminant-discriminant CommitType.end_of_branch = refl
of_discriminant-discriminant CommitType.transaction = refl
of_discriminant-discriminant CommitType.snapshot = refl
of_discriminant-discriminant CommitType.ack = refl

pub commit_type_eq_iff : (a b : CommitType) → ((discriminant a == discriminant b) ≡ true) ↔ (a ≡ b)
commit_type_eq_iff a b = (
  λ h.
      sym (of_discriminant-discriminant a)
      ∙ ap of_discriminant ((nat_has_eq.beq_iff _ _).0 h)
      ∙ of_discriminant-discriminant b,
  λ p. (nat_has_eq.beq_iff _ _).1 (ap discriminant p),
)

instance abbrev pub commit_type_has_eq : Eq CommitType
commit_type_has_eq = record {
  beq = λ a b. discriminant a == discriminant b;
  beq_iff = commit_type_eq_iff;
}

pub record MemberV0 : Type 0 where
  pub id : PubKey
  pub commit_types : List CommitType
  pub metadata : Bytes

pub record Member : Type 0 where
  pub v0 : MemberV0

pub record BranchV0 : Type 0 where
  pub id : PubKey
  pub topic : PubKey
  pub secret : SymKey
  pub members : List MemberV0
  pub quorum : List (CommitType × ℕ)
  pub ack_delay : RelTime
  pub tags : Bytes
  pub metadata : Bytes

pub record Branch : Type 0 where
  pub v0 : BranchV0

pub record AddMembersV0 : Type 0 where
  pub members : List MemberV0
  pub quorum : Option (List (CommitType × ℕ))
  pub ack_delay : Option RelTime

pub record AddMembers : Type 0 where
  pub v0 : AddMembersV0

pub data PlainOrEncryptedObjectRef : Type 0 where
  plain : ObjectRef → PlainOrEncryptedObjectRef
  encrypted : Bytes → PlainOrEncryptedObjectRef

pub record EndOfBranchV0 : Type 0 where
  pub fork : Option PlainOrEncryptedObjectRef
  pub expiry : Timestamp

pub record EndOfBranch : Type 0 where
  pub v0 : EndOfBranchV0

pub record Transaction : Type 0 where
  pub v0 : Bytes

pub record SnapshotV0 : Type 0 where
  pub heads : List ObjectId
  pub content : Bytes

pub record Snapshot : Type 0 where
  pub v0 : SnapshotV0

pub data Ack : Type 0 where
  v0 : Ack

pub data CommitBody : Type 0 where
  repository : Repository → CommitBody
  add_branch : AddBranch → CommitBody
  remove_branch : RemoveBranch → CommitBody
  branch : Branch → CommitBody
  add_members : AddMembers → CommitBody
  end_of_branch : EndOfBranch → CommitBody
  transaction : Transaction → CommitBody
  snapshot : Snapshot → CommitBody
  ack : Ack → CommitBody

pub record CommitContentV0 : Type 0 where
  pub author : PubKey
  pub seq : ℕ
  pub branch : ObjectRef
  pub deps : List ObjectRef
  pub acks : List ObjectRef
  pub refs : List ObjectRef
  pub metadata : Bytes
  pub body : ObjectRef
  pub expiry : Option Timestamp

-- `id` and `key` are skipped by serde.
pub record CommitV0 : Type 0 where
  pub id : Option ObjectId
  pub key : Option SymKey
  pub content : CommitContentV0
  pub sig : Sig

pub record Commit : Type 0 where
  pub v0 : CommitV0

pub record FileV0 : Type 0 where
  pub content_type : Bytes
  pub metadata : Bytes
  pub content : Bytes

pub record File : Type 0 where
  pub v0 : FileV0

pub data ObjectContent : Type 0 where
  commit : Commit → ObjectContent
  commit_body : CommitBody → ObjectContent
  file : File → ObjectContent
  dep_list : DepList → ObjectContent
