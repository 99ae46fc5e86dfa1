-- ===== src/Tests/Crate.antt =====
-- A stand-in for the crates, with small functions that have the properties that are relied on.
use lofire_rs.Common.{
  ℕ, zero, suc, Bytes, List, [], ◌∷◌, ◌++◌, map, length, concat, Option, none, some, if◌then◌else◌,
  ◌==◌, ◌≡◌, refl, arith, ap, ◌<◌, ◌∙◌,
}
use mathlib.Core.List.{reverse, reverse-reverse}
use lofire_rs.Types.{
  Ack, Block, Branch, Commit, CommitBody, CommitContentV0, CommitType, ObjectRef, PubKey, RelTime,
  BlockContentV0, internal_node, data_chunk, Digest, ObjectContent, SymKey,
}
use lofire_rs.Crates.{Crates}

-- Every byte goes up by one, and a zero ends a string.
write_string : Bytes → Bytes
write_string [] = 0 ∷ []
write_string (b ∷ bs) = suc b ∷ write_string bs

write_keys : List SymKey → Bytes
write_keys [] = []
write_keys (k ∷ ks) = write_string k.chacha20_key ++ write_keys ks

push : ℕ → List SymKey → List SymKey
push b [] = []
push b (k ∷ ks) = record { chacha20_key = b ∷ k.chacha20_key } ∷ ks

read_keys : Bytes → List SymKey
read_keys [] = []
read_keys (zero ∷ bs) = record { chacha20_key = [] } ∷ read_keys bs
read_keys (suc b ∷ bs) = push b (read_keys bs)

read_keys-write_string :
    (k : Bytes) (rest : Bytes)
    → read_keys (write_string k ++ rest) ≡ record { chacha20_key = k } ∷ read_keys rest
unfolding write_string read_keys push
read_keys-write_string [] rest = refl
read_keys-write_string (b ∷ bs) rest = rw (read_keys-write_string bs rest)

read_keys-write_keys : (ks : List SymKey) → read_keys (write_keys ks) ≡ ks
unfolding write_keys read_keys
read_keys-write_keys [] = refl
read_keys-write_keys (k ∷ ks) =
    read_keys-write_string k.chacha20_key (write_keys ks) ∙ ap (◌∷◌ k) (read_keys-write_keys ks)

pub write_content : BlockContentV0 → Bytes
unfolding write_keys write_string
write_content (internal_node keys) = 0 ∷ write_keys keys
write_content (data_chunk chunk) = 1 ∷ chunk

pub read_content : Bytes → Option BlockContentV0
unfolding read_keys push
read_content [] = none
read_content (zero ∷ bs) = some (internal_node (read_keys bs))
read_content (suc t ∷ bs) = if t == 0 then some (data_chunk bs) else none

pub read_content-write_content : (c : BlockContentV0) → read_content (write_content c) ≡ some c
unfolding read_content write_content
read_content-write_content (internal_node keys) =
    ap (λ ks. some (internal_node ks)) (read_keys-write_keys keys)
read_content-write_content (data_chunk chunk) = refl

-- Only files are written in full.
write_object : ObjectContent → Bytes
write_object (ObjectContent.commit _) = 0 ∷ []
write_object (ObjectContent.commit_body _) = 1 ∷ []
write_object (ObjectContent.file f) = 2 ∷ f.v0.content
write_object (ObjectContent.dep_list _) = 4 ∷ []

unfoldable pub file_of : Bytes → ObjectContent
file_of bytes =
    ObjectContent.file
      (record { v0 = record { content_type = []; metadata = []; content = bytes } })

abbrev pub author : PubKey
author = record { ed25519_pub_key = 1 ∷ [] }

abbrev pub object_ref : Bytes → ObjectRef
object_ref i = record { id = record { blake3_digest32 = i }; key = record { chacha20_key = [] } }

-- A branch on which the author may make commits of two types.
abbrev pub branch : Branch
branch = record {
  v0 = record {
    id = author;
    topic = author;
    secret = record { chacha20_key = [] };
    members =
        record {
          id = author;
          commit_types = CommitType.ack ∷ CommitType.branch ∷ [];
          metadata = [];
        }
        ∷ [];
    quorum = [];
    ack_delay = RelTime.minutes 3;
    tags = [];
    metadata = [];
  };
}

abbrev pub commit_content : List ObjectRef → Bytes → CommitContentV0
commit_content deps body = record {
  author = author;
  seq = 0;
  branch = object_ref [];
  deps = deps;
  acks = [];
  refs = [];
  metadata = [];
  body = object_ref body;
  expiry = none;
}

abbrev pub commit_with : CommitContentV0 → Commit
commit_with content = record {
  v0 = record { id = none; key = none; content = content; sig = record { ed25519_sig = ([], []) } };
}

-- The identifiers of the blocks that hold the one byte 1, 0 and 3.
abbrev pub branch_block_id : Bytes
branch_block_id = 1 ∷ 1 ∷ []

abbrev pub root_block_id : Bytes
root_block_id = 0 ∷ 1 ∷ []

abbrev pub ack_block_id : Bytes
ack_block_id = 3 ∷ 1 ∷ []

-- Each byte at the start of an object stands for one content, but that of a file.
read_object : Bytes → Option ObjectContent
unfolding file_of
read_object [] = none
read_object (t ∷ bs) =
    if t == 0
    then some (ObjectContent.commit (commit_with (commit_content [] branch_block_id)))
    else if t == 1
    then some (ObjectContent.commit_body (CommitBody.branch branch))
    else if t == 2
    then some (file_of bs)
    else if t == 3
    then some (ObjectContent.commit_body (CommitBody.ack Ack.v0))
    else none

write_block : Block → Bytes
write_block b = concat (map (λ (d : Digest). d.blake3_digest32) b.v0.children) ++ b.v0.content

write_object_tagged : (c : ObjectContent) → 0 < length (write_object c)
unfolding write_object
write_object_tagged (ObjectContent.commit _) = omega arith
write_object_tagged (ObjectContent.commit_body _) = omega arith
write_object_tagged (ObjectContent.file f) = omega arith
write_object_tagged (ObjectContent.dep_list _) = omega arith

unfoldable pub crates : Crates
unfolding write_content read_content write_object read_object write_block
crates = record {
  hash = λ bytes. bytes;
  keyed_hash = λ key bytes. key ++ bytes;
  derive_key = λ context material. material;
  apply_keystream = λ key nonce buf. reverse buf;
  apply_keystream_twice = λ key nonce buf. reverse-reverse buf;
  block_to_vec = write_block;
  block_to_vec_skip = λ b. refl;
  block_content_to_vec = write_content;
  block_content_from_slice = read_content;
  block_content_round_trip = read_content-write_content;
  object_content_to_vec = write_object;
  object_content_from_slice = read_object;
}

pub tagged : (c : ObjectContent) → 0 < length (crates.object_content_to_vec c)
unfolding crates
tagged c = write_object_tagged c
