-- ===== src/Tests/Serial.antt =====
-- A stand-in for serde_bare that reads back what it writes, from a string that may go on.
use lofire_rs.Common.{ℕ, zero, suc, Bytes, List, [], ◌∷◌, Option, none, some, ◌≡◌, refl}
use lofire_rs.Types.{
  Block, BlockId, Digest, SymKey, ObjectDeps, object_id_list, dep_list_ref, Timestamp,
}
use lofire_rs.Crates.{skip_block}

pub record Serial (A : Type 0) : Type 0 where
  pub write : A → Bytes → Bytes
  pub read : Bytes → Option (A × Bytes)
  pub read_write : (a : A) (rest : Bytes) → read (write a rest) ≡ some (a, rest)

then_read : {A B : Type 0} → Option (A × Bytes) → (A → Bytes → Option B) → Option B
then_read none f = none
then_read (some (a, rest)) f = f a rest

read_nat : Bytes → Option (ℕ × Bytes)
read_nat [] = none
read_nat (n ∷ rest) = some (n, rest)

pub nat : Serial ℕ
unfolding read_nat
nat = record { write = λ n rest. n ∷ rest; read = read_nat; read_write = λ n rest. refl }

module _ {A B : Type 0} (s : Serial A) where
  -- A type that is written as another one.
  pub through : (to : B → A) (from : A → B) → ((b : B) → from (to b) ≡ b) → Serial B
  unfolding then_read
  through to from back = record {
    write = λ b rest. s.write (to b) rest;
    read = λ bytes. then_read (s.read bytes) (λ a rest. some (from a, rest));
    read_write = λ b rest. rw (s.read_write, back b);
  }

  pub pair : Serial B → Serial (A × B)
  unfolding then_read
  pair t = record {
    write = λ p rest. s.write p.0 (t.write p.1 rest);
    read = λ bytes.
        then_read (s.read bytes)
          (λ a rest. then_read (t.read rest) (λ b rest'. some ((a, b), rest')));
    read_write = λ p rest. rw (s.read_write, t.read_write);
  }

module _ {A : Type 0} (s : Serial A) where
  write_all : List A → Bytes → Bytes
  write_all [] rest = rest
  write_all (a ∷ as') rest = s.write a (write_all as' rest)

  cons_to : A → List A × Bytes → Option (List A × Bytes)
  cons_to a (as', rest) = some (a ∷ as', rest)

  read_all : ℕ → Bytes → Option (List A × Bytes)
  unfolding then_read
  read_all zero bytes = some ([], bytes)
  read_all (suc n) bytes =
      then_read (s.read bytes)
        (λ a rest. then_read (read_all n rest) (λ as' rest'. some (a ∷ as', rest')))

  count : List A → ℕ
  count [] = zero
  count (a ∷ as') = suc (count as')

  read_all-write_all :
      (as' : List A) (rest : Bytes) → read_all (count as') (write_all as' rest) ≡ some (as', rest)
  unfolding write_all read_all count then_read
  read_all-write_all [] rest = refl
  read_all-write_all (a ∷ as') rest = rw (s.read_write, read_all-write_all as' rest)

  pub list : Serial (List A)
  unfolding then_read read_nat
  list = record {
    write = λ as' rest. count as' ∷ write_all as' rest;
    read = λ bytes. then_read (read_nat bytes) read_all;
    read_write = read_all-write_all;
  }

pub bytes : Serial Bytes
bytes = list nat

option_list : {A : Type 0} → Option A → List A
option_list none = []
option_list (some a) = a ∷ []

list_option : {A : Type 0} → List A → Option A
list_option [] = none
list_option (a ∷ _) = some a

list_option-option_list : {A : Type 0} (o : Option A) → list_option (option_list o) ≡ o
unfolding list_option option_list
list_option-option_list none = refl
list_option-option_list (some a) = refl

option : {A : Type 0} → Serial A → Serial (Option A)
option s = through (list s) option_list list_option list_option-option_list

pub digest : Serial Digest
digest = through bytes (λ d. d.blake3_digest32) (λ b. record { blake3_digest32 = b }) (λ d. refl)

pub key : Serial SymKey
key = through bytes (λ k. k.chacha20_key) (λ b. record { chacha20_key = b }) (λ k. refl)

deps_parts : ObjectDeps → List BlockId × Option (BlockId × SymKey)
deps_parts (object_id_list l) = (l, none)
deps_parts (dep_list_ref r) = ([], some (r.id, r.key))

parts_deps : List BlockId × Option (BlockId × SymKey) → ObjectDeps
parts_deps (l, none) = object_id_list l
parts_deps (l, some (i, k)) = dep_list_ref (record { id = i; key = k })

parts_deps-deps_parts : (d : ObjectDeps) → parts_deps (deps_parts d) ≡ d
unfolding deps_parts parts_deps
parts_deps-deps_parts (object_id_list l) = refl
parts_deps-deps_parts (dep_list_ref r) = refl

deps : Serial ObjectDeps
deps =
    through (pair (list digest) (option (pair digest key))) deps_parts parts_deps
      parts_deps-deps_parts

-- The fields of a block that are not skipped.
fields : Serial ((List BlockId × ObjectDeps) × (Option Timestamp × Bytes))
fields = pair (pair (list digest) deps) (pair (option nat) bytes)

pub write_block : Block → Bytes
write_block b = fields.write ((b.v0.children, b.v0.deps), (b.v0.expiry, b.v0.content)) []

of_fields :
    Option (((List BlockId × ObjectDeps) × (Option Timestamp × Bytes)) × Bytes) → Option Block
of_fields none = none
of_fields (some (((c, d), (e, b)), _)) = some (record {
  v0 = record { id = none; key = none; children = c; deps = d; expiry = e; content = b };
})

pub read_block : Bytes → Option Block
read_block l = of_fields (fields.read l)

pub read_block-write_block : (b : Block) → read_block (write_block b) ≡ some (skip_block b)
unfolding write_block read_block of_fields
read_block-write_block b =
    rw (fields.read_write ((b.v0.children, b.v0.deps), (b.v0.expiry, b.v0.content)) [])

pub write_block-skip_block : (b : Block) → write_block (skip_block b) ≡ write_block b
unfolding write_block
write_block-skip_block b = refl

pub write_block-cons : (b : Block) → (n : ℕ) × (l : Bytes) × (write_block b ≡ n ∷ l)
unfolding write_block fields pair list through
write_block-cons b = (_, _, refl)
