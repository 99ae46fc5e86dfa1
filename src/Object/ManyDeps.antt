-- ===== src/Object/ManyDeps.antt =====
-- lofire/src/object.rs: objects with more than eight dependencies, whose list `make_deps` puts in an
-- object of its own.
use lofire_rs.Common.{
  ℕ, zero, suc, ◌≤◌, ◌<◌, Bytes, ap, none, ◌++◌, beq_ne, ok-injective, List, [], ◌∷◌, map, length,
  get_last?, Bool-cases, inl, inr, Option, some, ok, err, ◌>>=◌, All, All-map, ◌≡◌, ◌≢◌, arith, sym,
  ◌∙◌, contains, insert, lookup-insert, leb, Outcome,
}
use mathlib.Core.Option.{some-injective}
use mathlib.Core.Path.{subst}
use lofire_rs.Types.{
  Block, BlockId, ObjectContent, ObjectDeps, object_id_list, dep_list_ref, ObjectId, ObjectRef,
  PubKey, SymKey, Timestamp, digest_has_eq,
}
use lofire_rs.Crates.{Crates}
use lofire_rs.Block
use lofire_rs.Store.{not_found, store_valid_value_size}
use lofire_rs.Store.HashMap
use lofire_rs.Store.HashMap.{HashMapRepoStore, hash_map_repo_store}
use lofire_rs.Object.{Object, ObjectParseError, missing_blocks, id, key, root}
use lofire_rs.Object.Build.{new, make_blocks, make_deps, convergence_key}
use lofire_rs.Object.Loading.{
  with_key, get_last?-map, get_last?-set_root_key, deps-with_key, BlocksOf-load_tree,
}
use lofire_rs.Object.Persist.{
  Getter, Loaded, load_parents, load_tree, save_blocks, save, load, set_root_key,
}
use lofire_rs.Object.RoundTrip.{BlocksOf-Holds}
use lofire_rs.Object.SaveLoad.{NoCollision, save-Held, new-BlocksOf, deps-set_key, Stored-set_key}
use lofire_rs.Object.Shape.{BlocksOf, BlocksOf-deps, make_blocks-BlocksOf}
use lofire_rs.Object.Expiry.{Expires, BlocksOf-Expires}
use lofire_rs.Store.Sizes.{store_valid_value_size_bounds}
use lofire_rs.Object.Tree.{key_of, HasKey}
use lofire_rs.Object.Tree.Loading.{Stored, with_blocks}

-- A save leaves what is stored under other identifiers.
get-save_blocks :
    (x : Crates) (n : ℕ) (i : BlockId) (bs : List Block) (d : List ObjectId)
    (s s' : HashMapRepoStore)
    → All (λ b. Block.id x b ≢ i) bs
    → save_blocks x (hash_map_repo_store x n) bs d s ≡ ok s'
    → HashMap.get s' i ≡ HashMap.get s i
unfolding save_blocks HashMap.get HashMap.put
get-save_blocks x n i [] d s s' other saved =
    ap (λ t. HashMap.get t i) (sym (ok-injective s s' saved))
get-save_blocks x n i (b ∷ bs) d s s' other saved = elim (Bool-cases (contains (Block.id x b) d)) [
  | inl old ↦ get-save_blocks x n i bs d s s' other.1 (rw old at saved)
  | inr fresh ↦
      let ne = beq_ne (Block.id x b) i other.0 in
      get-save_blocks x n i bs (Block.id x b ∷ d)
        (record { blocks = insert (Block.id x b) (Block.set_key none b) s.blocks }) s' other.1
        (rw fresh at saved)
      ∙ simp (lookup-insert, ne)
]

-- A missing root is reported.
load_parents-missing :
    (get : Getter) (i : ObjectId) (s : Loaded)
    → get i ≡ err not_found
    → load_parents get (i ∷ []) [] s ≡ ok ([], record s { missing = s.missing ++ i ∷ [] })
unfolding load_parents
load_parents-missing get i s absent = rw (absent, load_parents)

pub load-missing :
    (x : Crates) (get : Getter) (n : ℕ) (i : ObjectId) (k : Option SymKey)
    → get i ≡ err not_found
    → load x get (suc n) i k ≡ err (missing_blocks (i ∷ []))
unfolding load load_tree
load-missing x get n i k absent = simp (load_parents-missing get i _ absent)

-- With its tree loaded, an object whose root refers to a list of dependencies is as good as that.
load_with_deps :
    (x : Crates) (get : Getter) (n : ℕ) (i : ObjectId) (k : Option SymKey) (blocks : List Block)
    (root : Block) (d : ObjectRef)
    → load_tree get (suc n) (i ∷ []) (with_blocks []) ≡ ok (with_blocks blocks)
    → get_last? (set_root_key k blocks) ≡ some root
    → Block.deps root ≡ dep_list_ref d
    → {e : ObjectParseError} → load x get n d.id (some d.key) ≡ err e
    → load x get (suc n) i k ≡ err e
unfolding load
load_with_deps x get n i k blocks root d tree last referred fails =
    simp (tree, last, referred, fails)

load-lost :
    (x : Crates) (conv_key : Bytes) (expiry : Option Timestamp) (get : Getter)
    (stored : Block → Block) {bytes : Bytes} {blocks : List Block} (n : ℕ) (d : ObjectRef)
    (root : Block) (key : Option SymKey)
    → BlocksOf x conv_key (dep_list_ref d) expiry bytes blocks
    → get_last? blocks ≡ some root
    → All (Stored x get stored) blocks
    → Block.deps (stored root) ≡ dep_list_ref d
    → get d.id ≡ err not_found
    → length blocks ≤ suc (suc n)
    → load x get (suc (suc n)) (Block.id x root) key ≡ err (missing_blocks (d.id ∷ []))
load-lost x conv_key expiry get stored {blocks = blocks} n d root key built last held referred
      absent enough =
    let last' =
      get_last?-set_root_key key (map stored blocks) (stored root)
        (get_last?-map stored blocks root last) in
    load_with_deps x get (suc n) (Block.id x root) key (map stored blocks)
      (with_key key (stored root)) d
      (BlocksOf-load_tree x conv_key (dep_list_ref d) expiry get stored (suc (suc n)) root built
        last held enough)
      last' (deps-with_key key (stored root) ∙ referred)
      (load-missing x get n d.id (some d.key) absent)

some_is_not_none : {A : Type 0} {a : A} → some a ≢ none
some_is_not_none h = cc

-- What holds of all elements holds of the last one.
All-last : {A : Type 0} (P : A → Type 0) (l : List A) (a : A) → All P l → get_last? l ≡ some a → P a
All-last P [] a all last = cc
All-last P (b ∷ []) a all last = subst P (some-injective _ _ last) all.0
All-last P (b ∷ c ∷ l) a all last = All-last P (c ∷ l) a all.1 last

module _ (x : Crates) (tagged : (c : ObjectContent) → 0 < length (x.object_content_to_vec c))
    (size_of_block : ℕ) where
  -- The blocks of the object that `make_deps` makes for a list of dependencies
  abbrev pub list_blocks : List ObjectId → ℕ → Bytes → Outcome ObjectParseError (List Block)
  list_blocks deps object_size conv_key =
      make_blocks x (ObjectContent.dep_list (record { v0 = deps })) 0 (object_id_list []) none
        (store_valid_value_size object_size) conv_key

  list-BlocksOf :
      (deps : List ObjectId) (object_size : ℕ) (conv_key : Bytes) (blocks : List Block)
      → list_blocks deps object_size conv_key ≡ ok blocks
      → BlocksOf x conv_key
          (object_id_list [])
          none
          (x.object_content_to_vec (ObjectContent.dep_list (record { v0 = deps })))
          blocks
  list-BlocksOf deps object_size conv_key blocks made =
      let c = ObjectContent.dep_list (record { v0 = deps }) in
      let (bs, bs_made, built) =
        make_blocks-BlocksOf x conv_key (object_id_list []) none {E = ObjectParseError} c 0
          (store_valid_value_size object_size) (tagged c)
          (store_valid_value_size_bounds object_size).0 in
      subst (BlocksOf x conv_key (object_id_list []) none (x.object_content_to_vec c))
        (ok-injective bs blocks (sym bs_made ∙ made)) built

  -- The reference that `make_deps` gives is to the root of the list's blocks.
  list_root :
      (deps : List ObjectId) (object_size : ℕ) (repo_pubkey : PubKey) (repo_secret : SymKey)
      (d : ObjectRef) (blocks : List Block) (root : Block)
      → make_deps x {E = ObjectParseError} deps object_size repo_pubkey repo_secret
        ≡ ok (dep_list_ref d)
      → list_blocks deps object_size (convergence_key x repo_pubkey repo_secret) ≡ ok blocks
      → get_last? blocks ≡ some root
      → HasKey root
      → Block.id x root ≡ d.id
  unfolding make_deps id key root
  list_root deps object_size repo_pubkey repo_secret d blocks root deps_made blocks_made last
        has_key =
      elim (Bool-cases (leb (length deps) 8)) [
        | inl few ↦ absurd (is_a_ref (ok-injective _ _ (rw few at deps_made)))
        | inr many ↦
            let made : ◌≡◌ {A = Outcome ObjectParseError ObjectDeps}
                (ok (dep_list_ref (record { id = Block.id x root; key = key_of root })))
                (ok (dep_list_ref d)) =
              sym (simp (many, blocks_made, last, has_key)) ∙ deps_made in
            some-injective _ _ (ap list_of (ok-injective _ _ made))
      ]
    where
      list_of : ObjectDeps → Option BlockId
      list_of (object_id_list l) = none
      list_of (dep_list_ref r) = some r.id

      is_a_ref : {l : List ObjectId} → object_id_list l ≢ dep_list_ref d
      is_a_ref h = cc

  -- Blocks that expire at different times differ.
  other_ids :
      (t : Timestamp) (i : BlockId) (bs U : List Block) (root : Block)
      → All (Expires (some t)) bs
      → All (Expires none) U
      → NoCollision x U bs
      → get_last? U ≡ some root
      → Block.id x root ≡ i
      → All (λ b. Block.id x b ≢ i) bs
  unfolding Block.set_key
  other_ids t i [] U root expiring lasting distinct last same = tt
  other_ids t i (b ∷ bs) U root expiring lasting distinct last same = (
    λ clash.
        let collide = All-last _ U root distinct.0 last (clash ∙ sym same) in
        let forever : Block.expiry root ≡ none = All-last _ U root lasting last in
        absurd (some_is_not_none (sym expiring.0 ∙ ap Block.expiry collide ∙ forever)),
    other_ids t i bs U root expiring.1 lasting distinct.1 last same,
  )

  -- Where `make_deps` gives a reference `d` to an object with the list of dependencies, as it does
  -- for more than eight, `save` does not store the blocks of that object: an object with an expiry
  -- that was saved without errors into a store that had nothing under the identifier of `d` cannot be
  -- loaded, whatever its content. No two different blocks, of the object or of the list, have one
  -- identifier.
  pub load-save_many_deps :
      (c : ObjectContent) (deps : List ObjectId) (t : Timestamp) (block_size : ℕ)
      (repo_pubkey : PubKey) (repo_secret : SymKey) (s : HashMapRepoStore) (d : ObjectRef)
      (o : Object) (list : List Block) (fuel : ℕ)
      → make_deps x {E = ObjectParseError} deps
          (store_valid_value_size block_size)
          repo_pubkey
          repo_secret
        ≡ ok (dep_list_ref d)
      → list_blocks deps
          (store_valid_value_size block_size)
          (convergence_key x repo_pubkey repo_secret)
        ≡ ok list
      → new x {E = ObjectParseError} c deps (some t) block_size repo_pubkey repo_secret ≡ ok o
      → NoCollision x o.blocks o.blocks
      → NoCollision x list o.blocks
      → HashMap.get s d.id ≡ err not_found
      → length o.blocks ≤ suc fuel
      → 0 < fuel
      → (s' : HashMapRepoStore) × (save x (hash_map_repo_store x size_of_block) o s ≡ ok s')
        × ((do i ← id x o; k ← key o; load x (HashMap.get s') (suc fuel) i k)
            ≡ err (missing_blocks (d.id ∷ [])))
  unfolding save id key root
  load-save_many_deps c deps t block_size repo_pubkey repo_secret s d o list zero deps_made
        list_made made distinct apart absent enough positive =
      absurd (omega arith)
  load-save_many_deps c deps t block_size repo_pubkey repo_secret s d o list (suc fuel) deps_made
        list_made made distinct apart absent enough positive =
      let conv_key = convergence_key x repo_pubkey repo_secret in
      let (built, _) =
        new-BlocksOf x tagged size_of_block c deps (some t) block_size repo_pubkey repo_secret
          (dep_list_ref d) o deps_made made in
      let list_built =
        list-BlocksOf deps (store_valid_value_size block_size) conv_key list list_made in
      let l = BlocksOf-Holds x conv_key (object_id_list []) none list_built in
      let other =
        other_ids t d.id o.blocks list l.root
          (BlocksOf-Expires x conv_key (dep_list_ref d) (some t) built)
          (BlocksOf-Expires x conv_key (object_id_list []) none list_built) apart l.last
          (list_root deps (store_valid_value_size block_size) repo_pubkey repo_secret d list l.root
            deps_made list_made l.last l.has_key) in
      let (s', saved, held) = save-Held x size_of_block o s distinct in
      let h = BlocksOf-Holds x conv_key (dep_list_ref d) (some t) built in
      let still_absent =
        get-save_blocks x size_of_block d.id o.blocks [] s s' other saved ∙ absent in
      (
        s',
        saved,
        simp (
          h.last,
          h.has_key,
          load-lost x conv_key (some t) (HashMap.get s') (Block.set_key none) fuel d h.root
              (some (key_of h.root)) built h.last (All-map _ _ o.blocks (Stored-set_key x s') held)
              (deps-set_key none h.root
                ∙ BlocksOf-deps x conv_key (dep_list_ref d) (some t) h.root built h.last)
              still_absent enough,
        ),
      )
