-- ===== src/Object/SaveLoad.antt =====
-- Saving an object in the store of store.rs and loading it again.
use lofire_rs.Common.{
  ℕ, ◌-◌, ◌≤◌, ◌<◌, Bytes, List, [], ◌∷◌, map, length, Bool-cases, true, Option, none, some, ok,
  ◌>>=◌, All, All-map₂, All-map, All-of, le→leb, ok-injective, ◌≡◌, refl, ap, inl, inr, sym, ◌∙◌,
  contains, insert, lookup-insert, beq, eq_of_beq, beq_refl, contains-cons, contains-tail,
}
use mathlib.Core.Path.{subst}
use lofire_rs.Types.{
  Block, BlockId, ObjectContent, ObjectDeps, object_id_list, ObjectId, PubKey, SymKey, Timestamp,
  digest_has_eq,
}
use lofire_rs.Crates.{Crates}
use lofire_rs.Block
use lofire_rs.Block.Ids.{id-set_key}
use lofire_rs.Store.HashMap
use lofire_rs.Store.HashMap.{HashMapRepoStore, hash_map_repo_store}
use lofire_rs.Object.{Object, ObjectParseError}
use lofire_rs.Object.{id, key, root}
use lofire_rs.Object.Build.{new, make_deps, convergence_key}
use lofire_rs.Object.Copies.{Copies, length-Copies, collect_leaves-Copies}
use lofire_rs.Object.Loading.{with_key, get_last?-map, get_last?-set_root_key, load-Stored}
use lofire_rs.Object.Read.{content}
use lofire_rs.Object.RoundTrip.{Holds, BlocksOf-Holds, content-Holds}
use lofire_rs.Object.Shape.{BlocksOf, BlocksOf-deps, make_blocks-BlocksOf}
use lofire_rs.Object.Tree.{key_of, ref}
use lofire_rs.Object.Tree.Loading.{Stored}
use lofire_rs.Store.{store_valid_value_size}
use lofire_rs.Store.Sizes.{store_valid_value_size_bounds}
use lofire_rs.Object.Persist.{save_blocks, save, load, set_root_key}

abbrev pub SameButKey : Block → Block → Type 0
SameButKey a b = Block.set_key none a ≡ Block.set_key none b

-- Blocks with one identifier are one block.
abbrev pub NoCollision : Crates → List Block → List Block → Type 0
NoCollision x U bs = All (λ a. All (λ b. Block.id x a ≡ Block.id x b → SameButKey a b) U) bs

-- The store gives the block under its identifier.
abbrev pub Held : Crates → HashMapRepoStore → Block → Type 0
Held x s b = HashMap.get s (Block.id x b) ≡ ok (Block.set_key none b)

module _ (x : Crates) (n : ℕ) (U : List Block) where
  abbrev Kept : List ObjectId → HashMapRepoStore → Block → Type 0
  Kept d s b = contains (Block.id x b) d ≡ true → Held x s b

  abbrev put_in : Block → HashMapRepoStore → HashMapRepoStore
  put_in a s = record { blocks = insert (Block.id x a) (Block.set_key none a) s.blocks }

  Kept-put :
      (a : Block) (d : List ObjectId) (s : HashMapRepoStore) (b : Block)
      → (Block.id x a ≡ Block.id x b → SameButKey a b)
      → Kept d s b
      → Kept (Block.id x a ∷ d) (put_in a s) b
  unfolding contains HashMap.get
  Kept-put a d s b same old h = elim (Bool-cases (beq (Block.id x a) (Block.id x b))) [
    | inl e ↦ simp (lookup-insert, e, same (eq_of_beq _ _ e))
    | inr e ↦ simp (lookup-insert, e) (old (rw e at h))
  ]

  record AfterSave (bs : List Block) (d : List ObjectId) (s : HashMapRepoStore) : Type 0 where
    store : HashMapRepoStore
    ids : List ObjectId
    saves : save_blocks x (hash_map_repo_store x n) bs d s ≡ ok store
    kept : All (Kept ids store) U
    listed : All (λ b. contains (Block.id x b) ids ≡ true) bs
    still : (i : ObjectId) → contains i d ≡ true → contains i ids ≡ true

  save_blocks-Kept :
      (bs : List Block) (d : List ObjectId) (s : HashMapRepoStore)
      → NoCollision x U bs
      → All (Kept d s) U
      → AfterSave bs d s
  unfolding save_blocks HashMap.put
  save_blocks-Kept [] d s distinct kept = record {
    store = s;
    ids = d;
    saves = refl;
    kept = kept;
    listed = tt;
    still = λ i h. h;
  }
  save_blocks-Kept (a ∷ bs) d s distinct kept = elim (Bool-cases (contains (Block.id x a) d)) [
    | inl old ↦
        let r = save_blocks-Kept bs d s distinct.1 kept in
        record {
          store = r.store;
          ids = r.ids;
          saves = simp (old, r.saves);
          kept = r.kept;
          listed = (r.still (Block.id x a) old, r.listed);
          still = r.still;
        }
    | inr new ↦
        let i = Block.id x a in
        let r =
          save_blocks-Kept bs (i ∷ d) (put_in a s) distinct.1
            (All-map₂ _ _ _ U (Kept-put a d s) distinct.0 kept) in
        record {
          store = r.store;
          ids = r.ids;
          saves = simp (new, r.saves);
          kept = r.kept;
          listed = (r.still i (contains-cons i i d (beq_refl i)), r.listed);
          still = λ j h. r.still j (contains-tail i j d h);
        }
  ]

-- After a save every block of the object is in the store, under its identifier.
pub save-Held :
    (x : Crates) (n : ℕ) (o : Object) (s : HashMapRepoStore)
    → NoCollision x o.blocks o.blocks
    → (s' : HashMapRepoStore) × (save x (hash_map_repo_store x n) o s ≡ ok s')
      × All (Held x s') o.blocks
unfolding save contains
save-Held x n o s distinct =
    let r = save_blocks-Kept x n o.blocks o.blocks [] s distinct (All-of _ o.blocks (λ b h. cc)) in
    (r.store, r.saves, All-map₂ _ _ _ o.blocks (λ b kept. kept) r.kept r.listed)

-- The blocks that `load` gives are copies of those that were saved.
set_root_key-Copies :
    (x : Crates) (k : SymKey) (bs : List Block)
    → Copies x bs (set_root_key (some k) (map (Block.set_key none) bs))
unfolding set_root_key Block.set_key
set_root_key-Copies x k [] = tt
set_root_key-Copies x k (b ∷ []) =
    (record { same_id = id-set_key x (some k) b; same_children = refl; same_content = refl }, tt)
set_root_key-Copies x k (b ∷ c ∷ bs) = (
  record { same_id = id-set_key x none b; same_children = refl; same_content = refl },
  set_root_key-Copies x k (c ∷ bs),
)

key_of-set_key :
    (k : SymKey) (b : Block)
    → Block.key (Block.set_key (some k) b) ≡ some (key_of (Block.set_key (some k) b))
unfolding key_of Block.set_key
key_of-set_key k b = refl

ref-set_key :
    (x : Crates) (k : SymKey) (b : Block)
    → ref x (Block.set_key (some k) (Block.set_key none b)) ≡ (Block.id x b, k)
unfolding ref key_of Block.set_key
ref-set_key x k b =
    ap (λ (i : BlockId). let p : BlockId × SymKey = (i, k) in p) (id-set_key x (some k) b)

reloaded-Holds :
    (x : Crates) {blocks : List Block} {bytes : Bytes} (h : Holds x blocks bytes)
    → Holds x (set_root_key (some (key_of h.root)) (map (Block.set_key none) blocks)) bytes
unfolding ref
reloaded-Holds x {blocks} {bytes} h =
    let k = key_of h.root in
    let root' = with_key (some k) (Block.set_key none h.root) in
    let B' = set_root_key (some k) (map (Block.set_key none) blocks) in
    let copies = set_root_key-Copies x k blocks in
    let size = length-Copies x blocks B' copies in
    record {
      root = root';
      last =
          get_last?-set_root_key (some k) _ _
            (get_last?-map (Block.set_key none) blocks h.root h.last);
      has_key = key_of-set_key k _;
      reads =
          simp (size, ref-set_key x k h.root)
            (collect_leaves-Copies x (length blocks) blocks B' (ref x h.root ∷ [])
                (length blocks - 1) (some []) copies
              ∙ h.reads);
    }

pub deps-set_key : (k : Option SymKey) (b : Block) → Block.deps (Block.set_key k b) ≡ Block.deps b
unfolding Block.set_key
deps-set_key k b = refl

pub Stored-set_key :
    (x : Crates) (s : HashMapRepoStore) (b : Block)
    → Held x s b
    → Stored x (HashMap.get s) (Block.set_key none) b
unfolding Block.set_key
Stored-set_key x s b h = (h, refl)

-- Loading an object by its own identifier and key.
reload :
    (x : Crates) (conv_key : Bytes) (expiry : Option Timestamp) (o : Object) {bytes : Bytes}
    (s : HashMapRepoStore) (fuel : ℕ)
    (built : BlocksOf x conv_key (object_id_list o.deps) expiry bytes o.blocks)
    → All (Held x s) o.blocks
    → length o.blocks ≤ fuel
    → let h = BlocksOf-Holds x conv_key (object_id_list o.deps) expiry built in
      (do i ← id x o; k ← key o; load x (HashMap.get s) fuel i k)
      ≡ ok (record {
        blocks = set_root_key (some (key_of h.root)) (map (Block.set_key none) o.blocks);
        deps = o.deps;
      })
unfolding id key root
reload x conv_key expiry o s fuel built held enough =
    let h = BlocksOf-Holds x conv_key (object_id_list o.deps) expiry built in
    simp (
      h.last,
      h.has_key,
      load-Stored x conv_key o.deps expiry (HashMap.get s) (Block.set_key none) fuel h.root
          (some (key_of h.root)) built h.last (All-map _ _ o.blocks (Stored-set_key x s) held)
          (deps-set_key none h.root
            ∙ BlocksOf-deps x conv_key (object_id_list o.deps) expiry h.root built h.last)
          enough,
    )

make_deps_few :
    (x : Crates) {E : Type 0} (deps : List ObjectId) (size : ℕ) (repo_pubkey : PubKey)
    (repo_secret : SymKey)
    → length deps ≤ 8
    → make_deps x {E = E} deps size repo_pubkey repo_secret ≡ ok (object_id_list deps)
unfolding make_deps
make_deps_few x deps size repo_pubkey repo_secret few = rw (le→leb (length deps) 8 few)

module _ (x : Crates) (tagged : (c : ObjectContent) → 0 < length (x.object_content_to_vec c))
    (size_of_block : ℕ) where
  pub new-BlocksOf :
      (c : ObjectContent) (deps : List ObjectId) (expiry : Option Timestamp) (block_size : ℕ)
      (repo_pubkey : PubKey) (repo_secret : SymKey) (d : ObjectDeps) (o : Object)
      → make_deps x {E = ObjectParseError} deps
          (store_valid_value_size block_size)
          repo_pubkey
          repo_secret
        ≡ ok d
      → new x {E = ObjectParseError} c deps expiry block_size repo_pubkey repo_secret ≡ ok o
      → BlocksOf x
          (convergence_key x repo_pubkey repo_secret)
          d
          expiry
          (x.object_content_to_vec c)
          o.blocks
        × (o.deps ≡ deps)
  unfolding new
  new-BlocksOf c deps expiry block_size repo_pubkey repo_secret d o deps_made made =
      let size = store_valid_value_size block_size in
      let conv_key = convergence_key x repo_pubkey repo_secret in
      let (blocks, blocks_made, built) =
        make_blocks-BlocksOf x conv_key d expiry {E = ObjectParseError} c (length deps) size
          (tagged c) (store_valid_value_size_bounds block_size).0 in
      let o' : Object = record { blocks = blocks; deps = deps } in
      let same : o' ≡ o = ok-injective o' o (sym (simp (deps_made, blocks_made)) ∙ made) in
      subst
        (λ (p : Object).
          BlocksOf x conv_key d expiry (x.object_content_to_vec c) p.blocks × (p.deps ≡ deps))
        same (built, refl)

  -- An object with at most eight dependencies that `new` made, and of whose blocks no two differ
  -- under one identifier, is saved in any store; loaded again by its identifier and key it has its
  -- dependencies and its content.
  pub load-save :
      (c c' : ObjectContent) (deps : List ObjectId) (expiry : Option Timestamp) (block_size : ℕ)
      (repo_pubkey : PubKey) (repo_secret : SymKey) (s : HashMapRepoStore) (o : Object) (fuel : ℕ)
      → x.object_content_from_slice (x.object_content_to_vec c) ≡ some c'
      → length deps ≤ 8
      → new x {E = ObjectParseError} c deps expiry block_size repo_pubkey repo_secret ≡ ok o
      → NoCollision x o.blocks o.blocks
      → length o.blocks ≤ fuel
      → (s' : HashMapRepoStore) × (o' : Object) × (save x (hash_map_repo_store x size_of_block) o s
          ≡ ok s')
        × ((do i ← id x o; k ← key o; load x (HashMap.get s') fuel i k) ≡ ok o')
        × (o'.deps ≡ deps)
        × (content x o' ≡ ok c')
  load-save c c' deps expiry block_size repo_pubkey repo_secret s o fuel read_back few made distinct
        enough =
      let (built', same_deps) =
        new-BlocksOf c deps expiry block_size repo_pubkey repo_secret (object_id_list deps) o
          (make_deps_few x deps _ repo_pubkey repo_secret few) made in
      let conv_key = convergence_key x repo_pubkey repo_secret in
      let built =
        subst
          (λ ds.
            BlocksOf x conv_key (object_id_list ds) expiry (x.object_content_to_vec c) o.blocks)
          (sym same_deps) built' in
      let (s', saved, held) = save-Held x size_of_block o s distinct in
      let h = BlocksOf-Holds x conv_key (object_id_list o.deps) expiry built in
      let o' : Object = record {
        blocks = set_root_key (some (key_of h.root)) (map (Block.set_key none) o.blocks);
        deps = o.deps;
      } in
      (
        s',
        o',
        saved,
        reload x conv_key expiry o s' fuel built held enough,
        same_deps,
        content-Holds x o' (reloaded-Holds x h) read_back,
      )
