-- ===== src/Broker/Streams.antt =====
-- lofire-broker/src/server.rs: the blocks that `get_block` and `sync_branch` send.
use lofire_rs.Common.{
  ℕ, ◌+◌, List, [], ◌∷◌, map, Bool, true, false, not, ◌&&◌, ◌||◌, ◌≢◌, if◌then◌else◌, ◌≡◌, refl,
  sym, ap, ◌∙◌, contains, beq, Bool-cases, inl, inr, arith, eq_of_beq,
}
use lofire_rs.Types.{Block, BlockId, digest_has_eq}
use lofire_rs.Crates.{Crates}
use lofire_rs.Block
use lofire_rs.Broker.Store.{BrokerStore}
use lofire_rs.Broker.Codec.{Codec}
use lofire_rs.Broker.Server.{BlockStores}
use lofire_rs.Broker.Operations.{send_blocks}

true_is_not_false : true ≢ false
true_is_not_false h = cc

abbrev pub one_if : Bool → ℕ
one_if true = 1
one_if false = 0

-- How often an identifier is in the list.
unfoldable pub times : BlockId → List BlockId → ℕ
times i [] = 0
times i (j ∷ l) = one_if (beq j i) + times i l

-- With the tests `named` for the identifier of the block, `later` for those after it and `sent`.
skipped :
    (named later sent : Bool)
    → (named ≡ true → sent ≡ true)
    → (one_if (later && not sent) ≡ one_if ((named || later) && not sent))
      × ((if sent then true else later) ≡ (if sent then true else named || later))
skipped true later true h = (ground arith, refl)
skipped true later false h = absurd (true_is_not_false (sym (h refl)))
skipped false later sent h = (refl, refl)

taken :
    (named later sent : Bool)
    → (named ≡ true → sent ≡ false)
    → (one_if named + one_if (later && not (named || sent)) ≡ one_if ((named || later) && not sent))
      × ((if named || sent then true else later) ≡ (if sent then true else named || later))
taken true later false h = (ground arith, refl)
taken true later true h = absurd (true_is_not_false (h refl))
taken false later sent h = (omega arith, refl)

module _ {S R : Type 0} (x : Crates) (b : BrokerStore S) (z : Codec) (blocks : BlockStores R) where
  -- A block of each identifier in the list is sent once, unless its identifier was noted before, and no
  -- other is sent; afterwards the identifiers of the list are noted too.
  pub send_blocks-times :
      (l : List Block) (sent : List BlockId) (i : BlockId)
      → (times i (map (Block.id x) (send_blocks x b z blocks l sent).0)
          ≡ one_if (contains i (map (Block.id x) l) && not (contains i sent)))
        × (contains i (send_blocks x b z blocks l sent).1
            ≡ (if contains i sent then true else contains i (map (Block.id x) l)))
  unfolding send_blocks times contains
  send_blocks-times [] sent i = (refl, ground arith)
  send_blocks-times (block ∷ rest) sent i = elim (Bool-cases (contains (Block.id x block) sent)) [
    | inl before ↦
        let known = λ (e : beq (Block.id x block) i ≡ true).
          ap (λ j. contains j sent) (sym (eq_of_beq (Block.id x block) i e)) ∙ before in
        let (sends, notes) = send_blocks-times rest sent i in
        rw (before, sends, notes)
          (skipped (beq (Block.id x block) i) (contains i (map (Block.id x) rest)) (contains i sent)
            known)
    | inr fresh ↦
        let new = λ (e : beq (Block.id x block) i ≡ true).
          ap (λ j. contains j sent) (sym (eq_of_beq (Block.id x block) i e)) ∙ fresh in
        let (sends, notes) = send_blocks-times rest (Block.id x block ∷ sent) i in
        rw (fresh, sends, notes)
          (taken (beq (Block.id x block) i) (contains i (map (Block.id x) rest)) (contains i sent)
            new)
  ]
