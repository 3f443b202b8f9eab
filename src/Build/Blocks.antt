-- ===== src/Build/Blocks.antt =====
-- internal/build/merge.go: `blockList`, an append-only list kept in blocks of `blockLen` elements.
pub mod Laws
use ip2geo.Base.{
  ℕ, suc, ◌+◌, ◌/◌, ◌%◌, Bool, true, false, Option, none, some, List, [], ◌∷◌, ◌++◌, get_elem?,
  ◌==◌, if◌then◌else◌,
}
use mathlib.Core.Option

abbrev pub block_len : ℕ
block_len = 0x8000

pub record BlockList {ℓ} (A : Type ℓ) : Type ℓ where
  pub blocks : List (List A)
  pub n : ℕ

abbrev pub no_blocks {ℓ} : {A : Type ℓ} → BlockList A
no_blocks = record { blocks = []; n = 0 }

module _ {ℓ} {A : Type ℓ} where
  -- `l.blocks[last] = append(l.blocks[last], v)`. With no block `last` is -1, and Go panics; then
  -- `n` is 0 and a block has just been added.
  unfoldable pub append_last : List (List A) → A → List (List A)
  append_last [] v = []
  append_last (b ∷ []) v = (b ++ (v ∷ [])) ∷ []
  append_last (b ∷ c ∷ bs) v = b ∷ append_last (c ∷ bs) v

  unfoldable pub push : BlockList A → A → BlockList A
  push l v =
      let blocks = if l.n % block_len == 0 then l.blocks ++ ([] ∷ []) else l.blocks in
      record { blocks = append_last blocks v; n = l.n + 1 }

  -- `l.blocks[i/blockLen][i%blockLen]`; `none` is an index out of range.
  unfoldable pub at : BlockList A → ℕ → Option A
  unfolding Option.bind
  at l i = Option.bind (get_elem? l.blocks (i / block_len)) λ b. get_elem? b (i % block_len)
