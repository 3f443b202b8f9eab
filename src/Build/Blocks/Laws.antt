-- ===== src/Build/Blocks/Laws.antt =====
-- A `blockList` is the list of what was pushed, in order.
use ip2geo.Base.{
  ℕ, suc, ◌+◌, ◌-◌, ◌/◌, ◌%◌, ◌≤◌, ◌<◌, ◌≡◌, ◌≢◌, refl, sym, ap, ◌∙◌, List, [], ◌∷◌, ◌++◌, arith,
  length, length-append, get_elem?, get_elem?-append_left, get_elem?-append_right, ◌==◌, inl, inr,
  Bool-cases,
}
use ip2geo.Build.Blocks.{BlockList, block_len, append_last, push, at}
use mathlib.Core.Option
use native.Mathlib.Decide.{dec_lt}
use mathlib.Core.List.{append_assoc, append-nil}

module _ {ℓ} {A : Type ℓ} where
  abbrev pub join : List (List A) → List A
  join [] = []
  join (b ∷ bs) = b ++ join bs

  -- The elements, in the order in which the code reads the blocks.
  abbrev pub items : BlockList A → List A
  items l = join l.blocks

  -- `n` elements in full blocks but for the last one, which is not empty.
  abbrev IsLayout : List (List A) → ℕ → Type 0
  IsLayout [] n = n ≡ 0
  IsLayout (b ∷ []) n = (length b ≡ n) × (1 ≤ n) × (n ≤ block_len)
  IsLayout (b ∷ c ∷ bs) n =
      (length b ≡ block_len) × (block_len ≤ n) × IsLayout (c ∷ bs) (n - block_len)

  abbrev pub IsBlocks : BlockList A → Type 0
  IsBlocks l = IsLayout l.blocks l.n

  join-append : (bs cs : List (List A)) → join (bs ++ cs) ≡ join bs ++ join cs
  join-append [] cs = refl
  join-append (b ∷ bs) cs =
      ap (λ t. b ++ t) (join-append bs cs) ∙ sym (append_assoc b (join bs) (join cs))

  -- A fresh block behind full ones.
  append_last-fresh :
      (bs : List (List A)) (v : A) → append_last (bs ++ ([] ∷ [])) v ≡ bs ++ ((v ∷ []) ∷ [])
  unfolding append_last
  append_last-fresh [] v = refl
  append_last-fresh (b ∷ []) v = refl
  append_last-fresh (b ∷ c ∷ bs) v = ap (λ t. b ∷ t) (append_last-fresh (c ∷ bs) v)

  fresh-IsLayout :
      (bs : List (List A)) (n : ℕ) (v : A)
      → IsLayout bs n
      → n % block_len ≡ 0
      → IsLayout (bs ++ ((v ∷ []) ∷ [])) (n + 1)
  fresh-IsLayout [] n v h e = omega arith
  fresh-IsLayout (b ∷ []) n v h e = omega arith
  fresh-IsLayout (b ∷ c ∷ bs) n v h e =
      let m : n + 1 - block_len ≡ n - block_len + 1 = omega arith in
      (h.0, omega arith, rw m (fresh-IsLayout (c ∷ bs) (n - block_len) v h.2 (omega arith)))

  join-append_last :
      (b : List A) (bs : List (List A)) (v : A)
      → join (append_last (b ∷ bs) v) ≡ join (b ∷ bs) ++ (v ∷ [])
  unfolding append_last
  join-append_last b [] v = append-nil _ ∙ ap (λ t. t ++ (v ∷ [])) (sym (append-nil b))
  join-append_last b (c ∷ bs) v =
      ap (λ t. b ++ t) (join-append_last c bs v) ∙ sym (append_assoc b (join (c ∷ bs)) (v ∷ []))

  append_last-IsLayout :
      (bs : List (List A)) (n : ℕ) (v : A)
      → IsLayout bs n
      → n % block_len ≢ 0
      → IsLayout (append_last bs v) (n + 1)
  unfolding append_last
  append_last-IsLayout [] n v h e = absurd (e (rw h refl))
  append_last-IsLayout (b ∷ []) n v h e =
      (length-append b (v ∷ []) ∙ omega arith, omega arith, omega arith)
  append_last-IsLayout (b ∷ c ∷ []) n v h e =
      let m : n + 1 - block_len ≡ n - block_len + 1 = omega arith in
      (
        h.0,
        omega arith,
        rw m (append_last-IsLayout (c ∷ []) (n - block_len) v h.2 (λ z. e (omega arith))),
      )
  append_last-IsLayout (b ∷ c ∷ d ∷ bs) n v h e =
      let m : n + 1 - block_len ≡ n - block_len + 1 = omega arith in
      (
        h.0,
        omega arith,
        rw m (append_last-IsLayout (c ∷ d ∷ bs) (n - block_len) v h.2 (λ z. e (omega arith))),
      )

  join-append_last_any :
      (bs : List (List A)) (n : ℕ) (v : A)
      → IsLayout bs n
      → n % block_len ≢ 0
      → join (append_last bs v) ≡ join bs ++ (v ∷ [])
  join-append_last_any [] n v h e = absurd (e (rw h refl))
  join-append_last_any (b ∷ bs) n v h e = join-append_last b bs v

  -- `push` appends one element, and keeps the blocks full.
  pub push-IsBlocks :
      (l : BlockList A) (v : A)
      → IsBlocks l
      → IsBlocks (push l v) × (items (push l v) ≡ items l ++ (v ∷ []))
  unfolding push
  push-IsBlocks l v h = elim (Bool-cases (l.n % block_len == 0)) [
    | inl z ↦ rw z (
        rw (append_last-fresh l.blocks v)
          (fresh-IsLayout l.blocks l.n v h (ground arith), join-append l.blocks ((v ∷ []) ∷ [])))
    | inr z ↦ rw z (
      append_last-IsLayout l.blocks l.n v h (ground arith),
      join-append_last_any l.blocks l.n v h (ground arith),
    )
  ]

  length-join : (bs : List (List A)) (n : ℕ) → IsLayout bs n → length (join bs) ≡ n
  length-join [] n h = sym h
  length-join (b ∷ []) n h = ap length (append-nil b) ∙ h.0
  length-join (b ∷ c ∷ bs) n h =
      length-append b (join (c ∷ bs)) ∙ omega (arith, length-join (c ∷ bs) (n - block_len) h.2)

  pub length-items : (l : BlockList A) → IsBlocks l → length (items l) ≡ l.n
  length-items l h = length-join l.blocks l.n h

  at_join :
      (bs : List (List A)) (n i : ℕ)
      → IsLayout bs n
      → i < n
      → Option.bind (get_elem? bs (i / block_len)) (λ b. get_elem? b (i % block_len))
        ≡ get_elem? (join bs) i
  unfolding Option.bind
  at_join [] n i h lt = absurd (omega arith)
  at_join (b ∷ []) n i h lt =
      let q : i / block_len ≡ 0 = omega arith in
      let r : i % block_len ≡ i = omega arith in rw (q, r, append-nil)
  at_join (b ∷ c ∷ bs) n i h lt = elim (dec_lt i block_len) [
    | yes small ↦
        let q : i / block_len ≡ 0 = omega arith in
        let r : i % block_len ≡ i = omega arith in
        rw (q, r) (sym (get_elem?-append_left b (join (c ∷ bs)) i (omega arith)))
    | no large ↦
        let q : i / block_len ≡ suc ((i - block_len) / block_len) = omega arith in
        let r : i % block_len ≡ (i - block_len) % block_len = omega arith in
        rw (q, r)
          (at_join (c ∷ bs) (n - block_len) (i - block_len) h.2 (omega arith)
            ∙ sym (get_elem?-append_right b (join (c ∷ bs)) (i - block_len) i (omega arith)))
  ]

  -- `at` reads the element in the place in which it was pushed.
  pub at_lem : (l : BlockList A) (i : ℕ) → IsBlocks l → i < l.n → at l i ≡ get_elem? (items l) i
  unfolding at
  at_lem l i h lt = at_join l.blocks l.n i h lt
