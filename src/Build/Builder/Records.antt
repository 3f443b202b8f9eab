-- ===== src/Build/Builder/Records.antt =====
-- The record ids that `Record` hands out: one for each distinct key, and never 0.
use ip2geo.Base.{
  ℕ, zero, suc, ◌+◌, ◌-◌, ◌≤◌, ◌≡◌, refl, sym, subst, ap, ◌∙◌, Bool-cases, true, inl, inr, Option,
  none, some, some_injective, List, [], ◌∷◌, ◌++◌, length, length-append, get_elem?,
  get_elem?-append_left, get_elem?-append_at, get_elem?-append_right, get_elem?_bound, arith,
}
use native.Mathlib.Decide.{dec_lt}
use ip2geo.Build.Blocks.{push}
use ip2geo.Build.Blocks.Laws.{items, IsBlocks, push-IsBlocks, length-items}
use ip2geo.Build.Record.{Record, RecKey, zero_key}
use ip2geo.Build.XTable.{XTable}
use ip2geo.Build.Builder.{Builder, key_eq, find_key, intern_key, full_key, add_record}

key_eq_refl : (a : RecKey) → key_eq a a ≡ true
unfolding key_eq
key_eq_refl a = ground arith

key_eq-eq : (a b : RecKey) → key_eq a b ≡ true → a ≡ b
unfolding key_eq
key_eq-eq a b e = ground arith

-- The key table and the records agree from record 1 on: record 0 is for gaps and in no table.
pub record IsNumbering (keys : List (RecKey × ℕ)) (ks : List RecKey) : Type 0 where
  pub first : 1 ≤ length ks
  pub sound : (k : RecKey) (v : ℕ) → find_key keys k ≡ some v → (1 ≤ v) × (get_elem? ks v ≡ some k)
  pub complete : (k : RecKey) (v : ℕ) → 1 ≤ v → get_elem? ks v ≡ some k → find_key keys k ≡ some v

module _ (keys : List (RecKey × ℕ)) (ks : List RecKey) (k : RecKey) (h : IsNumbering keys ks)
    (new : find_key keys k ≡ none) where
  kept_old : (t : RecKey) (i : ℕ) → get_elem? ks i ≡ some t → get_elem? (ks ++ (k ∷ [])) i ≡ some t
  kept_old t i e = get_elem?-append_left ks (k ∷ []) i (get_elem?_bound ks i t e) ∙ e

  last_one : (t : RecKey) (j : ℕ) → get_elem? (k ∷ []) j ≡ some t → (j ≡ 0) × (k ≡ t)
  last_one t zero e = (refl, some_injective e)
  last_one t (suc j) e = absurd (ground arith)

  grown_complete :
      (t : RecKey) (v : ℕ)
      → 1 ≤ v
      → get_elem? (ks ++ (k ∷ [])) v ≡ some t
      → find_key ((k, length ks) ∷ keys) t ≡ some v
  unfolding find_key
  grown_complete t v pos e = elim (dec_lt v (length ks)) [
    | yes lt ↦
        let old = h.complete t v pos (sym (get_elem?-append_left ks (k ∷ []) v lt) ∙ e) in
        elim (Bool-cases (key_eq k t)) [
          | inl same ↦ absurd (ground (arith, new, ap (find_key keys) (key_eq-eq k t same), old))
          | inr other ↦ rw other old
        ]
    | no ge ↦
        let (z, same) =
          last_one t (v - length ks)
            (sym (get_elem?-append_right ks (k ∷ []) (v - length ks) v (omega arith)) ∙ e) in
        let test : key_eq k t ≡ true = subst (λ u. key_eq k u ≡ true) same (key_eq_refl k) in
        rw test (ap some (omega arith))
  ]

  grown_sound :
      (t : RecKey) (v : ℕ)
      → find_key ((k, length ks) ∷ keys) t ≡ some v
      → (1 ≤ v) × (get_elem? (ks ++ (k ∷ [])) v ≡ some t)
  unfolding find_key
  grown_sound t v e = elim (Bool-cases (key_eq k t)) [
    | inl same ↦
        let at_end : length ks ≡ v = ground (arith, e, same) in
        (
          omega (arith, h.first),
          get_elem?-append_at ks k [] v (sym at_end) ∙ ap some (key_eq-eq k t same),
        )
    | inr other ↦
        let (pos, found) = h.sound t v (ground (arith, e, other)) in (pos, kept_old t v found)
  ]

  grown-IsNumbering : IsNumbering ((k, length ks) ∷ keys) (ks ++ (k ∷ []))
  grown-IsNumbering = record {
    first = omega (arith, h.first, length-append {0} ks (k ∷ []));
    sound = grown_sound;
    complete = grown_complete;
  }

pub record IsBuilder (b : Builder) : Type 0 where
  pub blocks : IsBlocks b.recs
  pub numbering : IsNumbering b.keys (items b.recs)

-- Recording the key `k` gives the id `v`: it is not 0, it is that of `k` alone, and the keys recorded
-- before keep theirs.
pub record IsRecorded (b : Builder) (k : RecKey) (v : ℕ) (next : Builder) : Type 0 where
  pub valid : IsBuilder next
  pub id_pos : 1 ≤ v
  pub stored : get_elem? (items next.recs) v ≡ some k
  pub only : (w : ℕ) → 1 ≤ w → get_elem? (items next.recs) w ≡ some k → w ≡ v
  pub kept :
      (i : ℕ) (t : RecKey)
      → get_elem? (items b.recs) i ≡ some t
      → get_elem? (items next.recs) i ≡ some t

intern_key-IsRecorded :
    (b : Builder) (k : RecKey) → IsBuilder b → IsRecorded b k (intern_key b k).0 (intern_key b k).1
unfolding intern_key
intern_key-IsRecorded b k h = go (find_key b.keys k) refl
  where
    go :
        (o : Option ℕ)
        → find_key b.keys k ≡ o
        → IsRecorded b k (intern_key b k).0 (intern_key b k).1
    go (some v) e =
        let (pos, found) = h.numbering.sound k v e in
        rw e (record {
          valid = h;
          id_pos = pos;
          stored = found;
          only = λ w le at_w. some_injective (sym (h.numbering.complete k w le at_w) ∙ e);
          kept = λ i t at_i. at_i;
        })
    go none e =
        let ks = items b.recs in
        let n : length ks ≡ b.recs.n = length-items b.recs h.blocks in
        let (blocks, grown) = push-IsBlocks b.recs k h.blocks in
        let next = grown-IsNumbering b.keys ks k h.numbering e in
        let numbering : IsNumbering ((k, b.recs.n) ∷ b.keys) (items (push b.recs k)) =
          subst (IsNumbering ((k, b.recs.n) ∷ b.keys)) (sym grown)
            (subst (λ v. IsNumbering ((k, v) ∷ b.keys) (ks ++ (k ∷ []))) n next) in
        let pos : 1 ≤ b.recs.n = omega (arith, h.numbering.first, n) in
        let stored : get_elem? (items (push b.recs k)) b.recs.n ≡ some k =
          ap (λ l. get_elem? l b.recs.n) grown ∙ get_elem?-append_at ks k [] b.recs.n (sym n) in
        rw e (record {
          valid = record { blocks = blocks; numbering = numbering };
          id_pos = pos;
          stored = stored;
          only = λ w le at_w.
              some_injective
                (sym (numbering.complete k w le at_w) ∙ numbering.complete k b.recs.n pos stored);
          kept = λ i t at_i.
              ap (λ l. get_elem? l i) grown ∙ kept_old b.keys ks k h.numbering e t i at_i;
        })

pub new-IsNumbering : IsNumbering [] (zero_key ∷ [])
unfolding find_key
new-IsNumbering = record {
  first = omega arith;
  sound = λ k v e. absurd (ground arith);
  complete = λ k v pos e. absurd (beyond k v pos e);
}
  where
    beyond : (k : RecKey) (v : ℕ) → 1 ≤ v → get_elem? (zero_key ∷ []) v ≡ some k → ⊥
    beyond k zero pos e = omega arith
    beyond k (suc v) pos e = absurd (ground arith)

module _ {F : Type 0} (rounded : F → ℕ) (r : Record F) where
  -- Taking the key leaves the records and their ids alone.
  full_key_keeps :
      (b : Builder)
      → ((full_key rounded r b).1.recs ≡ b.recs) × ((full_key rounded r b).1.keys ≡ b.keys)
  unfolding full_key
  full_key_keeps b = go b.x refl
    where
      go :
          (x : Option XTable)
          → b.x ≡ x
          → ((full_key rounded r b).1.recs ≡ b.recs) × ((full_key rounded r b).1.keys ≡ b.keys)
      go none e = rw e (refl, refl)
      go (some t) e = rw e (refl, refl)

  -- `Record` counts the call and gives the record's key an id that is not 0, the one it was given
  -- before if any; no other id has that key, and all keys recorded before keep theirs.
  pub add_record-IsRecorded :
      (b : Builder)
      → IsBuilder b
      → (let counted : Builder = record b { distinct = b.distinct + 1 } in
          IsRecorded b
            (full_key rounded r counted).0
            (add_record rounded r b).0
            (add_record rounded r b).1)
  unfolding add_record
  add_record-IsRecorded b h =
      let counted : Builder = record b { distinct = b.distinct + 1 } in
      let next = (full_key rounded r counted).1 in
      let k = (full_key rounded r counted).0 in
      let (recs, keys) = full_key_keeps counted in
      let same : IsBuilder next = record {
        blocks = subst IsBlocks (sym recs) h.blocks;
        numbering =
            subst (λ l. IsNumbering next.keys (items l)) (sym recs)
              (subst (λ m. IsNumbering m (items b.recs)) (sym keys) h.numbering);
      } in
      let rec = intern_key-IsRecorded next k same in
      record {
        valid = rec.valid;
        id_pos = rec.id_pos;
        stored = rec.stored;
        only = rec.only;
        kept = λ i t e. rec.kept i t (ap (λ l. get_elem? (items l) i) recs ∙ e);
      }
