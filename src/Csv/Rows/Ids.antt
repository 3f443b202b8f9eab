-- ===== src/Csv/Rows/Ids.antt =====
-- The id that a row of a CSV source gets (csvdb/reader.go), from its key or from a new record.
use ip2geo.Base.{
  ℕ, ◌+◌, ◌≡◌, ◌≢◌, refl, sym, ap, subst, ◌∙◌, Bool, Bool-cases, inl, inr, Option, none, some,
  some_injective, Option-cases, List, ◌∷◌, get_elem?, ok, ok_injective, >>=-ok, arith,
}
use ip2geo.Format.Header.{bytes_eq}
use ip2geo.Build.Blocks.Laws.{items}
use ip2geo.Build.Strings.{Str, lookup}
use ip2geo.Build.Strings.Ids.{IsInterner, bytes_eq-eq, bytes_eq_refl}
use ip2geo.Build.Record.{Record, RecKey}
use ip2geo.Build.Record.Key.{Names}
use ip2geo.Build.Merge4.{Range4}
use ip2geo.Build.Builder.{Builder, full_key, add_record}
use ip2geo.Build.Builder.Records.{IsBuilder, add_record-IsRecorded}
use ip2geo.Build.Builder.Growth.{add_record-KeepsStrings, add_record_strs}
use ip2geo.Csv.Ranges.{IpAddr}
use ip2geo.Csv.Rows.{Rows, key_cols_of, row_key, fill, id_of}
use ip2geo.Csv.Rows.Keys.{IsShortRow}
use ip2geo.Csv.Rows.Data.{fill_frame, row_key-fill}
use ip2geo.Csv.Rows.Separate.{IsFed, frame}

-- What the steps of the reader keep.
pub record Moves (r r' : Rows) : Type 0 where
  pub same_frame : frame r' ≡ frame r
  pub kept_strings : (i : ℕ) (t : Str) → Names r.b.strs i t → Names r'.b.strs i t
  pub kept_records :
      (i : ℕ) (t : RecKey)
      → get_elem? (items r.b.recs) i ≡ some t
      → get_elem? (items r'.b.recs) i ≡ some t

-- The keys of rows keep their ids.
abbrev pub KeepsIds : Rows → Rows → Type 0
KeepsIds r r' = (k : Str) (v : ℕ) → lookup r.ids k ≡ some v → lookup r'.ids k ≡ some v

newer_kept :
    (k : Str) (id : ℕ) (ids : List (Str × ℕ))
    → lookup ids k ≡ none
    → (j : Str) (v : ℕ) → lookup ids j ≡ some v
    → lookup ((k, id) ∷ ids) j ≡ some v
unfolding lookup
newer_kept k id ids new j v e = elim (Bool-cases (bytes_eq k j)) [
  | inl t ↦ absurd (ground (arith, new, ap (lookup ids) (bytes_eq-eq k j t), e))
  | inr n ↦ rw n e
]

newest : (k : Str) (id : ℕ) (ids : List (Str × ℕ)) → lookup ((k, id) ∷ ids) k ≡ some id
unfolding lookup
newest k id ids = let t = bytes_eq_refl k in rw t refl

newer_ids :
    (P : Str → ℕ → Type 0) (k : Str) (id : ℕ) (ids : List (Str × ℕ))
    → P k id
    → ((j : Str) (v : ℕ) → lookup ids j ≡ some v → P j v)
    → (j : Str) (v : ℕ) → lookup ((k, id) ∷ ids) j ≡ some v
    → P j v
unfolding lookup
newer_ids P k id ids new old j v e = elim (Bool-cases (bytes_eq k j)) [
  | inl t ↦ subst (P j) (some_injective (rw t at e)) (subst (λ s. P s id) (bytes_eq-eq k j t) new)
  | inr n ↦ old j v (rw n at e)
]

module _ {F : Type 0} (parse_float : Str → Option F) (within : F → ℕ → Bool) (empty : Record F)
    (rounded : F → ℕ) where
  -- Record `id` of the reader's builder is the key of `rec`: the one that a builder of the same profile
  -- took, whose strings are numbered in the reader's builder as they were then.
  pub record IsRecordOf (r : Rows) (rec : Record F) (id : ℕ) : Type 0 where
    pub taken : Builder
    pub interner : IsInterner taken.strs
    pub profile : taken.opts.profile ≡ r.profile
    pub kept :
        (i : ℕ) (t : Str) → Names (full_key rounded rec taken).1.strs i t → Names r.b.strs i t
    pub stored : get_elem? (items r.b.recs) id ≡ some (full_key rounded rec taken).0

  -- The id `id` was given to a row with the key `k`, and is that of the row's data.
  pub record IsIssued (r : Rows) (k : Str) (id : ℕ) : Type 0 where
    pub row : List Str
    pub keyed : row_key r.key_cols row ≡ ok k
    pub rec : Record F
    pub filled : fill parse_float within empty r row ≡ ok rec
    pub recorded : IsRecordOf r rec id
    pub id_pos : id ≢ 0

  -- The reader between two rows.
  pub record IsReading (r : Rows) : Type 0 where
    pub fed : IsFed r
    pub builder : IsBuilder r.b
    pub strings : IsInterner r.b.strs
    pub profile : r.b.opts.profile ≡ r.profile
    pub cols : r.key_cols ≡ key_cols_of r.l r.profile r.fields
    pub issued : (k : Str) (v : ℕ) → lookup r.ids k ≡ some v → IsIssued r k v

  -- Record `id` holds the data of the row.
  abbrev pub HasRecord : Rows → List Str → ℕ → Type 0
  HasRecord r row id =
      (rec : Record F) × (fill parse_float within empty r row ≡ ok rec) × IsRecordOf r rec id

  -- The key of the row has the id `id`, and record `id` holds the data of the row.
  pub record IsRowId (r : Rows) (row : List Str) (id : ℕ) : Type 0 where
    pub key : Str
    pub keyed : row_key r.key_cols row ≡ ok key
    pub found : lookup r.ids key ≡ some id
    pub holds : IsShortRow row → HasRecord r row id

  pub row_id :
      (r : Rows) (row : List Str) (k : Str) (id : ℕ)
      → IsReading r
      → row_key r.key_cols row ≡ ok k
      → lookup r.ids k ≡ some id
      → IsRowId r row id
  row_id r row k id h keyed found =
      let i = h.issued k id found in
      record {
        key = k;
        keyed = keyed;
        found = found;
        holds = λ short. (
          i.rec,
          row_key-fill parse_float within empty r row i.row k h.cols short keyed i.keyed ∙ i.filled,
          i.recorded,
        );
      }

  pub IsIssued-Moves :
      (r r' : Rows) (k : Str) (id : ℕ) → Moves r r' → IsIssued r k id → IsIssued r' k id
  IsIssued-Moves r r' k id m i = record {
    row = i.row;
    keyed = ap (λ cs. row_key cs i.row) (ap (λ f. f.4) m.same_frame) ∙ i.keyed;
    rec = i.rec;
    filled =
        fill_frame parse_float within empty r r' i.row (ap (λ f. f.0) m.same_frame)
          (ap (λ f. f.2) m.same_frame) (ap (λ f. f.3) m.same_frame)
        ∙ i.filled;
    recorded = record {
      taken = i.recorded.taken;
      interner = i.recorded.interner;
      profile = i.recorded.profile ∙ sym (ap (λ f. f.2) m.same_frame);
      kept = λ j t e. m.kept_strings j t (i.recorded.kept j t e);
      stored = m.kept_records id _ i.recorded.stored;
    };
    id_pos = i.id_pos;
  }

  -- What the reader's step for the id of a row leaves.
  pub record IsIdOf (r : Rows) (row : List Str) (old : List Range4) (p : ℕ × Rows) : Type 0 where
    pub reading : IsReading p.1
    pub same_networks : reading.fed.networks ≡ old
    pub same_frame : frame p.1 ≡ frame r
    pub kept_ids : KeepsIds r p.1
    pub key : Str
    pub keyed : row_key p.1.key_cols row ≡ ok key
    pub found : lookup p.1.ids key ≡ some p.0

  module _ (r : Rows) (row : List Str) (k : Str) (rec : Record F) (h : IsReading r)
      (keyed : row_key r.key_cols row ≡ ok k) (new : lookup r.ids k ≡ none)
      (filled : fill parse_float within empty r row ≡ ok rec) where
    abbrev counted : Builder
    counted = record (r.b) { distinct = r.b.distinct + 1 }

    abbrev next : Rows
    next = record r {
      b = (add_record rounded rec r.b).1;
      ids = (k, (add_record rounded rec r.b).0) ∷ r.ids;
    }

    recorded : IsIdOf r row h.fed.networks ((add_record rounded rec r.b).0, next)
    recorded =
        let made = add_record-IsRecorded rounded rec r.b h.builder in
        let keeps = add_record-KeepsStrings rounded rec r.b h.strings in
        let id = (add_record rounded rec r.b).0 in
        let moves : Moves r next = record {
          same_frame = refl;
          kept_strings = keeps.grown.kept;
          kept_records = made.kept;
        } in
        let mine : IsIssued next k id = record {
          row = row;
          keyed = keyed;
          rec = rec;
          filled = fill_frame parse_float within empty r next row refl refl refl ∙ filled;
          recorded = record {
            taken = counted;
            interner = h.strings;
            profile = h.profile;
            kept =
                λ i t e. subst (λ strs. Names strs i t) (sym (add_record_strs rounded rec r.b)) e;
            stored = made.stored;
          };
          id_pos = λ z. absurd (omega (arith, made.id_pos));
        } in
        record {
          reading = record {
            fed = record {
              networks = h.fed.networks;
              merged = h.fed.merged ∙ ap some (sym keeps.same_v4);
              valid = h.fed.valid;
              separate = h.fed.separate;
              below = h.fed.below;
            };
            builder = made.valid;
            strings = keeps.grown.valid;
            profile = ap (λ o. o.profile) keeps.same_opts ∙ h.profile;
            cols = h.cols;
            issued =
                newer_ids (IsIssued next) k id r.ids mine
                  (λ j v old. IsIssued-Moves r next j v moves (h.issued j v old));
          };
          same_networks = refl;
          same_frame = refl;
          kept_ids = newer_kept k id r.ids new;
          key = k;
          keyed = keyed;
          found = newest k id r.ids;
        }

  pub id_of-IsIdOf :
      (parse_addr : Str → Option IpAddr) (r : Rows) (row : List Str) {p : ℕ × Rows}
      (h : IsReading r)
      → id_of parse_float within empty parse_addr rounded r row ≡ ok p
      → IsIdOf r row h.fed.networks p
  unfolding id_of
  id_of-IsIdOf parse_addr r row h e =
      let (k, keyed, rest) = >>=-ok (row_key r.key_cols row) _ e in
      elim (Option-cases (lookup r.ids k)) [
        | inr (v, old) ↦
            subst (IsIdOf r row h.fed.networks) (ok_injective (rw old at rest)) (record {
              reading = h;
              same_networks = refl;
              same_frame = refl;
              kept_ids = λ j w e. e;
              key = k;
              keyed = keyed;
              found = old;
            })
        | inl new ↦
            let (rec, filled, done) =
              >>=-ok (fill parse_float within empty r row) _ (rw new at rest) in
            subst (IsIdOf r row h.fed.networks) (ok_injective done)
              (recorded r row k rec h keyed new filled)
      ]
