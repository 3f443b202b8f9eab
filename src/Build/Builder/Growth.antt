-- ===== src/Build/Builder/Growth.antt =====
-- The strings, options and IPv4 networks of a builder across `Record` of internal/build/build.go.
use ip2geo.Base.{ℕ, ◌+◌, ◌≡◌, refl, Option, none, some, Option-cases, inl, inr, subst, sym, ◌∙◌}
use ip2geo.Build.Strings.Ids.{IsInterner}
use ip2geo.Build.Record.{Record, RecKey, key}
use ip2geo.Build.Record.Key.{IsGrown, IsGrown-trans, key-IsGrown}
use ip2geo.Build.XTable.{XTable}
use ip2geo.Build.XTable.Growth.{add_entry-IsGrown}
use ip2geo.Build.Builder.{Builder, find_key, intern_key, full_key, add_record}

-- What `Record` leaves of a builder besides its records.
pub record KeepsStrings (b b' : Builder) : Type 0 where
  pub grown : IsGrown b.strs b'.strs
  pub same_opts : b'.opts ≡ b.opts
  pub same_v4 : b'.v4m ≡ b.v4m

pub intern_key_same :
    (b : Builder) (k : RecKey)
    → ((intern_key b k).1.strs ≡ b.strs)
      × ((intern_key b k).1.opts ≡ b.opts)
      × ((intern_key b k).1.v4m ≡ b.v4m)
unfolding intern_key
intern_key_same b k = elim (Option-cases (find_key b.keys k)) [
  | inl n ↦ rw n (refl, refl, refl)
  | inr (i, t) ↦ rw t (refl, refl, refl)
]

module _ {F : Type 0} (rounded : F → ℕ) (r : Record F) where
  pub full_key-KeepsStrings :
      (b : Builder) → IsInterner b.strs → KeepsStrings b (full_key rounded r b).1
  unfolding full_key
  full_key-KeepsStrings b h = go b.x refl
    where
      go : (x : Option XTable) → b.x ≡ x → KeepsStrings b (full_key rounded r b).1
      go none e = rw e (record {
        grown = key-IsGrown rounded r b.opts.profile b.strs h;
        same_opts = refl;
        same_v4 = refl;
      })
      go (some t) e =
          let g = key-IsGrown rounded r b.opts.profile b.strs h in
          rw e (record {
            grown =
                IsGrown-trans g
                  (add_entry-IsGrown r t (key rounded r b.opts.profile b.strs).1 g.valid);
            same_opts = refl;
            same_v4 = refl;
          })

  pub add_record_strs :
      (b : Builder)
      → (add_record rounded r b).1.strs
        ≡ (full_key rounded r (record b { distinct = b.distinct + 1 })).1.strs
  unfolding add_record
  add_record_strs b =
      let taken = full_key rounded r (record b { distinct = b.distinct + 1 }) in
      (intern_key_same taken.1 taken.0).0

  pub add_record-KeepsStrings :
      (b : Builder) → IsInterner b.strs → KeepsStrings b (add_record rounded r b).1
  unfolding add_record
  add_record-KeepsStrings b h =
      let counted : Builder = record b { distinct = b.distinct + 1 } in
      let taken = full_key rounded r counted in
      let f = full_key-KeepsStrings counted h in
      let (strs, opts, v4m) = intern_key_same taken.1 taken.0 in
      record {
        grown = subst (IsGrown b.strs) (sym strs) f.grown;
        same_opts = opts ∙ f.same_opts;
        same_v4 = v4m ∙ f.same_v4;
      }
