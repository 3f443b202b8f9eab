-- ===== src/Build/Builder/Ranges.antt =====
-- What an accepted range does to the mergers of a builder.
use ip2geo.Base.{
  ℕ, ◌/◌, ◌^◌, ◌≤◌, ◌<◌, ◌≡◌, ◌≢◌, refl, sym, ap, ◌∙◌, true, Bool-cases, inl, inr, ltb, Option,
  none, some, List, Result, ok, ok_injective, or_panic, arith,
}
use mathlib.Core.Option
use ip2geo.Format.Header.{all_zero}
use ip2geo.Build.Merge4.{add}
use ip2geo.Build.Merge6.{be_bytes, be_uint, add6, less16}
use ip2geo.Build.Builder.{Builder, NetAddr, v4, v6, is_4_in_6, unmap, add_unmapped, add_range}

pub mapped_bytes : (a : ℕ) → a < 2 ^ 128 → is_4_in_6 (be_bytes 16 a) ≡ true → a / 2 ^ 32 ≡ 0xffff
unfolding is_4_in_6 be_bytes be_uint all_zero
mapped_bytes a lt e = ground arith

pub or_panic-map :
    {A B : Type 0} {E : Type 0} (g : A → B) (x : Option A) {b : B}
    → ◌≡◌ {A = Result E B} (or_panic (Option.map g x)) (ok b)
    → (a : A) × (x ≡ some a) × (g a ≡ b)
or_panic-map g none e = absurd (ground arith)
or_panic-map g (some a) e = (a, refl, ok_injective e)

-- What an accepted range does to the builder.
pub record Adds (b : Builder) (f l rec : ℕ) (b' : Builder) : Type 0 where
  pub ordered : f ≤ l
  pub into : add b.v4m (record { start = f; last = l; rec = rec }) ≡ some b'.v4m
  pub same_recs : b'.recs ≡ b.recs
  pub same_keys : b'.keys ≡ b.keys
  pub same_strs : b'.strs ≡ b.strs
  pub same_opts : b'.opts ≡ b.opts

pub add_range-v4 :
    (b : Builder) (f l rec : ℕ) {b' : Builder}
    → add_range b (v4 f) (v4 l) rec ≡ ok b'
    → Adds b f l rec b'
unfolding add_range unmap add_unmapped
add_range-v4 b f l rec e = elim (Bool-cases (ltb l f)) [
  | inl t ↦ absurd (ground (arith, t, e))
  | inr n ↦
      let (m, found, same) =
        or_panic-map _ (add b.v4m (record { start = f; last = l; rec = rec })) (rw n at e) in
      record {
        ordered = ground arith;
        into = found ∙ ap (λ (c : Builder). some c.v4m) same;
        same_recs = ap (λ (c : Builder). c.recs) (sym same);
        same_keys = ap (λ (c : Builder). c.keys) (sym same);
        same_strs = ap (λ (c : Builder). c.strs) (sym same);
        same_opts = ap (λ (c : Builder). c.opts) (sym same);
      }
]

-- What an accepted IPv6 range leaves.
pub record Keeps (b b' : Builder) : Type 0 where
  pub same_v4 : b'.v4m ≡ b.v4m
  pub same_recs : b'.recs ≡ b.recs
  pub same_keys : b'.keys ≡ b.keys
  pub same_strs : b'.strs ≡ b.strs
  pub same_opts : b'.opts ≡ b.opts

pub add_unmapped-v6 :
    (b : Builder) (f : List ℕ) (l : NetAddr) (rec : ℕ) {b' : Builder}
    → add_unmapped b (v6 f) l rec ≡ ok b'
    → Keeps b b'
unfolding add_unmapped
add_unmapped-v6 b f NetAddr.invalid rec e = absurd (ground arith)
add_unmapped-v6 b f (v4 l) rec e = absurd (ground arith)
add_unmapped-v6 b f (v6 l) rec e = elim (Bool-cases (less16 l f)) [
  | inl t ↦ absurd (ground (arith, t, e))
  | inr n ↦
      let (m, found, same) =
        or_panic-map _ (add6 b.v6m (record { start = f; last = l; rec = rec })) (rw n at e) in
      record {
        same_v4 = ap (λ (c : Builder). c.v4m) (sym same);
        same_recs = ap (λ (c : Builder). c.recs) (sym same);
        same_keys = ap (λ (c : Builder). c.keys) (sym same);
        same_strs = ap (λ (c : Builder). c.strs) (sym same);
        same_opts = ap (λ (c : Builder). c.opts) (sym same);
      }
]

pub add_range-v6 :
    (b : Builder) (f : ℕ) (l : NetAddr) (rec : ℕ) {b' : Builder}
    → f < 2 ^ 128
    → f / 2 ^ 32 ≢ 0xffff
    → add_range b (v6 (be_bytes 16 f)) l rec ≡ ok b'
    → Keeps b b'
unfolding add_range unmap
add_range-v6 b f l rec lt free e = elim (Bool-cases (is_4_in_6 (be_bytes 16 f))) [
  | inl t ↦ absurd (free (mapped_bytes f lt t))
  | inr n ↦ add_unmapped-v6 b (be_bytes 16 f) _ rec (rw n at e)
]
