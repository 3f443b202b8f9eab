-- ===== src/Build/FinishBuild.antt =====
-- internal/build/build.go: `Finish`, which makes the string ids final and encodes the build.
pub mod Strings
use ip2geo.Base.{
  ℕ, suc, ◌+◌, Bool, Option, none, some, List, [], ◌∷◌, length, get_elem?, Result, ok, err, panic,
  ◌>>=◌, ◌>>◌, or_panic,
}
use mathlib.Core.Option
use ip2geo.Format.Meta.{Meta}
use ip2geo.Build.Blocks.{BlockList}
use ip2geo.Build.Strings.{Finished, finish_strings, StringError, check_string_table}
use ip2geo.Build.Record.{RecKey}
use ip2geo.Build.Merge4.{finish}
use ip2geo.Build.Merge6.{finish6}
use ip2geo.Build.Assemble.{EncodeError}
use ip2geo.Build.Encode.{BuildResult, encode}
use ip2geo.Build.Builder.{Builder}

-- `remap[id]` for the string ids of a key; `none` is an index out of range.
unfoldable pub renumber_key : List ℕ → RecKey → Option RecKey
unfolding Option.bind
renumber_key remap k = Option.bind (get_elem? remap k.country_iso) λ iso.
    Option.bind (get_elem? remap k.country_name) λ nm.
      Option.bind (get_elem? remap k.continent) λ cont.
        Option.bind (get_elem? remap k.region_iso) λ riso.
          Option.bind (get_elem? remap k.region_name) λ rnm.
            Option.bind (get_elem? remap k.city_name) λ city.
              Option.map
                (λ tz. record k {
                  country_iso = iso;
                  country_name = nm;
                  continent = cont;
                  region_iso = riso;
                  region_name = rnm;
                  city_name = city;
                  tz = tz;
                })
                (get_elem? remap k.tz)

unfoldable pub renumber_block : List ℕ → List RecKey → Option (List RecKey)
unfolding Option.bind
renumber_block remap [] = some []
renumber_block remap (k ∷ ks) =
    Option.bind (renumber_key remap k)
      λ k'. Option.map (λ rest. k' ∷ rest) (renumber_block remap ks)

unfoldable pub renumber_blocks : List ℕ → List (List RecKey) → Option (List (List RecKey))
unfolding Option.bind
renumber_blocks remap [] = some []
renumber_blocks remap (b ∷ bs) =
    Option.bind (renumber_block remap b)
      λ b'. Option.map (λ rest. b' ∷ rest) (renumber_blocks remap bs)

-- The META block with final string ids and the counts of the build.
unfoldable pub final_meta : Builder → List ℕ → Option Meta
unfolding Option.bind
final_meta b remap = Option.bind (get_elem? remap b.meta.source_type) λ ty.
    Option.bind (get_elem? remap b.meta.language) λ la.
      Option.bind (get_elem? remap b.meta.description) λ de.
        Option.map
          (λ bu. record (b.meta) {
            source_type = ty;
            language = la;
            description = de;
            builder = bu;
            networks = b.networks;
            distinct_records = b.distinct;
          })
          (get_elem? remap b.meta.builder)

unfoldable pub final_ids : List ℕ → List ℕ → Option (List ℕ)
unfolding Option.bind
final_ids remap [] = some []
final_ids remap (i ∷ is) =
    Option.bind (get_elem? remap i) λ v. Option.map (λ rest. v ∷ rest) (final_ids remap is)

pub data FinishError : Type 0 where
  bad_strings : StringError → FinishError
  bad_encoding : EncodeError → FinishError

abbrev pub strings_checked : Result StringError (Unit {0}) → Result FinishError (Unit {0})
strings_checked (ok u) = ok u
strings_checked (err e) = err (bad_strings e)
strings_checked panic = panic

abbrev pub encoded : Result EncodeError (List ℕ) → Result FinishError (List ℕ)
encoded (ok b) = ok b
encoded (err e) = err (bad_encoding e)
encoded panic = panic

unfoldable pub build_result : Builder → Finished → Result FinishError BuildResult
build_result b f = do
  blocks ← or_panic (renumber_blocks f.remap b.recs.blocks)
  m ← or_panic (final_meta b f.remap)
  ls ← or_panic (final_ids f.remap b.langs)
  ok (record {
    strs = f.strs;
    recs = record { blocks = blocks; n = b.recs.n };
    v4b = finish b.v4m;
    v6b = finish6 b.v6m;
    meta = m;
    x = b.x;
    remap = f.remap;
    langs = ls;
  })

-- `Stats`.
pub record Stats : Type 0 where
  pub profile : ℕ
  pub networks : ℕ
  pub distinct_records : ℕ
  pub records : ℕ
  pub strings : ℕ
  pub v4_ranges : ℕ
  pub v6_ranges : ℕ
  pub bytes : ℕ

unfoldable pub finish_build : ℕ → Builder → Result FinishError (List ℕ × Stats)
finish_build max_int b = do
  let f = finish_strings b.strs
  strings_checked (check_string_table f.strs f.n_u16)
  br ← build_result b f
  buf ← encoded (encode max_int b.opts.profile b.opts.lat_scale br)
  ok (
    buf,
    record {
      profile = b.opts.profile;
      networks = b.networks;
      distinct_records = b.distinct;
      records = br.recs.n;
      strings = length br.strs;
      v4_ranges = br.v4b.n;
      v6_ranges = br.v6b.n;
      bytes = length buf;
    },
  )
