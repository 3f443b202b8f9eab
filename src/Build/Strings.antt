-- ===== src/Build/Strings.antt =====
-- internal/build/strings.go: the `interner` and `checkStrings`. A string is the list of its bytes.
mod Place
pub mod Finish
pub mod Ids
use ip2geo.Base.{
  ℕ, zero, suc, ◌+◌, ◌^◌, Bool, true, false, Option, none, some, List, [], ◌∷◌, ◌++◌, length, set,
  replicate, ltb, Result, err, ok, ◌>>=◌, ◌>>◌, refuse_if, if◌then◌else◌,
}
use ip2geo.Format.Header.{bytes_eq}

abbrev pub Str : Type 0
Str = List ℕ

-- `m` is the map as an association list, the last entry added first.
pub record Interner : Type 0 where
  pub m : List (Str × ℕ)
  pub strings : List Str
  pub u16 : List Bool

unfoldable pub new_interner : Interner
new_interner = record { m = ([], 0) ∷ []; strings = [] ∷ []; u16 = true ∷ [] }

unfoldable pub lookup : List (Str × ℕ) → Str → Option ℕ
lookup [] s = none
lookup ((t, v) ∷ m) s = if bytes_eq t s then some v else lookup m s

-- The string's number, and the interner after the call.
unfoldable pub id : Interner → Str → ℕ × Interner
id in_ [] = (0, in_)
id in_ (c ∷ s) = go (lookup in_.m (c ∷ s))
  where
    go : Option ℕ → ℕ × Interner
    go (some v) = (v, in_)
    go none =
        let v = length in_.strings in
        (
          v,
          record {
            m = (c ∷ s, v) ∷ in_.m;
            strings = in_.strings ++ ((c ∷ s) ∷ []);
            u16 = in_.u16 ++ (false ∷ []);
          },
        )

unfoldable pub id16 : Interner → Str → ℕ × Interner
id16 in_ s = let (v, in') = id in_ s in (v, record in' { u16 = set in'.u16 v true })

-- `nU16`, the number of strings that 16-bit fields use.
unfoldable pub count_used : List Bool → ℕ
count_used [] = 0
count_used (true ∷ us) = suc (count_used us)
count_used (false ∷ us) = count_used us

-- The loop over `in.list`, from the string with flag `u` on: `remap` lists its writes in order.
unfoldable pub place : List Bool → List Str → ℕ → ℕ → List Str → List Str × List ℕ
place (true ∷ us) (s ∷ ss) next16 next strs =
    let (strs', remap) = place us ss (next16 + 1) next (set strs next16 s) in
    (strs', next16 ∷ remap)
place (false ∷ us) (s ∷ ss) next16 next strs =
    let (strs', remap) = place us ss next16 (next + 1) (set strs next s) in (strs', next ∷ remap)
place _ _ next16 next strs = (strs, [])

pub record Finished : Type 0 where
  pub strs : List Str
  pub remap : List ℕ
  pub n_u16 : ℕ

unfoldable pub finish_strings : Interner → Finished
finish_strings in_ =
    let n_u16 = count_used in_.u16 in
    let (strs, remap) = place in_.u16 in_.strings 0 n_u16 (replicate (length in_.strings) []) in
    record { strs = strs; remap = remap; n_u16 = n_u16 }

pub data StringError : Type 0 where
  string_too_long too_many_strings : StringError

abbrev pub max_u16_strings : ℕ
max_u16_strings = 2 ^ 16

abbrev pub max_strings : ℕ
max_strings = 2 ^ 24

abbrev pub max_str_blob : ℕ
max_str_blob = 0xffffffff

unfoldable pub check_string_counts : ℕ → ℕ → ℕ → Result StringError (Unit {0})
check_string_counts n_strings n_u16 blob = do
  refuse_if (ltb max_u16_strings n_u16) too_many_strings
  refuse_if (ltb max_strings n_strings) too_many_strings
  refuse_if (ltb max_str_blob blob) too_many_strings

-- The loop of `checkStrings`: the total size of the strings.
unfoldable pub blob_size : List Str → ℕ → Result StringError ℕ
blob_size [] blob = ok blob
blob_size (s ∷ ss) blob =
    refuse_if (ltb 0xffff (length s)) string_too_long >> blob_size ss (blob + length s)

unfoldable pub check_string_table : List Str → ℕ → Result StringError (Unit {0})
check_string_table strs n_u16 =
    blob_size strs 0 >>= λ blob. check_string_counts (length strs) n_u16 blob
