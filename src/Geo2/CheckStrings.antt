-- ===== src/Geo2/CheckStrings.antt =====
-- geo2.go: `checkStrings`, the string half of rule 5 of the reader requirements, `str` and `heapStrings`.
pub mod Slices
use ip2geo.Base.{
  ℕ, zero, suc, ◌+◌, ◌-◌, ◌*◌, ◌/◌, Bool, true, false, ◌&&◌, not, Option, none, some, List, [], ◌∷◌,
  length, take, drop, ltb, leb, ◌==◌, Result, ok, ◌>>=◌, ◌>>◌, refuse_if, or_panic, if◌then◌else◌,
}
use mathlib.Core.Option
use ip2geo.Bytes.{le_at}
use ip2geo.Format.Meta.{Meta}
use ip2geo.Geo2.Errors.{OpenError, corrupt}

-- `for i := 1; i <= g.nStrings; i++`, from `i` on with `left` rounds to go: the last offset.
unfoldable pub check_offsets : List ℕ → ℕ → ℕ → ℕ → Result OpenError ℕ
check_offsets idx zero i prev = ok prev
check_offsets idx (suc left) i prev = do
  v ← or_panic (le_at 4 idx (i * 4))
  refuse_if (ltb v prev) corrupt
  check_offsets idx left (i + 1) v

-- String 0 is looked at only when there is one.
unfoldable pub check_first : List ℕ → ℕ → Result OpenError (Unit {0})
check_first idx n =
    if ltb 0 n then (or_panic (le_at 4 idx 4) >>= λ v. refuse_if (not (v == 0)) corrupt) else ok tt

unfoldable pub check_meta_ids : Meta → ℕ → Result OpenError (Unit {0})
check_meta_ids m n = do
  refuse_if (leb n m.source_type) corrupt
  refuse_if (leb n m.language) corrupt
  refuse_if (leb n m.description) corrupt
  refuse_if (leb n m.builder) corrupt

-- `idx` is STRIDX, `blob` the length of STRBLOB, `n` the string count.
unfoldable pub check_strings : List ℕ → ℕ → ℕ → Meta → Result OpenError (Unit {0})
check_strings idx blob n m = do
  v ← or_panic (le_at 4 idx 0)
  refuse_if (not (v == 0)) corrupt
  prev ← check_offsets idx n 1 0
  refuse_if (not (prev == blob)) corrupt
  check_first idx n
  check_meta_ids m n

-- `blob[a:e]`.
unfoldable pub slice_from : List ℕ → ℕ → ℕ → Option (List ℕ)
slice_from blob a e =
    if ltb e a
    then none
    else if ltb (length blob) e
    then none
    else some (take (e - a) (drop a blob))

-- The bytes of string `id`.
unfoldable pub str : List ℕ → List ℕ → ℕ → Option (List ℕ)
unfolding Option.bind
str idx blob id =
    Option.bind (le_at 4 idx (id * 4))
      λ a. Option.bind (le_at 4 idx (id * 4 + 4)) λ e. slice_from blob a e

-- The string of the offsets `a` and `e`: the empty one needs no byte of the blob.
unfoldable pub heap_string : List ℕ → ℕ → ℕ → Option (List ℕ)
heap_string blob a e = if ltb a e then slice_from blob a e else some []

-- The strings from `i` on, `count` of them.
unfoldable pub heap_strings_from : List ℕ → List ℕ → ℕ → ℕ → Option (List (List ℕ))
unfolding Option.bind
heap_strings_from idx blob zero i = some []
heap_strings_from idx blob (suc count) i = Option.bind (le_at 4 idx (i * 4)) λ a.
    Option.bind (le_at 4 idx (i * 4 + 4)) λ e.
      Option.bind (heap_string blob a e)
        λ s. Option.map (λ rest. s ∷ rest) (heap_strings_from idx blob count (i + 1))

unfoldable pub heap_strings : List ℕ → List ℕ → Option (List (List ℕ))
heap_strings idx blob = heap_strings_from idx blob (length idx / 4 - 1) 0
