-- ===== src/Csv/Layout/Columns.antt =====
-- The names of the CSV formats.
use ip2geo.Base.{
  ℕ, zero, suc, ◌+◌, ◌-◌, ◌≤◌, ◌==◌, ◌≡◌, ◌≢◌, ◌↔◌, sym, ap, subst, ◌∙◌, Bool-cases, true, false,
  inl, inr, some, some_injective, List, [], ◌∷◌, get_elem?, get_elem?_bound, arith,
}
use ip2geo.Format.Header.{bytes_eq}
use ip2geo.Build.Strings.{Str}
use ip2geo.Build.Strings.Ids.{bytes_eq-eq}
use ip2geo.Csv.Layout.{format_names, format_name, valid_format, parse_from, parse_format}

-- The format found lies from `k` on, and `names` has `s` there.
record IsFound (names : List Str) (k : ℕ) (s : Str) (f : ℕ) : Type 0 where
  low : k ≤ f
  found : get_elem? names (f - k) ≡ some s
  not_empty : s ≢ []

later_name :
    (name : Str) (names : List Str) (k : ℕ) (s : Str) (f : ℕ)
    → IsFound names (k + 1) s f
    → IsFound (name ∷ names) k s f
later_name name names k s f h =
    let shift : f - k ≡ suc (f - (k + 1)) = omega (arith, h.low) in
    record { low = omega (arith, h.low); found = rw shift h.found; not_empty = h.not_empty }

parse_from-IsFound :
    (names : List Str) (k : ℕ) (s : Str) (f : ℕ)
    → parse_from names k s ≡ some f
    → IsFound names k s f
unfolding parse_from
parse_from-IsFound [] k s f e = absurd (ground arith)
parse_from-IsFound ([] ∷ names) k s f e =
    later_name [] names k s f (parse_from-IsFound names (k + 1) s f e)
parse_from-IsFound ((c ∷ name) ∷ names) k s f e = elim (Bool-cases (bytes_eq (c ∷ name) s)) [
  | inl t ↦
      let here : f ≡ k = ground (arith, t) in
      let same = bytes_eq-eq (c ∷ name) s t in
      let first : f - k ≡ 0 = omega arith in
      record {
        low = omega arith;
        found = rw first (ap some same);
        not_empty = λ z. absurd (ground (arith, same ∙ z));
      }
  | inr n ↦
      later_name (c ∷ name) names k s f (parse_from-IsFound names (k + 1) s f (ground (arith, n)))
]

names_parse :
    (f : ℕ) (s : Str) → valid_format f ≡ true → format_name f ≡ some s → parse_format s ≡ some f
unfolding valid_format format_name format_names parse_format parse_from bytes_eq
names_parse zero s v e = absurd (ground arith)
names_parse (suc zero) s v e = ap parse_format (sym (some_injective e))
names_parse (suc (suc zero)) s v e = ap parse_format (sym (some_injective e))
names_parse (suc (suc (suc zero))) s v e = ap parse_format (sym (some_injective e))
names_parse (suc (suc (suc (suc zero)))) s v e = ap parse_format (sym (some_injective e))
names_parse (suc (suc (suc (suc (suc zero))))) s v e = ap parse_format (sym (some_injective e))
names_parse (suc (suc (suc (suc (suc (suc f)))))) s v e = absurd (ground arith)

named :
    (f : ℕ) (s : Str)
    → IsFound format_names 0 s f
    → (valid_format f ≡ true) × (format_name f ≡ some s)
unfolding format_names format_name valid_format
named zero s h = absurd (h.not_empty (sym (some_injective h.found)))
named (suc f) s h =
    let same : suc f - 0 ≡ suc f = omega arith in
    let found = subst (λ i. get_elem? format_names i ≡ some s) same h.found in
    let small = get_elem?_bound format_names (suc f) s found in
    let t : (suc f == 0) ≡ false = ground arith in (ground (arith, small), rw t found)

-- `ParseFormat` takes exactly the names that `String` gives the valid formats, each for its format.
pub parse_format_iff :
    (s : Str) (f : ℕ)
    → (parse_format s ≡ some f) ↔ ((valid_format f ≡ true) × (format_name f ≡ some s))
unfolding parse_format
parse_format_iff s f =
    (λ e. named f s (parse_from-IsFound format_names 0 s f e), λ h. names_parse f s h.0 h.1)
