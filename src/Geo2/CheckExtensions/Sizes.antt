-- ===== src/Geo2/CheckExtensions/Sizes.antt =====
-- The layout that `checkExtensions` returns fits XRECORDS.
use ip2geo.Base.{
  ℕ, ◌+◌, ◌-◌, ◌*◌, ◌/◌, ◌^◌, ◌≡◌, some, sym, ap, ◌∙◌, Bool, Bool-cases, inl, inr, true, false,
  ◌&&◌, ◌||◌, not, List, length, ◌==◌, Result, ok, err, >>=-ok, >>-ok, or_panic-ok, refuse_if-ok,
  ok_injective, arith, if◌then◌else◌,
}
use ip2geo.Bytes.{le_at}
use ip2geo.Format.Layout.{profile_asn}
use ip2geo.Format.XLayout.{XLayout, new_x_layout, check_fields, num_fields}
use ip2geo.Geo2.Errors.{OpenError, corrupt, unsupported_version}
use ip2geo.Geo2.CheckExtensions.{
  Extensions, is_present, bytes_of, lang_count, check_langs, check_x_records, check_present,
  check_extensions,
}

equal_of : (a b : ℕ) → not (a == b) ≡ false → a ≡ b
equal_of a b e = ground arith

true_of : (c : Bool) → not c ≡ false → c ≡ true
true_of c e = ground arith

-- The cases of the switch before the sections are looked at.
last_case :
    {A : Type 0} (a b c d : Bool) (z m : Result OpenError A) {r : A}
    → (if a
        then err corrupt
        else if b
        then err corrupt
        else if c
        then err corrupt
        else if not d
        then z
        else m)
      ≡ ok r
    → d ≡ true
    → m ≡ ok r
last_case true b c d z m e h = absurd (ground arith)
last_case false true c d z m e h = absurd (ground arith)
last_case false false true d z m e h = absurd (ground arith)
last_case false false false true z m e h = e
last_case false false false false z m e h = absurd (ground arith)

-- One language's layout and `n` languages' differ by the names alone.
width_of_one :
    (p fields n : ℕ)
    → let base = new_x_layout p fields 1 in
      base.width + (n - 1) * 3 * length base.kinds ≡ (new_x_layout p fields n).width
unfolding new_x_layout
width_of_one p fields n = elim (Bool-cases (p == profile_asn)) [
  | inl t ↦ rw t (omega arith)
  | inr t ↦ rw t (omega arith)
]

-- What an accepted XFIELDS and LANGS say: the field set bits, allowed for the profile, in the low
-- word of XFIELDS, whose other word is zero; the languages; and the layout of the entries.
pub record IsExtension (p n_records : ℕ) (x : Extensions) (fields : ℕ) (l : XLayout) : Type 0 where
  pub size : length (bytes_of x.x_fields) ≡ 8
  pub stored : le_at 4 (bytes_of x.x_fields) 0 ≡ some fields
  pub reserved : le_at 4 (bytes_of x.x_fields) 4 ≡ some 0
  pub allowed : check_fields p fields ≡ true
  pub languages : ℕ
  pub counted : lang_count x.langs ≡ ok languages
  pub laid_out : new_x_layout p fields languages ≡ l
  pub records : length (bytes_of x.x_records) ≡ l.width * n_records

check_present-width :
    (p ns n_records language : ℕ) (idx blob : List ℕ) (x : Extensions) (fields : ℕ) (l : XLayout)
    → check_present p ns n_records language idx blob x ≡ ok (fields, l)
    → IsExtension p n_records x fields l
unfolding check_present
check_present-width p ns n_records language idx blob x fields l e =
    let xf = bytes_of x.x_fields in
    let (eight, e1) = refuse_if-ok (not (length xf == 8)) corrupt _ e in
    let (f, low, e2) = or_panic-ok (le_at 4 xf 0) _ e1 in
    let (v, high, e3) = or_panic-ok (le_at 4 xf 4) _ e2 in
    let (z, e4) = refuse_if-ok (not (v == 0)) corrupt _ e3 in
    let (_, e5) = refuse_if-ok (not (f / 2 ^ num_fields == 0)) unsupported_version _ e4 in
    let (c, e6) = refuse_if-ok (not (check_fields p f)) corrupt _ e5 in
    let (n, langs, e7) = >>=-ok (lang_count x.langs) _ e6 in
    let base = new_x_layout p f 1 in
    let (s, e8) =
      refuse_if-ok
        (not (
          length (bytes_of x.x_records)
          == (base.width + (n - 1) * 3 * length base.kinds) * n_records))
        corrupt _ e7 in
    let lay = new_x_layout p f n in
    let (_, e9) =
      >>-ok
        (if is_present x.langs then check_langs idx blob (bytes_of x.langs) ns language else ok tt)
        _ e8 in
    let (_, e10) = >>-ok (check_x_records lay f ns n_records (bytes_of x.x_records)) _ e9 in
    let same = ok_injective e10 in
    let size : length (bytes_of x.x_records)
        ≡ (base.width + (n - 1) * 3 * length base.kinds) * n_records =
      equal_of _ _ s in
    let bits : f ≡ fields = ap (λ q. q.0) same in
    let lay_is : lay ≡ l = ap (λ q. q.1) same in
    record {
      size = equal_of _ _ eight;
      stored = low ∙ ap some bits;
      reserved = high ∙ ap some (equal_of _ _ z);
      allowed = ap (check_fields p) (sym bits) ∙ true_of _ c;
      languages = n;
      counted = langs;
      laid_out = ap (λ g. new_x_layout p g n) (sym bits) ∙ lay_is;
      records =
          size
          ∙ ap (λ w. w * n_records) (width_of_one p f n)
          ∙ ap (λ k. k.width * n_records) lay_is;
    }

-- Extension sections that are accepted, XFIELDS present: XFIELDS is the word of the returned field set
-- bits, allowed for the profile, and a zero word, the returned layout is that of these bits and of the
-- languages counted, and XRECORDS is one entry of its width for each record.
pub check_extensions-width :
    (p ns n_records language : ℕ) (idx blob : List ℕ) (x : Extensions) (fields : ℕ) (l : XLayout)
    → is_present x.x_fields ≡ true
    → check_extensions p ns n_records language idx blob x ≡ ok (fields, l)
    → IsExtension p n_records x fields l
unfolding check_extensions
check_extensions-width p ns n_records language idx blob x fields l here e =
    check_present-width p ns n_records language idx blob x fields l (
      last_case
        (p == profile_asn
          && (is_present x.x_fields || is_present x.x_records || is_present x.langs))
        (if is_present x.x_fields then not (is_present x.x_records) else is_present x.x_records)
        (is_present x.langs && not (is_present x.x_fields)) (is_present x.x_fields)
        (ok (0, new_x_layout p 0 1)) (check_present p ns n_records language idx blob x) e here)
