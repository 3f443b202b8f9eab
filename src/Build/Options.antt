-- ===== src/Build/Options.antt =====
-- internal/build/build.go: `Options`, `allowedFields` and `Normalize`; with it what it calls of the
-- standard library's unicode/utf8 and time.
pub mod Normal
use ip2geo.Base.{
  ℕ, zero, suc, ◌+◌, ◌-◌, ◌^◌, Bool, true, false, ◌&&◌, ◌||◌, not, List, [], ◌∷◌, length, ltb, leb,
  ◌==◌, Result, ok, err, ◌>>=◌, ◌>>◌, refuse_if, if◌then◌else◌,
}
use ip2geo.Format.Header.{bytes_eq, max_lat_scale}
use ip2geo.Format.Layout.{profile_asn}
use ip2geo.Format.XLayout.{check_fields, num_fields}
use ip2geo.Build.Strings.{Str}

-- `time.Time`, as far as the builder looks at it: the zero time, a time before 1970, or seconds and
-- nanoseconds since.
pub data Time : Type 0 where
  zero_time before_epoch : Time
  since_epoch : ℕ → ℕ → Time

pub record Options : Type 0 where
  pub profile : ℕ
  pub fields : ℕ
  pub languages : List Str
  pub lat_scale : ℕ
  pub build_time : Time
  pub description : Str

-- ErrOptions.
pub data OptionsError : Type 0 where
  bad_options : OptionsError

abbrev pub default_lat_scale : ℕ
default_lat_scale = 4

-- `ip2geo.FieldsAll`.
abbrev pub fields_all : ℕ
fields_all = 2 ^ num_fields - 1

-- The loop of `allowedFields` over the bits from `b` on, `left` of them.
unfoldable pub allowed_from : ℕ → ℕ → ℕ → ℕ
allowed_from profile zero b = 0
allowed_from profile (suc left) b =
    (if check_fields profile (2 ^ b) then 2 ^ b else 0) + allowed_from profile left (b + 1)

unfoldable pub allowed_fields : ℕ → ℕ
allowed_fields profile = allowed_from profile num_fields 0

unfoldable pub normal_fields : ℕ → ℕ → Result OptionsError ℕ
normal_fields profile fields =
    if fields == fields_all
    then ok (allowed_fields profile)
    else if check_fields profile fields
    then ok fields
    else err bad_options

unfoldable pub seen_in : List Str → Str → Bool
seen_in [] l = false
seen_in (s ∷ seen) l = bytes_eq s l || seen_in seen l

-- `for _, l := range o.Languages`.
unfoldable pub check_languages : List Str → List Str → Result OptionsError (Unit {0})
check_languages seen [] = ok tt
check_languages seen ([] ∷ ls) = err bad_options
check_languages seen ((c ∷ l) ∷ ls) =
    refuse_if (seen_in seen (c ∷ l)) bad_options >> check_languages ((c ∷ l) ∷ seen) ls

-- `IsZero`, `Unix() < 0` and `UTC().Truncate(time.Second)`; `now` is `time.Now()`.
unfoldable pub normal_time : Time → Time → Result OptionsError Time
normal_time now zero_time = truncate now
  where
    truncate : Time → Result OptionsError Time
    truncate (since_epoch s ns) = ok (since_epoch s 0)
    truncate _ = err bad_options
normal_time now (since_epoch s ns) = ok (since_epoch s 0)
normal_time now before_epoch = err bad_options

-- The first byte of a UTF-8 sequence: how many bytes follow, and the range of the next one.
unfoldable pub utf8_first : ℕ → ℕ × ℕ × ℕ × Bool
utf8_first c =
    if ltb c 0x80
    then (0, 0, 0, true)
    else if ltb c 0xc2
    then (0, 0, 0, false)
    else if ltb c 0xe0
    then (1, 0x80, 0xbf, true)
    else if c == 0xe0
    then (2, 0xa0, 0xbf, true)
    else if c == 0xed
    then (2, 0x80, 0x9f, true)
    else if ltb c 0xf0
    then (2, 0x80, 0xbf, true)
    else if c == 0xf0
    then (3, 0x90, 0xbf, true)
    else if ltb c 0xf4
    then (3, 0x80, 0xbf, true)
    else if c == 0xf4
    then (3, 0x80, 0x8f, true)
    else (0, 0, 0, false)

-- `utf8.ValidString`, with `left` bytes of a sequence to come, the next one between `lo` and `hi`.
unfoldable pub valid_from : ℕ → ℕ → ℕ → List ℕ → Bool
valid_from zero lo hi [] = true
valid_from (suc left) lo hi [] = false
valid_from zero lo hi (c ∷ s) =
    let (left, lo', hi', good) = utf8_first c in good && valid_from left lo' hi' s
valid_from (suc left) lo hi (c ∷ s) = (leb lo c && leb c hi) && valid_from left 0x80 0xbf s

unfoldable pub valid_string : Str → Bool
valid_string s = valid_from 0 0 0 s

-- The languages and the number of decimals after the defaults.
unfoldable pub normal_languages : List Str → List Str
normal_languages [] = (b'e' ∷ b'n' ∷ []) ∷ []
normal_languages (l ∷ ls) = l ∷ ls

unfoldable pub normal_lat_scale : ℕ → ℕ → ℕ
normal_lat_scale profile scale =
    if not (profile == 2) then 0 else if scale == 0 then default_lat_scale else scale

unfoldable pub normalize : Time → Options → Result OptionsError Options
normalize now o = do
  refuse_if (ltb profile_asn o.profile) bad_options
  fs ← normal_fields o.profile o.fields
  check_languages [] o.languages
  refuse_if (o.profile == profile_asn && ltb 1 (length o.languages)) bad_options
  refuse_if (ltb max_lat_scale o.lat_scale) bad_options
  t ← normal_time now o.build_time
  refuse_if (ltb 0xffff (length o.description)) bad_options
  refuse_if (not (valid_string o.description)) bad_options
  ok (record {
    profile = o.profile;
    fields = fs;
    languages = normal_languages o.languages;
    lat_scale = normal_lat_scale o.profile o.lat_scale;
    build_time = t;
    description = o.description;
  })
