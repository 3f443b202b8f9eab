-- ===== src/Build/Options/Normal.antt =====
-- The normal form that `Normalize` of internal/build/build.go makes.
use ip2geo.Base.{
  ℕ, zero, suc, ◌≤◌, ◌≡◌, ◌≢◌, refl, sym, subst, ap, ◌∙◌, true, false, not, ◌&&◌, List, [], ◌∷◌,
  length, ltb, ◌==◌, ok, ok_injective, >>=-ok, >>-ok, refuse_if-ok, arith,
}
use native.Mathlib.Decide.{ℕ_discrete}
use ip2geo.Format.XLayout.{check_fields, has_field}
use ip2geo.Build.Strings.{Str}
use ip2geo.Build.Options.{
  Time, zero_time, before_epoch, since_epoch, Options, bad_options, allowed_from, allowed_fields,
  normal_fields, check_languages, normal_time, valid_string, normal_languages, seen_in,
  normal_lat_scale, normalize,
}

-- What a build relies on.
pub record IsNormal (o : Options) : Type 0 where
  pub profile_known : o.profile ≤ 3
  pub fields_allowed : check_fields o.profile o.fields ≡ true
  pub languages_distinct : check_languages [] o.languages ≡ ok tt
  pub one_language : o.languages ≢ []
  pub asn_language : o.profile ≡ 3 → length o.languages ≤ 1
  pub scale_fits : o.lat_scale ≤ 7
  pub scale_city : o.profile ≡ 2 → 1 ≤ o.lat_scale
  pub scale_other : o.profile ≢ 2 → o.lat_scale ≡ 0
  pub whole_second : (s : ℕ) × (o.build_time ≡ since_epoch s 0)
  pub description_fits : length o.description ≤ 65535
  pub description_valid : valid_string o.description ≡ true

allowed_allowed : (p : ℕ) → p ≤ 3 → check_fields p (allowed_fields p) ≡ true
unfolding allowed_fields allowed_from check_fields has_field
allowed_allowed zero le = refl
allowed_allowed (suc zero) le = refl
allowed_allowed (suc (suc zero)) le = refl
allowed_allowed (suc (suc (suc zero))) le = refl
allowed_allowed (suc (suc (suc (suc p)))) le = absurd (omega arith)

-- Only the city profile allows every set.
all_allowed : (p : ℕ) → p ≤ 3 → check_fields p 255 ≡ true → allowed_fields p ≡ 255
unfolding allowed_fields allowed_from check_fields has_field
all_allowed zero le e = absurd (ground arith)
all_allowed (suc zero) le e = absurd (ground arith)
all_allowed (suc (suc zero)) le e = refl
all_allowed (suc (suc (suc zero))) le e = absurd (ground arith)
all_allowed (suc (suc (suc (suc p)))) le e = absurd (omega arith)

normal_fields-allowed :
    (p fs fs' : ℕ) → p ≤ 3 → normal_fields p fs ≡ ok fs' → check_fields p fs' ≡ true
unfolding normal_fields
normal_fields-allowed p fs fs' le e = ground (arith, allowed_allowed p le)

normal_fields_again : (p fs : ℕ) → p ≤ 3 → check_fields p fs ≡ true → normal_fields p fs ≡ ok fs
unfolding normal_fields
normal_fields_again p fs le e = elim (ℕ_discrete fs 255) [
  | yes all ↦
      let same : allowed_fields p ≡ fs =
        all_allowed p le (subst (λ f. check_fields p f ≡ true) all e) ∙ sym all in
      ground (arith, same)
  | no ne ↦ ground (arith, ne)
]

normal_time-whole : (now t t' : Time) → normal_time now t ≡ ok t' → (s : ℕ) × (t' ≡ since_epoch s 0)
unfolding normal_time
normal_time-whole zero_time zero_time t' e = absurd (ground arith)
normal_time-whole before_epoch zero_time t' e = absurd (ground arith)
normal_time-whole (since_epoch s ns) zero_time t' e = (s, sym (ok_injective e))
normal_time-whole now before_epoch t' e = absurd (ground arith)
normal_time-whole now (since_epoch s ns) t' e = (s, sym (ok_injective e))

default_distinct :
    (ls : List Str)
    → check_languages [] ls ≡ ok tt
    → check_languages [] (normal_languages ls) ≡ ok tt
unfolding normal_languages check_languages seen_in
default_distinct [] e = refl
default_distinct (l ∷ ls) e = e

default_count :
    (ls : List Str)
    → (normal_languages ls ≢ []) × (length ls ≤ 1 → length (normal_languages ls) ≤ 1)
unfolding normal_languages
default_count [] = (λ e. ground arith, λ le. omega arith)
default_count (l ∷ ls) = (λ e. ground arith, λ le. le)

normalize-IsNormal : (now : Time) (o o' : Options) → normalize now o ≡ ok o' → IsNormal o'
unfolding normalize normal_lat_scale
normalize-IsNormal now o o' e =
    let (a1, e1) = refuse_if-ok (ltb 3 o.profile) bad_options _ e in
    let known : o.profile ≤ 3 = ground arith in
    let (fs, q2, e2) = >>=-ok (normal_fields o.profile o.fields) _ e1 in
    let (q3, e3) = >>-ok (check_languages [] o.languages) _ e2 in
    let (a4, e4) = refuse_if-ok (o.profile == 3 && ltb 1 (length o.languages)) bad_options _ e3 in
    let (a5, e5) = refuse_if-ok (ltb 7 o.lat_scale) bad_options _ e4 in
    let (t, q6, e6) = >>=-ok (normal_time now o.build_time) _ e5 in
    let (a7, e7) = refuse_if-ok (ltb 65535 (length o.description)) bad_options _ e6 in
    let (a8, e8) = refuse_if-ok (not (valid_string o.description)) bad_options _ e7 in
    let (some_language, few) = default_count o.languages in
    subst IsNormal (ok_injective e8) (record {
      profile_known = known;
      fields_allowed = normal_fields-allowed o.profile o.fields fs known q2;
      languages_distinct = default_distinct o.languages q3;
      one_language = some_language;
      asn_language = λ asn. few (ground arith);
      scale_fits = ground arith;
      scale_city = λ city. ground arith;
      scale_other = λ ne. ground arith;
      whole_second = normal_time-whole now o.build_time t q6;
      description_fits = ground arith;
      description_valid = ground arith;
    })

time_again : (now : Time) (s : ℕ) → normal_time now (since_epoch s 0) ≡ ok (since_epoch s 0)
unfolding normal_time
time_again now s = refl

languages_again : (ls : List Str) → ls ≢ [] → normal_languages ls ≡ ls
unfolding normal_languages
languages_again [] ne = absurd (ne refl)
languages_again (l ∷ ls) ne = refl

lat_again : (p n : ℕ) → (p ≡ 2 → 1 ≤ n) → (p ≢ 2 → n ≡ 0) → normal_lat_scale p n ≡ n
unfolding normal_lat_scale
lat_again p n city other = elim (ℕ_discrete p 2) [
  | yes e ↦ ground (arith, city e)
  | no ne ↦ ground (arith, other ne)
]

IsNormal-normalize : (now : Time) (o : Options) → IsNormal o → normalize now o ≡ ok o
unfolding normalize
IsNormal-normalize now o h =
    let (s, whole) = h.whole_second in
    let known : ltb 3 o.profile ≡ false = ground (arith, h.profile_known) in
    let asn : (o.profile == 3 && ltb 1 (length o.languages)) ≡ false =
      ground (arith, h.asn_language) in
    let scale : ltb 7 o.lat_scale ≡ false = ground (arith, h.scale_fits) in
    let time : normal_time now o.build_time ≡ ok o.build_time = rw whole (time_again now s) in
    let size : ltb 65535 (length o.description) ≡ false = ground (arith, h.description_fits) in
    rw
      (
        known,
        normal_fields_again o.profile o.fields h.profile_known h.fields_allowed,
        h.languages_distinct,
        asn,
        scale,
        time,
        size,
        h.description_valid,
        languages_again o.languages h.one_language,
      )
      (ap (λ n. ok (record o { lat_scale = n }))
        (lat_again o.profile o.lat_scale h.scale_city h.scale_other))

-- Options that `Normalize` accepts come out normal: the profile is known, its field sets allow it,
-- there is a language and none twice (one for ASN), the decimals fit and are 0 but for the city
-- profile, the time is whole seconds since 1970 and the description is short UTF-8. Normalizing
-- normal options again, whenever, changes nothing.
pub normalize_again :
    (now later : Time) (o o' : Options)
    → normalize now o ≡ ok o'
    → IsNormal o' × (normalize later o' ≡ ok o')
normalize_again now later o o' e =
    let h = normalize-IsNormal now o o' e in (h, IsNormal-normalize later o' h)
