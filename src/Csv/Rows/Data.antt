-- ===== src/Csv/Rows/Data.antt =====
-- What the data of a row depends on: `fill` of csvdb/reader.go and the columns of the key.
use ip2geo.Base.{
  ℕ, ◌≡◌, ◌≢◌, refl, ap, subst, if◌then◌else◌, ◌∙◌, Bool, true, false, Bool-cases, Option-cases,
  Result-cases, inl, inr, Option, List, [], ◌∷◌, ◌++◌, All, leb, ◌==◌, Result, ok, err, panic,
  ◌>>=◌, arith,
}
use ip2geo.Format.XLayout.{has_field, field_postal}
use ip2geo.Build.Strings.{Str}
use ip2geo.Build.Record.{Record}
use ip2geo.Csv.Number.{parse_uint32}
use ip2geo.Csv.Layout.{Layout}
use ip2geo.Csv.Rows.{
  Rows, present_cols, key_cols_of, str_of, row_key, value, fill, fill_asn, fill_country,
  fill_region, fill_city,
}
use ip2geo.Csv.Rows.Keys.{IsShortRow, Agree, row_key-Agree}

Agree-present :
    (row other : List Str) (cs : List ℕ)
    → All (Agree row other) (present_cols cs)
    → All (λ c. c ≢ 0 → Agree row other c) cs
unfolding present_cols
Agree-present row other [] h = tt
Agree-present row other (c ∷ cs) h = elim (Bool-cases (c == 0)) [
  | inl t ↦ (λ n. absurd (n (ground arith)), Agree-present row other cs (rw t at h))
  | inr t ↦
      let h' : Agree row other c × All (Agree row other) (present_cols cs) = rw t at h in
      (λ n. h'.0, Agree-present row other cs h'.1)
]

value_same :
    (l : Layout) (row other : List Str) (c : ℕ)
    → (c ≢ 0 → Agree row other c)
    → value l row c ≡ value l other c
unfolding value
value_same l row other c h = elim (Bool-cases (c == 0)) [
  | inl t ↦ rw t refl
  | inr t ↦ let same = h (λ z. absurd (ground (arith, z, t))) in rw (t, same) refl
]

All-append_left : {A : Type 0} (P : A → Type 0) (xs ys : List A) → All P (xs ++ ys) → All P xs
All-append_left P [] ys h = tt
All-append_left P (x ∷ xs) ys h = (h.0, All-append_left P xs ys h.1)

All-append_right : {A : Type 0} (P : A → Type 0) (xs ys : List A) → All P (xs ++ ys) → All P ys
All-append_right P [] ys h = h
All-append_right P (x ∷ xs) ys h = All-append_right P xs ys h.1

bind_same :
    {E A B : Type 0} (x : Result E A) (f g : A → Result E B)
    → ((a : A) → f a ≡ g a)
    → (x >>= f) ≡ (x >>= g)
bind_same (ok a) f g h = h a
bind_same (err e) f g h = refl
bind_same panic f g h = refl

module _ {F : Type 0} (parse_float : Str → Option F) (within : F → ℕ → Bool)
    (empty : Record F) where
  fill_asn_same :
      (l : Layout) (row other : List Str)
      → All (Agree row other) (present_cols (l.as_num ∷ l.as_org ∷ []))
      → fill_asn parse_float within empty l row ≡ fill_asn parse_float within empty l other
  unfolding fill_asn
  fill_asn_same l row other h =
      let (a, (b, _)) = Agree-present row other (l.as_num ∷ l.as_org ∷ []) h in
      let num = value_same l row other l.as_num a in
      let org = value_same l row other l.as_org b in
      elim (Result-cases (value l other l.as_num)) [
        | inl (x, t) ↦ elim (Option-cases (parse_uint32 (str_of x))) [
          | inl n ↦ rw (num, t, n) refl
          | inr (v, n) ↦ rw (num, t, n, org) refl
        ]
        | inr (inl (x, t)) ↦ rw (num, t) refl
        | inr (inr t) ↦ rw (num, t) refl
      ]

  fill_country_same :
      (l : Layout) (row other : List Str)
      → All (Agree row other) (present_cols (l.continent ∷ l.country ∷ l.country_name ∷ []))
      → fill_country parse_float within empty l row ≡ fill_country parse_float within empty l other
  unfolding fill_country
  fill_country_same l row other h =
      let (a, (b, (c, _))) =
        Agree-present row other (l.continent ∷ l.country ∷ l.country_name ∷ []) h in
      rw
        (
          value_same l row other l.continent a,
          value_same l row other l.country b,
          value_same l row other l.country_name c,
        )
        refl

  fill_region_same :
      (l : Layout) (row other : List Str) (rec : Record F)
      → All (Agree row other) (present_cols (l.region ∷ []))
      → fill_region parse_float within empty l row rec
        ≡ fill_region parse_float within empty l other rec
  unfolding fill_region
  fill_region_same l row other rec h =
      let (a, _) = Agree-present row other (l.region ∷ []) h in
      rw (value_same l row other l.region a) refl

  fill_city_same :
      (r : Rows) (row other : List Str) (rec : Record F)
      → All (Agree row other) (present_cols (r.l.city ∷ r.l.lat ∷ r.l.lon ∷ []))
      → (has_field r.fields field_postal ≡ true
          → All (Agree row other) (present_cols (r.l.postal ∷ [])))
      → fill_city parse_float within empty r row rec
        ≡ fill_city parse_float within empty r other rec
  unfolding fill_city
  fill_city_same r row other rec h p =
      let (a, (b, (c, _))) = Agree-present row other (r.l.city ∷ r.l.lat ∷ r.l.lon ∷ []) h in
      let city = value_same r.l row other r.l.city a in
      let lat = value_same r.l row other r.l.lat b in
      let lon = value_same r.l row other r.l.lon c in
      elim (Bool-cases (has_field r.fields field_postal)) [
        | inl t ↦
            let (d, _) = Agree-present row other (r.l.postal ∷ []) (p t) in
            rw (t, city, value_same r.l row other r.l.postal d, lat, lon) refl
        | inr t ↦ rw (t, city, lat, lon) refl
      ]

  -- What a row's data depends on besides the row.
  pub fill_frame :
      (r other : Rows) (row : List Str)
      → other.l ≡ r.l
      → other.profile ≡ r.profile
      → other.fields ≡ r.fields
      → fill parse_float within empty other row ≡ fill parse_float within empty r row
  unfolding fill fill_city
  fill_frame r other row l p f =
      ap
        (λ x.
          fill parse_float within empty
            (record r { l = x; profile = other.profile; fields = other.fields }) row)
        l
      ∙ ap
          (λ x. fill parse_float within empty (record r { profile = x; fields = other.fields }) row)
          p
      ∙ ap (λ x. fill parse_float within empty (record r { fields = x }) row) f

  region_if :
      (c : Bool) (l : Layout) (row other : List Str) (rec : Record F)
      → All (Agree row other) (if c then present_cols (l.region ∷ []) else [])
      → (if c then fill_region parse_float within empty l row rec else ok rec)
        ≡ (if c then fill_region parse_float within empty l other rec else ok rec)
  region_if true l row other rec h = fill_region_same l row other rec h
  region_if false l row other rec h = refl

  city_if :
      (c : Bool) (r : Rows) (row other : List Str) (rec : Record F)
      → All (Agree row other) (
          if c
          then present_cols (r.l.city ∷ r.l.lat ∷ r.l.lon ∷ [])
            ++ (if has_field r.fields field_postal then present_cols (r.l.postal ∷ []) else [])
          else [])
      → (if c then fill_city parse_float within empty r row rec else ok rec)
        ≡ (if c then fill_city parse_float within empty r other rec else ok rec)
  city_if true r row other rec h =
      let cols = present_cols (r.l.city ∷ r.l.lat ∷ r.l.lon ∷ []) in
      let rest = if has_field r.fields field_postal then present_cols (r.l.postal ∷ []) else [] in
      let last : All (Agree row other) rest = All-append_right (Agree row other) cols rest h in
      fill_city_same r row other rec (All-append_left (Agree row other) cols rest h)
        (λ t. rw t at last)
  city_if false r row other rec h = refl

  fill_places_same :
      (r : Rows) (row other : List Str)
      → (r.profile == 3) ≡ false
      → All (Agree row other) (key_cols_of r.l r.profile r.fields)
      → fill parse_float within empty r row ≡ fill parse_float within empty r other
  unfolding fill key_cols_of
  fill_places_same r row other t h =
      let country = present_cols (r.l.continent ∷ r.l.country ∷ r.l.country_name ∷ []) in
      let region = if leb 1 r.profile then present_cols (r.l.region ∷ []) else [] in
      let city =
        if leb 2 r.profile
        then present_cols (r.l.city ∷ r.l.lat ∷ r.l.lon ∷ [])
          ++ (if has_field r.fields field_postal then present_cols (r.l.postal ∷ []) else [])
        else [] in
      let all : All (Agree row other) (country ++ (region ++ city)) = rw t at h in
      let late = All-append_right (Agree row other) country (region ++ city) all in
      let first =
        fill_country_same r.l row other
          (All-append_left (Agree row other) country (region ++ city) all) in
      rw (t, first)
        (bind_same (fill_country parse_float within empty r.l other) _ _ (λ rec.
          ap
            (λ x. x >>= λ rec'.
              if leb 2 r.profile then fill_city parse_float within empty r row rec' else ok rec')
            (region_if (leb 1 r.profile) r.l row other rec
              (All-append_left (Agree row other) region city late))
          ∙ bind_same
              (if leb 1 r.profile
                then fill_region parse_float within empty r.l other rec
                else ok rec)
              _ _
              (λ rec'.
                city_if (leb 2 r.profile) r row other rec'
                  (All-append_right (Agree row other) region city late))))

  fill_same :
      (r : Rows) (row other : List Str)
      → All (Agree row other) (key_cols_of r.l r.profile r.fields)
      → fill parse_float within empty r row ≡ fill parse_float within empty r other
  unfolding fill key_cols_of
  fill_same r row other h = elim (Bool-cases (r.profile == 3)) [
    | inl t ↦ rw t (fill_asn_same r.l row other (rw t at h))
    | inr t ↦ fill_places_same r row other t h
  ]

  -- Rows with the same key have the same data.
  pub row_key-fill :
      (r : Rows) (row other : List Str) (k : Str)
      → r.key_cols ≡ key_cols_of r.l r.profile r.fields
      → IsShortRow row
      → row_key r.key_cols row ≡ ok k
      → row_key r.key_cols other ≡ ok k
      → fill parse_float within empty r row ≡ fill parse_float within empty r other
  row_key-fill r row other k cols short a b =
      fill_same r row other
        (subst (All (Agree row other)) cols (row_key-Agree r.key_cols row other k short a b))
