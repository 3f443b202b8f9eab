-- ===== src/Build/PackRecord/Packed.antt =====
-- A packed record is the record's fields one after the other, whatever the array held before.
use ip2geo.Base.{
  ℕ, zero, suc, ◌+◌, ◌%◌, ◌^◌, ◌≤◌, ◌≡◌, refl, sym, ap, ◌∙◌, List, [], ◌∷◌, ◌++◌, length,
  length-append, length-take, length-drop, take-append, take, drop, arith,
}
use mathlib.Core.List.{append_assoc, append-nil}
use ip2geo.Bytes.{le_bytes}
use ip2geo.Bytes.Laws.{length-le_bytes}
use ip2geo.Bytes.Words.{le_words}
use ip2geo.Format.RecordId.{put_uint24}
use ip2geo.Format.Layout.{record_width}
use ip2geo.Build.Record.{RecKey}
use ip2geo.Build.PackRecord.{put, pack_country, pack_region, pack_city, pack_record}

-- The fields of a record of the profile, as widths and values.
abbrev pub country_words : RecKey → List (ℕ × ℕ)
country_words k =
    (2, k.country_iso % 2 ^ 16)
    ∷ (2, k.country_name % 2 ^ 16)
    ∷ (2, k.continent % 2 ^ 16)
    ∷ (4, k.country_geo)
    ∷ []

abbrev pub region_words : RecKey → List (ℕ × ℕ)
region_words k = (2, k.region_iso % 2 ^ 16) ∷ (2, k.region_name % 2 ^ 16) ∷ []

abbrev pub city_words : RecKey → List (ℕ × ℕ)
city_words k =
    (3, k.city_name)
    ∷ (4, k.city_geo)
    ∷ (4, k.lat)
    ∷ (4, k.lon)
    ∷ (2, k.acc % 2 ^ 16)
    ∷ (2, k.tz % 2 ^ 16)
    ∷ []

abbrev pub record_words : ℕ → RecKey → List (ℕ × ℕ)
record_words zero k = country_words k
record_words (suc zero) k = country_words k ++ region_words k
record_words (suc (suc zero)) k = country_words k ++ region_words k ++ city_words k
record_words p k = (4, k.country_geo) ∷ (3, k.city_name) ∷ []

pub record_width-le : (p : ℕ) → p ≤ 3 → record_width p ≤ 33
unfolding record_width
record_width-le p le = ground arith

put_uint24-le_bytes : (v : ℕ) → put_uint24 v ≡ le_bytes 3 v
unfolding put_uint24 le_bytes
put_uint24-le_bytes v = ground arith

-- The first `n` bytes of the 33 are the words.
record IsPacked (n : ℕ) (ws : List (ℕ × ℕ)) (rec : List ℕ) : Type 0 where
  size : length rec ≡ 33
  words : take n rec ≡ le_words ws

take-put :
    (off : ℕ) (bytes rec : List ℕ)
    → off ≤ length rec
    → take (off + length bytes) (put off bytes rec) ≡ take off rec ++ bytes
unfolding put
take-put off bytes rec le =
    ap (take (off + length bytes))
      (sym (append_assoc (take off rec) bytes (drop (off + length bytes) rec)))
    ∙ take-append {0} (take off rec ++ bytes) _ (off + length bytes)
        (omega (arith, length-append {0} (take off rec) bytes, length-take {0} off rec))

pub length-put :
    (off : ℕ) (bytes rec : List ℕ)
    → off + length bytes ≤ length rec
    → length (put off bytes rec) ≡ length rec
unfolding put
length-put off bytes rec le = omega (
  arith,
  length-append {0} (take off rec) (bytes ++ drop (off + length bytes) rec),
  length-append {0} bytes (drop (off + length bytes) rec),
  length-take {0} off rec,
  length-drop {0} (off + length bytes) rec,
)

le_words_snoc :
    (ws : List (ℕ × ℕ)) (w v : ℕ) → le_words (ws ++ ((w, v) ∷ [])) ≡ le_words ws ++ le_bytes w v
le_words_snoc [] w v = append-nil (le_bytes w v)
le_words_snoc ((w', v') ∷ ws) w v =
    ap (λ l. le_bytes w' v' ++ l) (le_words_snoc ws w v)
    ∙ sym (append_assoc (le_bytes w' v') (le_words ws) (le_bytes w v))

-- One more field, stored behind the words packed so far.
put-IsPacked :
    (n w v : ℕ) (ws : List (ℕ × ℕ)) (rec : List ℕ)
    → n + w ≤ 33
    → IsPacked n ws rec
    → IsPacked (n + w) (ws ++ ((w, v) ∷ [])) (put n (le_bytes w v) rec)
put-IsPacked n w v ws rec le h =
    let len = length-le_bytes w v in
    record {
      size = length-put n (le_bytes w v) rec (omega (arith, len, h.size)) ∙ h.size;
      words =
          ap (λ k. take (n + k) (put n (le_bytes w v) rec)) (sym len)
          ∙ take-put n (le_bytes w v) rec (omega (arith, h.size))
          ∙ ap (λ l. l ++ le_bytes w v) h.words
          ∙ sym (le_words_snoc ws w v);
    }

pack_country-IsPacked :
    (k : RecKey) (rec : List ℕ)
    → length rec ≡ 33
    → IsPacked 10 (country_words k) (pack_country k rec)
unfolding pack_country
pack_country-IsPacked k rec size =
    let p0 : IsPacked 0 [] rec = record { size = size; words = refl } in
    let p1 = put-IsPacked 0 2 (k.country_iso % 2 ^ 16) [] rec (omega arith) p0 in
    let p2 = put-IsPacked 2 2 (k.country_name % 2 ^ 16) _ _ (omega arith) p1 in
    let p3 = put-IsPacked 4 2 (k.continent % 2 ^ 16) _ _ (omega arith) p2 in
    put-IsPacked 6 4 k.country_geo _ _ (omega arith) p3

pack_region-IsPacked :
    (k : RecKey) (rec : List ℕ)
    → IsPacked 10 (country_words k) rec
    → IsPacked 14 (country_words k ++ region_words k) (pack_region k rec)
unfolding pack_region
pack_region-IsPacked k rec p =
    let p1 = put-IsPacked 10 2 (k.region_iso % 2 ^ 16) _ _ (omega arith) p in
    put-IsPacked 12 2 (k.region_name % 2 ^ 16) _ _ (omega arith) p1

pack_city-IsPacked :
    (k : RecKey) (rec : List ℕ)
    → IsPacked 14 (country_words k ++ region_words k) rec
    → IsPacked 33 (country_words k ++ region_words k ++ city_words k) (pack_city k rec)
unfolding pack_city
pack_city-IsPacked k rec p =
    let p1 = put-IsPacked 14 3 k.city_name _ _ (omega arith) p in
    let p2 = put-IsPacked 17 4 k.city_geo _ _ (omega arith) p1 in
    let p3 = put-IsPacked 21 4 k.lat _ _ (omega arith) p2 in
    let p4 = put-IsPacked 25 4 k.lon _ _ (omega arith) p3 in
    let p5 = put-IsPacked 29 2 (k.acc % 2 ^ 16) _ _ (omega arith) p4 in
    rw (put_uint24-le_bytes k.city_name) (put-IsPacked 31 2 (k.tz % 2 ^ 16) _ _ (omega arith) p5)

-- The record width of the profile holds the fields of the record, nothing of what the array held
-- before, and the array keeps its 33 bytes.
pub pack_record-record_words :
    (p : ℕ) (k : RecKey) (rec : List ℕ)
    → p ≤ 3
    → length rec ≡ 33
    → (take (record_width p) (pack_record p k rec) ≡ le_words (record_words p k))
      × (length (pack_record p k rec) ≡ 33)
unfolding pack_record record_width
pack_record-record_words zero k rec le size =
    let h = pack_country-IsPacked k rec size in (h.words, h.size)
pack_record-record_words (suc zero) k rec le size =
    let h = pack_region-IsPacked k _ (pack_country-IsPacked k rec size) in (h.words, h.size)
pack_record-record_words (suc (suc zero)) k rec le size =
    let h = pack_city-IsPacked k _ (pack_region-IsPacked k _ (pack_country-IsPacked k rec size)) in
    (h.words, h.size)
pack_record-record_words (suc (suc (suc zero))) k rec le size =
    let p0 : IsPacked 0 [] rec = record { size = size; words = refl } in
    let p1 = put-IsPacked 0 4 k.country_geo [] rec (omega arith) p0 in
    let h = put-IsPacked 4 3 k.city_name _ _ (omega arith) p1 in
    rw (put_uint24-le_bytes k.city_name) (h.words, h.size)
pack_record-record_words (suc (suc (suc (suc p)))) k rec le size = absurd (omega arith)
