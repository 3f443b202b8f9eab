-- ===== src/Format/Layout.antt =====
-- internal/format/format.go: the section ids, the record layouts and `RecordWidth`.
use ip2geo.Base.{ℕ, ◌==◌, if◌then◌else◌}

abbrev pub sec_meta : ℕ
sec_meta = 1

abbrev pub sec_str_idx : ℕ
sec_str_idx = 2

abbrev pub sec_str_blob : ℕ
sec_str_blob = 3

abbrev pub sec_records : ℕ
sec_records = 4

abbrev pub sec_v4_idx : ℕ
sec_v4_idx = 5

abbrev pub sec_v4_starts : ℕ
sec_v4_starts = 6

abbrev pub sec_v4_ids : ℕ
sec_v4_ids = 7

abbrev pub sec_v6_starts : ℕ
sec_v6_starts = 8

abbrev pub sec_v6_ids : ℕ
sec_v6_ids = 9

abbrev pub sec_v6_exc_idx : ℕ
sec_v6_exc_idx = 10

abbrev pub sec_v6_exc_lo : ℕ
sec_v6_exc_lo = 11

abbrev pub sec_x_fields : ℕ
sec_x_fields = 12

abbrev pub sec_x_records : ℕ
sec_x_records = 13

abbrev pub sec_langs : ℕ
sec_langs = 14

abbrev pub dir_entry_size : ℕ
dir_entry_size = 24

abbrev pub rec_country_iso : ℕ
rec_country_iso = 0

abbrev pub rec_country_name : ℕ
rec_country_name = 2

abbrev pub rec_continent : ℕ
rec_continent = 4

abbrev pub rec_country_geo : ℕ
rec_country_geo = 6

abbrev pub rec_region_iso : ℕ
rec_region_iso = 10

abbrev pub rec_region_name : ℕ
rec_region_name = 12

abbrev pub rec_city_name : ℕ
rec_city_name = 14

abbrev pub rec_city_geo : ℕ
rec_city_geo = 17

abbrev pub rec_lat : ℕ
rec_lat = 21

abbrev pub rec_lon : ℕ
rec_lon = 25

abbrev pub rec_accuracy : ℕ
rec_accuracy = 29

abbrev pub rec_time_zone : ℕ
rec_time_zone = 31

abbrev pub rec_width_country : ℕ
rec_width_country = 10

abbrev pub rec_width_region : ℕ
rec_width_region = 14

abbrev pub rec_width_city : ℕ
rec_width_city = 33

abbrev pub profile_asn : ℕ
profile_asn = 3

abbrev pub rec_asn_number : ℕ
rec_asn_number = 0

abbrev pub rec_asn_org : ℕ
rec_asn_org = 4

abbrev pub rec_width_asn : ℕ
rec_width_asn = 7

-- 0 for an unknown profile.
unfoldable pub record_width : ℕ → ℕ
record_width profile =
    if profile == 0
    then rec_width_country
    else if profile == 1
    then rec_width_region
    else if profile == 2
    then rec_width_city
    else if profile == profile_asn
    then rec_width_asn
    else 0
