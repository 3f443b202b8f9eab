-- ===== src/Examples/Rows.antt =====
-- csvdb/reader.go at a concrete input: two lines of a DB-IP country file.
use ip2geo.Base.{ℕ, true, false, Bool, Option, none, some, List, [], ◌∷◌, Result, ok, if◌then◌else◌}
use ip2geo.Format.Header.{bytes_eq}
use ip2geo.Build.Strings.{Str}
use ip2geo.Csv.Layout.{codes, dbip_country}
use ip2geo.Csv.Ranges.{IpAddr, ipv4}
use ip2geo.Csv.Rows.{Rows, new_rows, add_row, add_lines}
use ip2geo.Examples.Build.{source_record}
use ip2geo.Examples.Builder.{fresh}

-- Four addresses, as numbers.
abbrev parse : Str → Option IpAddr
parse s =
    if bytes_eq s (codes "1.0.0.0")
    then some (ipv4 0x01000000)
    else if bytes_eq s (codes "1.0.0.255")
    then some (ipv4 0x010000ff)
    else none

abbrev no_float : Str → Option ℕ
no_float s = none

abbrev always : ℕ → ℕ → Bool
always x bound = true

abbrev start : Rows
start = new_rows dbip_country fresh false

abbrev value_or : {E A : Type 0} → A → Result E A → A
value_or d (ok a) = a
value_or d _ = d

abbrev is_ok : {E A : Type 0} → Result E A → Bool
is_ok (ok a) = true
is_ok _ = false

abbrev australia : List Str
australia = codes "1.0.0.0" ∷ codes "1.0.0.255" ∷ codes "AU" ∷ []

abbrev after_row : Rows
after_row = value_or start (add_row no_float always source_record parse (λ x. x) start australia)

abbrev file_lines : List Str
file_lines = codes "1.0.0.0,1.0.0.255,AU\r\n" ∷ codes "\n" ∷ []

abbrev after_lines : Rows
after_lines =
    value_or start (add_lines no_float always source_record parse (λ x. x) start file_lines)
