-- ===== src/Csv/Rows/Separate.antt =====
-- The IPv4 ranges of the rows that a CSV source's reader accepts are separate networks.
use ip2geo.Base.{
  ℕ, ◌^◌, ◌≤◌, ◌<◌, ◌≡◌, ◌≢◌, refl, sym, ap, subst, ◌∙◌, false, Bool, inl, Option, none, some,
  some_injective, bind-some, List, [], ◌∷◌, ◌++◌, All, All-append, Result, ok, err, panic,
  ok_injective, >>=-ok, refuse_if-ok, if◌then◌else◌, arith,
}
use mathlib.Core.Option
use ip2geo.Build.Merge4.{Range4, Merger4, new_merger4, add, add_all}
use ip2geo.Build.Merge4.Answer.{IsRange4, Apart, IsDisjoint, record_of, record_from-append}
use ip2geo.Csv.Ranges.Covered.{holds4}
use ip2geo.Build.Merge6.{be_bytes}
use ip2geo.Build.Builder.{Builder, v4, v6, RangeError, add_range}
use ip2geo.Csv.Layout.{Layout}
use mathlib.Core.List.{append_assoc, append-nil}
use ip2geo.Csv.Ranges.{IpAddr, ipv4, ipv6, less_addr, is_4, IpRange}
use ip2geo.Csv.Ranges.Families.{OneFamily, IsPart}
use ip2geo.Csv.Rows.{Rows, overlapping, not_below, added, add_part, add_parts}
use ip2geo.Build.Builder.Ranges.{Adds, add_range-v4, add_range-v6}

-- The networks lie at or below the end of the last IPv4 range, and there are none without one.
abbrev pub Below : Option IpAddr → List Range4 → Type 0
Below none rs = rs ≡ []
Below (some (ipv4 e)) rs = All (λ q. q.last ≤ e) rs
Below (some (ipv6 e)) rs = ⊥

-- The networks added to the IPv4 merger so far are valid and separate.
pub record IsFed (r : Rows) : Type 0 where
  pub networks : List Range4
  pub merged : add_all new_merger4 networks ≡ some r.b.v4m
  pub valid : All IsRange4 networks
  pub separate : IsDisjoint networks
  pub below : Below r.end4 networks

add_all-append :
    (m : Merger4) (rs : List Range4) (r : Range4) {m1 m2 : Merger4}
    → add_all m rs ≡ some m1
    → add m1 r ≡ some m2
    → add_all m (rs ++ (r ∷ [])) ≡ some m2
unfolding add_all Option.bind
add_all-append m [] r e f = let same = some_injective e in rw (same, f) refl
add_all-append m (q ∷ rs) r e f =
    let (m', one, rest) = bind-some (add m q) _ e in rw one (add_all-append m' rs r rest f)

IsDisjoint-append :
    (rs : List Range4) (r : Range4)
    → IsDisjoint rs
    → All (λ q. q.last < r.start) rs
    → IsDisjoint (rs ++ (r ∷ []))
IsDisjoint-append [] r h lt = (tt, tt)
IsDisjoint-append (q ∷ rs) r h lt =
    (All-append (Apart q) rs (r ∷ []) h.0 (inl lt.0, tt), IsDisjoint-append rs r h.1 lt.1)

All-map :
    {P Q : Range4 → Type 0} (f : (q : Range4) → P q → Q q) (rs : List Range4) → All P rs → All Q rs
All-map f [] h = tt
All-map f (q ∷ rs) h = (f q h.0, All-map f rs h.1)

added-ok : (x : Result RangeError Builder) {b : Builder} → added x ≡ ok b → x ≡ ok b
added-ok (ok b) e = ap ok (ok_injective e)
added-ok (err y) e = absurd (ground arith)
added-ok panic e = absurd (ground arith)

-- A range that starts above the last one starts above every network.
above_all :
    (end : Option IpAddr) (f : ℕ) (rs : List Range4)
    → not_below end (ipv4 f) ≡ false
    → Below end rs
    → All (λ q. q.last < f) rs
unfolding less_addr
above_all none f rs e h = subst (All (λ q. q.last < f)) (sym h) tt
above_all (some (ipv4 p)) f rs e h =
    let lt : p < f = ground arith in All-map (λ q le. omega arith) rs h
above_all (some (ipv6 p)) f rs e h = absurd h

-- The IPv4 network of a range for the record `id`, none of an IPv6 range.
abbrev pub network_of : IpAddr → IpAddr → ℕ → List Range4
network_of (ipv4 f) (ipv4 l) id = record { start = f; last = l; rec = id } ∷ []
network_of _ _ id = []

abbrev pub networks_of : List IpRange → ℕ → List Range4
networks_of [] id = []
networks_of (p ∷ ps) id = network_of p.first p.last id ++ networks_of ps id

-- What the reader of a file keeps from row to row.
abbrev pub Frame : Type 0
Frame = Layout × Bool × ℕ × ℕ × List ℕ

abbrev pub frame : Rows → Frame
frame r = (r.l, r.v6_file, r.profile, r.fields, r.key_cols)

-- A step of the reader that adds the ranges `parts` for the record `rec`: the addresses in them have
-- this record after it, and the others what they had in `old`; the builder's records are kept.
pub record IsStep (old : List Range4) (parts : List IpRange) (rec : ℕ) (r r' : Rows) : Type 0 where
  pub fed : IsFed r'
  pub answers :
      (key : ℕ) → record_of fed.networks key ≡ (if holds4 parts key then rec else record_of old key)
  pub same_recs : r'.b.recs ≡ r.b.recs
  pub same_keys : r'.b.keys ≡ r.b.keys
  pub same_ids : r'.ids ≡ r.ids
  pub same_strs : r'.b.strs ≡ r.b.strs
  pub same_opts : r'.b.opts ≡ r.b.opts
  pub same_frame : frame r' ≡ frame r
  pub appended : fed.networks ≡ old ++ networks_of parts rec

feed_v4 :
    (r : Rows) (f l rec : ℕ) (b' : Builder) (h : IsFed r)
    → l < 2 ^ 32
    → rec ≢ 0
    → not_below r.end4 (ipv4 f) ≡ false
    → Adds r.b f l rec b'
    → IsStep h.networks
        (record { first = ipv4 f; last = ipv4 l } ∷ [])
        rec
        r
        (record r { b = b'; end4 = some (ipv4 l) })
feed_v4 r f l rec b' h lt pos free adds =
    let new : Range4 = record { start = f; last = l; rec = rec } in
    let low = above_all r.end4 f h.networks free h.below in
    record {
      fed = record {
        networks = h.networks ++ (new ∷ []);
        merged = add_all-append new_merger4 h.networks new h.merged adds.into;
        valid =
            All-append IsRange4 h.networks (new ∷ []) h.valid
              (record { ordered = adds.ordered; fits = lt; has_record = pos }, tt);
        separate = IsDisjoint-append h.networks new h.separate low;
        below =
            All-append (λ q. q.last ≤ l) h.networks (new ∷ [])
              (All-map (λ q le. omega (arith, adds.ordered)) h.networks low) (omega arith, tt);
      };
      answers = λ key. record_from-append 0 h.networks new key ∙ ground arith;
      same_recs = adds.same_recs;
      same_keys = adds.same_keys;
      same_ids = refl;
      same_strs = adds.same_strs;
      same_opts = adds.same_opts;
      same_frame = refl;
      appended = refl;
    }

add_part-IsStep :
    (r : Rows) (first last : IpAddr) (rec : ℕ) {r' : Rows} (h : IsFed r)
    → OneFamily first last
    → rec ≢ 0
    → add_part r (record { first = first; last = last }) rec ≡ ok r'
    → IsStep h.networks (record { first = first; last = last } ∷ []) rec r r'
unfolding add_part is_4
add_part-IsStep r (ipv4 f) (ipv4 l) rec h one pos e =
    let (free, rest) = refuse_if-ok (not_below r.end4 (ipv4 f)) overlapping _ e in
    let (b', run, done) = >>=-ok (added (add_range r.b (v4 f) (v4 l) rec)) _ rest in
    subst (IsStep h.networks _ rec r) (ok_injective done)
      (feed_v4 r f l rec b' h one pos free (add_range-v4 r.b f l rec (added-ok _ run)))
add_part-IsStep r (ipv4 f) (ipv6 l) rec h one pos e = absurd one
add_part-IsStep r (ipv6 f) (ipv4 l) rec h one pos e = absurd one
add_part-IsStep r (ipv6 f) (ipv6 l) rec h one pos e =
    let (free, rest) = refuse_if-ok (not_below r.end6 (ipv6 f)) overlapping _ e in
    let (b', run, done) =
      >>=-ok (added (add_range r.b (v6 (be_bytes 16 f)) (v6 (be_bytes 16 l)) rec)) _ rest in
    let keeps = add_range-v6 r.b f (v6 (be_bytes 16 l)) rec one.0 one.1 (added-ok _ run) in
    subst (IsStep h.networks _ rec r) (ok_injective done) (record {
      fed = record {
        networks = h.networks;
        merged = h.merged ∙ ap some (sym keeps.same_v4);
        valid = h.valid;
        separate = h.separate;
        below = h.below;
      };
      answers = λ key. refl;
      same_recs = keeps.same_recs;
      same_keys = keeps.same_keys;
      same_ids = refl;
      same_strs = keeps.same_strs;
      same_opts = keeps.same_opts;
      same_frame = refl;
      appended = sym (append-nil h.networks);
    })

pub add_parts-IsStep :
    (r : Rows) (parts : List IpRange) (rec : ℕ) {r' : Rows} (h : IsFed r)
    → All IsPart parts
    → rec ≢ 0
    → add_parts r parts rec ≡ ok r'
    → IsStep h.networks parts rec r r'
unfolding add_parts
add_parts-IsStep r [] rec h parts pos e =
    subst (IsStep h.networks [] rec r) (ok_injective e) (record {
      fed = h;
      answers = λ key. refl;
      same_recs = refl;
      same_keys = refl;
      same_ids = refl;
      same_strs = refl;
      same_opts = refl;
      same_frame = refl;
      appended = sym (append-nil h.networks);
    })
add_parts-IsStep r (p ∷ ps) rec h parts pos e =
    let (r1, one, rest) = >>=-ok (add_part r p rec) _ e in
    let first = add_part-IsStep r p.first p.last rec h parts.0 pos one in
    let later = add_parts-IsStep r1 ps rec first.fed parts.1 pos rest in
    record {
      fed = later.fed;
      answers = λ key. later.answers key ∙ ground (arith, first.answers key);
      same_recs = later.same_recs ∙ first.same_recs;
      same_keys = later.same_keys ∙ first.same_keys;
      same_ids = later.same_ids ∙ first.same_ids;
      same_strs = later.same_strs ∙ first.same_strs;
      same_opts = later.same_opts ∙ first.same_opts;
      same_frame = later.same_frame ∙ first.same_frame;
      appended =
          later.appended
          ∙ ap (λ l. l ++ networks_of ps rec)
              (first.appended ∙ ap (λ l. h.networks ++ l) (append-nil _))
          ∙ append_assoc h.networks (network_of p.first p.last rec) (networks_of ps rec);
    }
