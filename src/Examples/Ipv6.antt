-- ===== src/Examples/Ipv6.antt =====
-- The IPv6 aliases and the IPv6 tables at concrete inputs.
use ip2geo.Base.{
  ℕ, zero, suc, ◌-◌, ◌*◌, ◌^◌, ◌<◌, ◌≡◌, ◌≢◌, ◌⊎◌, ◌↔◌, refl, true, none, some, List, [], ◌∷◌,
  arith,
}
use ip2geo.Bytes.{le_at, le_uint}
use ip2geo.Reader.Count.{◌!◌}
use ip2geo.Reader.Search6.{Tables6, v6_exc_lo_of}
use ip2geo.Reader.Search6.Exceptions.{HoldsExceptions, v6_exc_lo_of-entry}
use ip2geo.Reader.Words128.{Addr, num}
use ip2geo.Reader.Aliases.{
  Range, Yield, v6_aliases, embedded_v4, is_4_in_6, yield_unaliased, cut_all,
}
use ip2geo.Reader.Aliases.Run.{In, InSome, yield_all}
use ip2geo.Reader.Aliases.Parts.{yield_unaliased-parts}
use ip2geo.Reader.Aliases.Cut.{cut_all-In, v6_aliases-embedded_v4}
use ip2geo.Examples.Open.{tops, exceptions, lows}

abbrev everything : Range
everything = record {
  first = record { hi = 0; lo = 0 };
  last = record { hi = 2 ^ 64 - 1; lo = 2 ^ 64 - 1 };
}

yield_unaliased-parts_example :
    (ps : List Range) × ((S : Type 0) (yield : Yield S) (s : S)
      → yield_unaliased yield s everything ≡ yield_all yield ps s)
    × ((x : ℕ) → InSome ps x ↔ (In everything x × ¬ InSome v6_aliases x))
yield_unaliased-parts_example =
    yield_unaliased-parts everything (grind arith) (grind arith) (omega arith)

-- 2001:db8::1.
abbrev documented : Addr
documented = record { hi = 0x20010db8_00000000; lo = 1 }

v6_aliases-embedded_v4_example :
    InSome v6_aliases (num documented)
    ↔ ((embedded_v4 documented ≢ none) ⊎ (is_4_in_6 documented ≡ true))
v6_aliases-embedded_v4_example = v6_aliases-embedded_v4 documented (grind arith)

documented_unaliased : ¬ InSome v6_aliases (num documented)
unfolding v6_aliases
documented_unaliased = λ h. ground arith

cut_all-In_example :
    In (cut_all documented v6_aliases everything) (num documented)
    × ((x : ℕ)
        → In (cut_all documented v6_aliases everything) x
        → In everything x × ¬ InSome v6_aliases x)
cut_all-In_example =
    cut_all-In documented everything (grind arith) (grind arith) (grind arith) (omega arith)
      documented_unaliased

abbrev exception_tables : Tables6
exception_tables = record {
  id_width = 1;
  v6hi = tops;
  v6ids = 1 ∷ 0 ∷ [];
  v6exc_idx = exceptions;
  v6exc_lo = lows;
  v6exc = 2 ∷ [];
  v6dir = [];
  v6l2 = [];
}

second_excepted : HoldsExceptions exceptions (1 ∷ [])
second_excepted = record { rising = omega arith; size = refl; index = index }
  where
    index : (j : ℕ) → j < 1 → le_at 4 exceptions (j * 4) ≡ some ((1 ∷ []) ! j)
    index zero lt = unfold le_at le_uint in refl
    index (suc j) lt = absurd (omega arith)

v6_exc_lo_of-entry_example : v6_exc_lo_of exception_tables 1 ≡ le_at 8 lows (0 * 8)
v6_exc_lo_of-entry_example =
    v6_exc_lo_of-entry exception_tables (1 ∷ []) 0 second_excepted (omega arith)
