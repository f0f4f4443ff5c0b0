-- ===== src/Cache/Memory.antt =====
-- A query client as an association list, which shows that the assumptions can be met.
use greenlink.Prelude.{refl, Option, none, some, List, [], ◌∷◌, map, if◌then◌else◌, ◌==◌}
use greenlink.Types.TeeSheet.{TeeSheetDayResponse}
use greenlink.Cache.{DayKey, QueryClient, day_key_eq}

abbrev pub Days : Type 0
Days = List (DayKey × TeeSheetDayResponse)

abbrev pub lookup : DayKey → Days → Option TeeSheetDayResponse
lookup k [] = none
lookup k ((j, d) ∷ ds) = if k == j then some d else lookup k ds

abbrev pub key_of : DayKey × TeeSheetDayResponse → DayKey
key_of (k, d) = k

abbrev pub memory : QueryClient
memory = record {
  Cache = Days;
  get = lookup;
  set = λ k d c. (k, d) ∷ c;
  keys = map key_of;
  get-set = λ k j d c. refl;
}
