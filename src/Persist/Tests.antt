-- ===== src/Persist/Tests.antt =====
-- The theorems on the append-only file at concrete files.
use mathlib.Core.List.{foldl}
use hybrid_vector_cache_hnsw.Common.{◌≡◌, refl, [], ◌∷◌, ◌++◌, map, arith}
use hybrid_vector_cache_hnsw.Common.Bytes.{Bytes, bytes}
use hybrid_vector_cache_hnsw.Protocol.Parse.{is_space, space_width, trim_space}
use hybrid_vector_cache_hnsw.Persist.Crc.{crc32}
use hybrid_vector_cache_hnsw.Persist.{
  collect, scan_lines, hex_digit, drop_return, log_line, write, replay_line, replay, hex8,
  split_colon, sscanf_hex8, scan_hex, hex_value,
}
use hybrid_vector_cache_hnsw.Persist.Line.{IsLoggable, IsDamaged, sealed}
use hybrid_vector_cache_hnsw.Persist.Replay.{IsScanned, text_of, replay_damaged, replay-write}

abbrev first : Bytes
first = bytes "SET k v"

abbrev second : Bytes
second = bytes "DEL k"

abbrev bad : Bytes
bad = sealed 1 (bytes "DEL x")

log_line_run : log_line second ≡ hex8 (crc32 second) ++ bytes ":DEL k"
unfolding log_line
log_line_run = refl

first-IsLoggable : IsLoggable first
unfolding is_space space_width
first-IsLoggable = record {
  one_line = omega arith;
  no_space_end = refl;
  no_wide_space_end = refl;
  fits = omega arith;
}

second-IsLoggable : IsLoggable second
unfolding is_space space_width
second-IsLoggable = record {
  one_line = omega arith;
  no_space_end = refl;
  no_wide_space_end = refl;
  fits = omega arith;
}

bad-IsScanned : IsScanned bad
unfolding is_space hex8 hex_digit
bad-IsScanned = record { one_line = omega arith; no_space_end = refl; fits = omega arith }

bad-IsDamaged : IsDamaged 1 (bytes "DEL x")
unfolding crc32 space_width
bad-IsDamaged = record { small = omega arith; differs = omega arith; no_space_end = refl }

-- U+3000 at the end of a command is trimmed off, so its line is skipped.
wide_end_is_lost : replay (log_line (bytes "SET k x" ++ 0xE3 ∷ 0x80 ∷ 0x80 ∷ []) ++ 10 ∷ []) ≡ []
unfolding replay replay_line trim_space split_colon sscanf_hex8 scan_hex hex_value crc32 log_line
    collect scan_lines hex8 hex_digit drop_return
wide_end_is_lost = refl

replay_damaged_example :
    replay (text_of (map log_line (first ∷ []) ++ bad ∷ map log_line (second ∷ [])))
    ≡ (first ∷ []) ++ second ∷ []
replay_damaged_example =
    replay_damaged (first ∷ []) (second ∷ []) 1 (bytes "DEL x") (first-IsLoggable, tt)
      (second-IsLoggable, tt) bad-IsScanned bad-IsDamaged

replay-write_example : replay (foldl write [] (first ∷ second ∷ [])) ≡ first ∷ second ∷ []
replay-write_example =
    replay-write (first ∷ second ∷ []) (first-IsLoggable, (second-IsLoggable, tt))
