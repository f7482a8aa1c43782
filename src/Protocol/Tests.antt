-- ===== src/Protocol/Tests.antt =====
-- The theorems on the protocol at concrete commands.
use hybrid_vector_cache_hnsw.Common.{◌≡◌, ◌≢◌, refl, none, [], ◌∷◌, ◌++◌, arith}
use hybrid_vector_cache_hnsw.Common.Bytes.{bytes}
use hybrid_vector_cache_hnsw.Protocol.Tokenize.{tokenize, unescape}
use hybrid_vector_cache_hnsw.Protocol.Command.{Command, print, has_byte}
use hybrid_vector_cache_hnsw.Protocol.Command.RoundTrip.{IsReadable, tokenize-print}
use hybrid_vector_cache_hnsw.Protocol.Command.Backslash.{tokenize-print_backslash}
use hybrid_vector_cache_hnsw.Protocol.Parse.{
  Reader, eof, parsed, out_of_fuel, parse, to_upper, empty_command, is_line_end,
}
use hybrid_vector_cache_hnsw.Protocol.Parse.RoundTrip.{
  IsFramable, frames, parse-ne-out_of_fuel, parse-frames,
}
use mathlib.Core.Option.{some}

abbrev set_command : Command
set_command = record { name = bytes "SET"; args = bytes "k" ∷ bytes "a \"b" ∷ [] }

abbrev ping : Command
ping = record { name = bytes "PING"; args = [] }

set_command-print : print set_command ≡ bytes "SET k \"a \\\"b\""
unfolding print
set_command-print = refl

k-IsReadable : IsReadable (bytes "k")
k-IsReadable = record {
  nonempty = omega arith;
  no_backslash = omega arith;
  plain_unless_quoted = λ _. (refl, tt);
}

value-IsReadable : IsReadable (bytes "a \"b")
unfolding has_byte
value-IsReadable = record {
  nonempty = omega arith;
  no_backslash = omega arith;
  plain_unless_quoted = λ e. absurd (cc);
}

set_command-IsFramable : IsFramable set_command
unfolding print to_upper is_line_end
set_command-IsFramable = record {
  named = omega arith;
  name_plain = (refl, (refl, (refl, tt)));
  name_upper = refl;
  readable = (k-IsReadable, (value-IsReadable, tt));
  one_line = omega arith;
  no_return = refl;
  fits = omega arith;
}

ping-IsFramable : IsFramable ping
unfolding print to_upper is_line_end
ping-IsFramable = record {
  named = omega arith;
  name_plain = (refl, (refl, (refl, (refl, tt))));
  name_upper = refl;
  readable = tt;
  one_line = omega arith;
  no_return = refl;
  fits = omega arith;
}

tokenize-print_example : tokenize (print set_command) ≡ bytes "SET" ∷ bytes "k" ∷ bytes "a \"b" ∷ []
tokenize-print_example =
    tokenize-print set_command set_command-IsFramable.named set_command-IsFramable.name_plain
      set_command-IsFramable.readable

-- The argument `a\nb`, with a backslash and an n, comes back with a newline.
tokenize-print_backslash_example :
    (tokenize
        (print (record { name = bytes "GET"; args = (bytes "a" ++ b'\\' ∷ b'n' ∷ bytes "b") ∷ [] }))
      ≡ bytes "GET" ∷ (bytes "a" ++ unescape b'n' ∷ bytes "b") ∷ [])
    × ((bytes "a" ++ unescape b'n' ∷ bytes "b") ≢ bytes "a" ++ b'\\' ∷ b'n' ∷ bytes "b")
tokenize-print_backslash_example =
    tokenize-print_backslash (bytes "GET") (bytes "a") (bytes "b") b'n' (omega arith)
      (refl, (refl, (refl, tt))) (refl, tt) (refl, (refl, tt))

-- Two lines in two reads, with a blank line between them.
abbrev split_reader : Reader
split_reader = record {
  buffered = bytes "get";
  coming = (bytes " a" ++ 13 ∷ 10 ∷ 13 ∷ 10 ∷ bytes "ping") ∷ (13 ∷ 10 ∷ []) ∷ [];
  ending = eof;
}

parse_run :
    parse split_reader
    ≡ parsed
        (record { name = bytes "GET"; args = bytes "a" ∷ [] } ∷ [])
        none
        (record { buffered = bytes "ping"; coming = (13 ∷ 10 ∷ []) ∷ []; ending = eof })
unfolding parse
parse_run = refl

parse_blank :
    parse (record { buffered = 32 ∷ 10 ∷ []; coming = []; ending = eof })
    ≡ parsed [] (some empty_command) (record { buffered = []; coming = []; ending = eof })
unfolding parse
parse_blank = refl

parse-ne-out_of_fuel_example : parse split_reader ≢ out_of_fuel
parse-ne-out_of_fuel_example = parse-ne-out_of_fuel split_reader

parse-frames_example :
    parse (record { buffered = frames (set_command ∷ ping ∷ []); coming = []; ending = eof })
    ≡ parsed (set_command ∷ ping ∷ []) none (record { buffered = []; coming = []; ending = eof })
parse-frames_example =
    parse-frames set_command (ping ∷ []) [] eof (set_command-IsFramable, (ping-IsFramable, tt))
