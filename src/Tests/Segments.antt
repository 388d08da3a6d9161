-- ===== src/Tests/Segments.antt =====
-- Concrete TCP options.
use ai_pattarai.Common.{ℕ, ◌≡◌, true, some, List, [], ◌∷◌, arith}
use ai_pattarai.Options.{SackBlock, parse, write_syn, write_data}
use ai_pattarai.Options.Parse.{ParsedSafely, parse-ParsedSafely}
use ai_pattarai.Options.RoundTrip.{
  data_off_of, syn_opts, data_opts, parse-write_syn, parse-write_data,
}

parse-write_syn_example :
    let opts = write_syn 40 1460 7 true true 123456 654321 in
    parse (data_off_of opts) opts ≡ some (syn_opts 1460 7 true true 123456 654321)
parse-write_syn_example =
    parse-write_syn 1460 123456 654321 (omega arith) (omega arith) (omega arith) 7 true true

abbrev one_block : List SackBlock
one_block = record { left = 1000; right = 2460 } ∷ []

parse-write_data_example :
    let opts = write_data 40 true 123456 654321 one_block in
    parse (data_off_of opts) opts ≡ some (data_opts true 123456 654321 one_block)
parse-write_data_example =
    parse-write_data 123456 654321 (omega arith) (omega arith) true one_block
      (omega arith, omega arith, tt) (omega arith)

-- A truncated timestamp option.
abbrev cut_short : List ℕ
cut_short = 8 ∷ 10 ∷ 1 ∷ 2 ∷ []

parse-ParsedSafely_example : ParsedSafely (parse 96 cut_short)
parse-ParsedSafely_example = parse-ParsedSafely 96 cut_short
