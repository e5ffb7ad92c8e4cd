-- ===== src/TraceId/Tests.antt =====
-- Trace ids with and without leading zeros.
use habr_parser.Base.{◌≡◌, refl, utf8, length, All, arith}
use habr_parser.TraceId.{
  IsHex, hex, hex_digit, zeros, hex_value, format_trace_id, format_trace_id_lem,
}

padded : format_trace_id 0xbeef ≡ utf8 "0000beef"
unfolding format_trace_id hex hex_digit zeros utf8
padded = refl

format_trace_id_lem_example :
    (length (format_trace_id 0xbeef) ≡ 8)
    × All IsHex (format_trace_id 0xbeef)
    × (hex_value 0 (format_trace_id 0xbeef) ≡ 0xbeef)
format_trace_id_lem_example = format_trace_id_lem 0xbeef (omega arith)
