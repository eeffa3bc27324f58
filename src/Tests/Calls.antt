-- ===== src/Tests/Calls.antt =====
-- A stub of the trampoline page, and what the extractor finds in a buffer.
use vardoger.Prelude.{◌≡◌, refl, [], ◌∷◌, ◌++◌, arith, replicate}
use vardoger.Prelude.Order.{Bytes}
use vardoger.Prelude.Text.{text}
use vardoger.Extractor.{is_dex, scan_loop, scan_buffer, search_loop}
use vardoger.Extractor.Scans.{IsScan, scan_buffer-IsScan}
use vardoger.Extractor.Strings.{Every, IsRun, search_loop-Every}

-- Four bytes and a header without a body behind them.
abbrev header : Bytes
header =
    text "dex"
    ++ (10 ∷ text "035"
        ++ (replicate 25 0
            ++ (0x70 ∷ 0 ∷ 0 ∷ 0 ∷ 0x70 ∷ 0 ∷ 0 ∷ 0 ∷ 0x78 ∷ 0x56 ∷ 0x34 ∷ 0x12 ∷ replicate 68 0)))

abbrev buffer : Bytes
buffer = replicate 4 0 ++ header

found :
    scan_buffer (text "heap") 0x1000 buffer
    ≡ record { addr = 0x1004; region = text "heap"; version = text "035"; bytes = header } ∷ []
unfolding scan_buffer scan_loop is_dex
found = refl

scan_buffer-IsScan_example :
    IsScan (text "heap") 0x1000 0 buffer (scan_buffer (text "heap") 0x1000 buffer)
scan_buffer-IsScan_example = scan_buffer-IsScan (text "heap") 0x1000 buffer

search_loop-Every_example :
    Every
      (IsRun (text "x0") 4 (text "heap") 0x1000 (0 ∷ text "f_x00" ++ 0 ∷ text "x0"))
      (search_loop (text "x0") 4 (text "heap") 0x1000 0 0 [] (0 ∷ text "f_x00" ++ 0 ∷ text "x0"))
search_loop-Every_example =
    search_loop-Every (text "x0") 4 (text "heap") 0x1000 (0 ∷ text "f_x00" ++ 0 ∷ text "x0")
      (omega arith)
