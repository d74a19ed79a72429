-- ===== src/Vcd/Examples.antt =====
-- The register `pc` with the value 19, dumped and read.
use koika.Prelude.{ℕ, ◌≡◌, refl, arith, true, false, some, List, [], ◌∷◌}
use koika.Text.{of_str}
use koika.Vcd.{dumpvar, Reader, readvar, read_header}
use koika.Vcd.Restore.{readvar-dumpvar}

abbrev reader : Reader
reader = record { cycle_id = 4; name = []; val = []; lines = [] }

abbrev no_number : List ℕ → ℕ → ℕ
no_number cs old = old

readvar-dumpvar_example :
    (line : List ℕ) × (val : List ℕ) × (dumpvar 5 (0x70 ∷ 0x63 ∷ []) 19 3 false ≡ some (line ∷ []))
    × (readvar no_number (line ∷ []) reader
        ≡ (true, record { cycle_id = 4; name = 0x70 ∷ 0x63 ∷ []; val = val; lines = [] }))
    × (of_str 5 val ≡ some 19)
readvar-dumpvar_example =
    readvar-dumpvar no_number 5 0x70 (0x63 ∷ []) 19 3 false reader [] (omega arith) (omega arith)
      (omega arith) refl (refl, (refl, tt))

no_header : read_header ((0x24 ∷ []) ∷ []) ≡ (false, [])
unfolding read_header
no_header = refl
