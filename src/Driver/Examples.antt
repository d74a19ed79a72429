-- ===== src/Driver/Examples.antt =====
-- A design that counts and finishes in its third round with code 7.
use koika.Prelude.{ℕ, ◌+◌, ◌<◌, ◌≡◌, ◌==◌, refl, true, false, not, bit_and, some, none, [], ◌∷◌}
use koika.Driver.{
  Design, Devices, ext_finish, ext_led, ext_uart_read, ext_uart_write, main, ncycles_of,
  exit_info_state, finish, cycle, run_cycles, init_and_run, report,
}
use koika.Driver.Exit.{call, main_lem}

abbrev counter : Design ℕ
counter = record { rules = λ s. (s + 1, ext_finish (record { valid = s == 2; «data» = 7 })) }

main_lem_example :
    (((j : ℕ) → j < ncycles_of (some 20) → call counter 0 j ≡ none)
      → main counter 0 0 (some 20) ≡ (true, 0))
    × ((j config code : ℕ)
        → j < ncycles_of (some 20)
        → ((i : ℕ) → i < j → call counter 0 i ≡ none)
        → call counter 0 j ≡ some (config, code)
        → main counter 0 0 (some 20) ≡ (not (bit_and config exit_info_state == 0), code))
main_lem_example = main_lem counter 0 0 (some 20)

seven : main counter 0 0 (some 20) ≡ (false, 7)
unfolding main init_and_run run_cycles cycle finish report ncycles_of ext_finish
seven = refl

abbrev devices : Devices
devices = record { led = 0; printed = []; input = 0x41 ∷ [] }

lit : (ext_led devices (record { valid = true; «data» = 1 })).1.led ≡ 1
unfolding ext_led
lit = refl

echoed : (ext_uart_write devices (ext_uart_read devices true).0).1.printed ≡ 0x41 ∷ []
unfolding ext_uart_write ext_uart_read
echoed = refl
