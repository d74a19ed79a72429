-- ===== src/Vcd/State/Read.antt =====
-- `vcd_readvars` on any file.
use koika.Prelude.{
  ℕ, zero, suc, ◌-◌, ◌^◌, ◌<◌, ◌≤◌, ◌≡◌, refl, arith, true, false, ◌⊎◌, inl, inr, some, Option,
  List, [], ◌∷◌, length, drop, Bool-cases, ◌==◌,
}
use koika.Prelude.Digits.{two_pow_pos, mod-lt_pow, digitwise-lt, bit_or-IsDigitwise}
use koika.Bits.{op_or}
use koika.Bits.Width.{IsNative}
use koika.Bits.Arith.{op_or_lem}
use koika.Bits.Slice.{max_size}
use koika.Bits.Slice.Laws.{op_shl_lem, lt-promoted}
use koika.Text.{of_str_loop, of_str}
use koika.Vcd.{readvar, Reader, read_header, starts_with, dumpvars_mark}
use koika.Vcd.Header.{Register}
use koika.Text.Number.{read_number, read_number-lt}
use koika.Vcd.State.{same, assign, readvars_loop, readvars, vcd_readvars, AreRegisters, Fits}

-- A text that has a value of `sz` bits.
abbrev Reads : ℕ → List ℕ → Type 0
Reads sz str = (v : ℕ) × (of_str sz str ≡ some v) × (v < 2 ^ sz)

op_or-lt : (sz x y : ℕ) → IsNative sz → x < 2 ^ sz → y < 2 ^ sz → op_or sz x y < 2 ^ sz
op_or-lt sz x y h p q = rw (op_or_lem sz h x y p q) (digitwise-lt bit_or-IsDigitwise sz x y p q)

of_str_loop-returns :
    (sz : ℕ) (cs : List ℕ) (out : ℕ)
    → IsNative sz
    → length cs ≤ sz
    → out < 2 ^ sz
    → (v : ℕ) × (of_str_loop sz cs out ≡ some v) × (v < 2 ^ sz)
unfolding of_str_loop
of_str_loop-returns sz [] out h room fits = (out, refl, fits)
of_str_loop-returns sz (c ∷ cs) out h room fits = elim (Bool-cases (c == 0x31)) [
  | inl one ↦
      let shifted = op_shl_lem sz h 1 (length cs) (lt-promoted sz h (length cs) room) in
      rw (one, shifted)
        (of_str_loop-returns sz cs _ h (omega (arith, room))
          (op_or-lt sz out _ h fits (mod-lt_pow _ sz)))
  | inr other ↦ rw other (of_str_loop-returns sz cs out h (omega (arith, room)) fits)
]

length-drop : (n : ℕ) (xs : List ℕ) → length (drop n xs) ≡ length xs - n
length-drop zero xs = omega arith
length-drop (suc n) [] = omega arith
length-drop (suc n) (x ∷ xs) = omega (arith, length-drop n xs)

room_left : (n sz : ℕ) → n - (max_size n sz - sz) ≤ sz
room_left n sz = ground arith

-- Any text at all has a value.
of_str-returns : (sz : ℕ) (str : List ℕ) → IsNative sz → Reads sz str
unfolding of_str
of_str-returns sz str h =
    of_str_loop-returns sz _ 0 h
      (rw (length-drop (max_size (length str) sz - sz) str) (room_left (length str) sz))
      (two_pow_pos sz)

assign-returns :
    (regs : List Register) (var val vs : List ℕ)
    → AreRegisters regs
    → Fits regs vs
    → (ws : List ℕ) × (assign regs var val vs ≡ some ws) × Fits regs ws
unfolding assign
assign-returns [] var val [] g f = ([], refl, tt)
assign-returns [] var val (v ∷ vs) g f = absurd f
assign-returns (r ∷ rs) var val [] g f = absurd f
assign-returns (r ∷ rs) var val (v ∷ vs) g f = elim (Bool-cases (same var r.name)) [
  | inl here ↦
      let (w, read, small) = of_str-returns r.width val g.1 in
      (w ∷ vs, rw (here, read) refl, (small, f.1))
  | inr elsewhere ↦
      let (ws, done, fit) = assign-returns rs var val vs g.4 f.1 in
      (v ∷ ws, rw (elsewhere, done) refl, (f.0, fit))
]

-- A turn of the loop takes a line, if it finds a value.
pub readvar-shorter :
    (lines : List (List ℕ)) (r : Reader)
    → ((readvar read_number lines r).0 ≡ false)
      ⊎ (suc (length (readvar read_number lines r).1.lines) ≤ length lines)
unfolding readvar
readvar-shorter [] r = inl refl
readvar-shorter ([] ∷ lines) r = elim (readvar-shorter lines r) [
  | inl stop ↦ inl stop
  | inr less ↦ inr (omega (arith, less))
]
readvar-shorter ((c ∷ cs) ∷ lines) r = elim (Bool-cases (c == 0x23)) [
  | inl stamp ↦ elim (readvar-shorter lines (record r { cycle_id = read_number cs r.cycle_id })) [
    | inl stop ↦ inl (rw stamp stop)
    | inr less ↦ inr (rw stamp (omega (arith, less)))
  ]
  | inr value ↦ inr (rw value (omega arith))
]

readvar-cycle_id :
    (lines : List (List ℕ)) (r : Reader)
    → r.cycle_id < 2 ^ 64
    → (readvar read_number lines r).1.cycle_id < 2 ^ 64
unfolding readvar
readvar-cycle_id [] r h = h
readvar-cycle_id ([] ∷ lines) r h = readvar-cycle_id lines r h
readvar-cycle_id ((c ∷ cs) ∷ lines) r h = elim (Bool-cases (c == 0x23)) [
  | inl stamp ↦ rw stamp (
      readvar-cycle_id lines (record r { cycle_id = read_number cs r.cycle_id })
        (read_number-lt cs r.cycle_id h))
  | inr value ↦ rw value h
]

-- What a reading of values comes to: a cycle of 64 bits, and a state.
abbrev pub Restores : List Register → Option (ℕ × List ℕ) → Type 0
Restores regs result =
    (cycle_id : ℕ) × (ws : List ℕ) × (result ≡ some (cycle_id, ws))
    × (cycle_id < 2 ^ 64)
    × Fits regs ws

readvars_loop-returns :
    (regs : List Register) (fuel : ℕ) (r : Reader) (vs : List ℕ)
    → AreRegisters regs
    → Fits regs vs
    → r.cycle_id < 2 ^ 64
    → length r.lines < fuel
    → Restores regs (readvars_loop regs fuel r vs)
unfolding readvars_loop
readvars_loop-returns regs zero r vs g f c h = absurd (omega (arith, h))
readvars_loop-returns regs (suc fuel) r vs g f c h =
    elim (Bool-cases (readvar read_number r.lines r).0) [
      | inl found ↦
          let next = (readvar read_number r.lines r).1 in
          let (ws, done, fit) = assign-returns regs next.name next.val vs g f in
          rw (found, done)
            (readvars_loop-returns regs fuel next ws g fit (readvar-cycle_id r.lines r c)
              (shrinks found (readvar-shorter r.lines r)))
      | inr stop ↦ rw stop (_, vs, refl, readvar-cycle_id r.lines r c, f)
    ]
  where
    shrinks :
        (readvar read_number r.lines r).0 ≡ true
        → ((readvar read_number r.lines r).0 ≡ false)
          ⊎ (suc (length (readvar read_number r.lines r).1.lines) ≤ length r.lines)
        → length (readvar read_number r.lines r).1.lines < fuel
    shrinks found (inl stop) = cc
    shrinks found (inr less) = omega (arith, less, h)

no_header : (file : List (List ℕ)) → (read_header file).0 ≡ false → read_header file ≡ (false, [])
unfolding read_header
no_header [] h = refl
no_header (line ∷ lines) h = elim (Bool-cases (starts_with dumpvars_mark line)) [
  | inl mark ↦ let found : true ≡ false = rw mark at h in cc
  | inr other ↦ rw other (no_header lines (rw other at h))
]

-- Whatever a file holds, `vcd_readvars` returns on a state whose registers have 1 to 64 bits, different
-- names, and values that fit: it gives a cycle of 64 bits, and a state whose values fit. If no line of
-- the file starts with `$dumpvars`, the state is as before, and the cycle is `2 ^ 64 - 1`.
pub vcd_readvars-returns :
    (regs : List Register) (file : List (List ℕ)) (vs : List ℕ)
    → AreRegisters regs
    → Fits regs vs
    → Restores regs (vcd_readvars regs file vs)
      × ((read_header file).0 ≡ false → vcd_readvars regs file vs ≡ some (2 ^ 64 - 1, vs))
unfolding vcd_readvars readvars
vcd_readvars-returns regs file vs g f = (
  readvars_loop-returns regs (suc (length (read_header file).1))
      (record { cycle_id = 2 ^ 64 - 1; name = []; val = []; lines = (read_header file).1 }) vs g f
      (omega arith) (omega arith),
  λ h. rw (no_header file h) (unfold readvars_loop readvar in refl),
)
