-- ===== src/RvCore/Main.antt =====
-- How the simulator of the core ends.
use koika.Prelude.{
  ℕ, ◌<◌, ◌≡◌, refl, ap, sym, ◌∙◌, Bool, true, not, Option, none, some, List, ◌∷◌, ◌==◌, bit_and,
}
use koika.Elf.{Image, Phdr}
use koika.Driver.{Design, exit_info_state, ncycles_of, main}
use koika.Driver.Exit.{call, main_lem}
use koika.Driver.Params.{Params, of_cli}
use koika.RvCore.{Core, Setup, Ended, new_core, rv_core, core_main}
use koika.RvCore.Program.{IsProgram, program_words, rv_core_lem}

module _ {ℓ} {A : Type ℓ} (files : List ℕ → Option Image) (design : Design A)
    (module_rv32 : Core → A) (cycle_id : ℕ) where
  -- `main`, by how the loop of `cuttlesim::main` ends.
  core_main-ends :
      (core loaded : Core) (fpath : List ℕ) (args : List (List ℕ)) (params : Params) (image : Image)
      → of_cli fpath args ≡ some params
      → files fpath ≡ some image
      → rv_core image core ≡ some (Setup.ready loaded)
      → core_main files design module_rv32 cycle_id core (fpath ∷ args)
        ≡ some (Ended.ended 0 (main design (module_rv32 loaded) cycle_id (some params.ncycles)).0)
  unfolding core_main
  core_main-ends core loaded fpath args params image e found h = rw (e, found, h) refl

  -- With a number of cycles that `std::stoull` takes, or none, and a 32-bit file whose program headers
  -- can be read and whose loaded segments fit the memories, the simulator exits with 0, whatever the
  -- code that the design finishes with: if none of the first `ncycles` rounds of the rules, from the
  -- state with the program in both memories, calls `finish`, it prints the state; if round `j` is the
  -- first to call it, it prints the state if the call's configuration has that bit.
  pub core_main_lem :
      (dmem imem : ℕ → ℕ) (input fpath : List ℕ) (args : List (List ℕ)) (params : Params)
      (image : Image) (phdrs : List Phdr) (start : A)
      → of_cli fpath args ≡ some params
      → files fpath ≡ some image
      → IsProgram image phdrs
      → start
        ≡ module_rv32
            (new_core (program_words image phdrs dmem) (program_words image phdrs imem) input)
      → (((j : ℕ) → j < params.ncycles → call design start j ≡ none)
          → core_main files design module_rv32 cycle_id (new_core dmem imem input) (fpath ∷ args)
            ≡ some (Ended.ended 0 true))
        × ((j config code : ℕ)
            → j < params.ncycles
            → ((i : ℕ) → i < j → call design start i ≡ none)
            → call design start j ≡ some (config, code)
            → core_main files design module_rv32 cycle_id (new_core dmem imem input) (fpath ∷ args)
              ≡ some (Ended.ended 0 (not (bit_and config exit_info_state == 0))))
  unfolding ncycles_of
  core_main_lem dmem imem input fpath args params image phdrs start e found p same =
      let ends =
        core_main-ends (new_core dmem imem input) _ fpath args params image e found
          (rv_core_lem image phdrs p dmem imem input)
        ∙ ap (λ (a : A). printed (main design a cycle_id (some params.ncycles))) (sym same) in
      let (silent, calls) = main_lem design start cycle_id (some params.ncycles) in
      (
        λ quiet. ends ∙ ap printed (silent quiet),
        λ j config code h quiet c. ends ∙ ap printed (calls j config code h quiet c),
      )
    where
      printed : Bool × ℕ → Option Ended
      printed r = some (Ended.ended 0 r.0)
